-- ===== src/Digest/Tests.antt =====
-- The witness of the theorem, with the toy coder, and runs.

use sync_clipboard.Digest.{block_decode, block_encode, sha256_hex}
use sync_clipboard.Digest.Block.{block_decode-block_encode}
use sync_clipboard.Digest.Toy.{toy_coder, toy_coder-IsBlockCoder}
use sync_clipboard.Prelude.{Bytes, [], arith, codes, refl, some, take, true, ◌++◌, ◌∷◌, ◌≡◌}
use sync_clipboard.Codec.{bytes_to_hex}
use sync_clipboard.Digest.File.{Evp, IsStream, sha256_file, sha256_file-sha256_hex}

coded_back :
    (b64 : Bytes) × (block_encode toy_coder true (7 ∷ 0 ∷ 8 ∷ 0 ∷ []) ≡ some b64)
    × (block_decode toy_coder true b64 ≡ some (7 ∷ 0 ∷ 8 ∷ 0 ∷ []))
coded_back =
    block_decode-block_encode toy_coder (7 ∷ 0 ∷ 8 ∷ 0 ∷ []) toy_coder-IsBlockCoder (omega arith)

-- A context that keeps the bytes, and a digest that keeps the first one.
abbrev toy_evp : Evp Bytes
toy_evp = record { init = []; update = λ ctx chunk. ctx ++ chunk; final = take 1 }

toy_evp-IsStream : IsStream toy_evp (take 1)
toy_evp-IsStream = record {
  fed = λ ctx. ctx;
  fed_init = refl;
  fed_update = λ ctx chunk. refl;
  final_fed = λ ctx. refl;
}

sha256_file-sha256_hex_example :
    sha256_file toy_evp (λ i. 2) (some (7 ∷ 8 ∷ 9 ∷ [])) ≡ some (some (codes "07"))
unfolding sha256_hex bytes_to_hex
sha256_file-sha256_hex_example =
    sha256_file-sha256_hex toy_evp (take 1) toy_evp-IsStream (λ i. 2) (λ i. omega arith)
      (7 ∷ 8 ∷ 9 ∷ [])
