-- ===== src/Digest/File.antt =====
-- common/ft/ft_b64_sha.c: `ft_sha256_file`, chunk by chunk.
use sync_clipboard.Codec.{bytes_to_hex}
use sync_clipboard.Prelude.{
  ==_iff, Bytes, Option, [], ap, append-nil, append_assoc, arith, drop, if-both, if◌then◌else◌,
  length, length-drop, length-take, maybe, min, none, refl, some, suc, sym, take, take-append-drop,
  zero, ℕ, ◌++◌, ◌+◌, ◌<◌, ◌==◌, ◌∙◌, ◌∷◌, ◌≡◌,
}
use sync_clipboard.Wire.{ft_chunk_size}
use sync_clipboard.Digest.{sha256_hex}

-- OpenSSL's message digest: `EVP_DigestInit_ex`, `EVP_DigestUpdate` and `EVP_DigestFinal_ex`.
pub record Evp (Ctx : Type 0) : Type 0 where
  pub init : Ctx
  pub update : Ctx → Bytes → Ctx
  pub final : Ctx → Bytes

-- What is documented: the chunks are hashed as if they stood one behind the other.
pub record IsStream {Ctx : Type 0} (evp : Evp Ctx) (digest : Bytes → Bytes) : Type 0 where
  pub fed : Ctx → Bytes
  pub fed_init : fed evp.init ≡ []
  pub fed_update : (ctx : Ctx) (chunk : Bytes) → fed (evp.update ctx chunk) ≡ fed ctx ++ chunk
  pub final_fed : (ctx : Ctx) → evp.final ctx ≡ digest (fed ctx)

-- The loop on what is left of the file, with the sizes of the reads of `fread`; a read of no byte ends
-- it. `none` for want of fuel.
unfoldable pub sha_loop : {Ctx : Type 0} → Evp Ctx → ℕ → (ℕ → ℕ) → Bytes → Ctx → Option Ctx
sha_loop evp zero reads left ctx = none
sha_loop evp (suc fuel) reads left ctx =
    let chunk = take (min (reads fuel) ft_chunk_size) left in
    let rest =
      sha_loop evp fuel reads (drop (min (reads fuel) ft_chunk_size) left) (evp.update ctx chunk) in
    if length chunk == 0 then some ctx else rest

-- The result is -1, `none`, if the file cannot be opened; there is fuel for a byte in each round.
unfoldable pub sha256_file :
    {Ctx : Type 0} → Evp Ctx → (ℕ → ℕ) → Option Bytes → Option (Option Bytes)
unfolding sha_loop
sha256_file evp reads opened = maybe opened (some none) (λ bytes.
    maybe (sha_loop evp (length bytes + 1) reads bytes evp.init) none
      (λ ctx. some (some (bytes_to_hex (evp.final ctx)))))

no_bytes : (s : Bytes) → length s ≡ 0 → s ≡ []
no_bytes [] e = refl
no_bytes (x ∷ s) e = absurd (omega arith)

module _ {Ctx : Type 0} (evp : Evp Ctx) (digest : Bytes → Bytes) (laws : IsStream evp digest)
    (reads : ℕ → ℕ) (progress : (i : ℕ) → 0 < reads i) where
  sha_loop-fed :
      (fuel : ℕ) (left : Bytes) (ctx : Ctx)
      → length left < fuel
      → (end : Ctx) × (sha_loop evp fuel reads left ctx ≡ some end)
        × (laws.fed end ≡ laws.fed ctx ++ left)
  unfolding sha_loop
  sha_loop-fed zero left ctx enough = absurd (omega arith)
  sha_loop-fed (suc fuel) left ctx enough =
      let n = min (reads fuel) ft_chunk_size in
      let chunk = take n left in
      let P : Option Ctx → Type 0 =
        λ o. (end : Ctx) × (o ≡ some end) × (laws.fed end ≡ laws.fed ctx ++ left) in
      let some_read = progress fuel in
      let size = length-take n left in
      if-both P (length chunk == 0) _ _
        (λ e.
          let none_left : left ≡ [] =
            no_bytes left
              (let z = (==_iff (length chunk) 0).0 e in omega (arith, z, size, some_read)) in
          (
            ctx,
            refl,
            sym (append-nil (laws.fed ctx)) ∙ ap (λ l. laws.fed ctx ++ l) (sym none_left),
          ))
        (λ e.
          let some_byte : 0 < length chunk = ground arith in
          let fewer : length (drop n left) < fuel =
            omega (arith, size, length-drop n left, some_byte, enough) in
          let (end, found, fed) = sha_loop-fed fuel (drop n left) (evp.update ctx chunk) fewer in
          (
            end,
            found,
            fed
                ∙ ap (λ f. f ++ drop n left) (laws.fed_update ctx chunk)
                ∙ append_assoc (laws.fed ctx) chunk (drop n left)
                ∙ ap (λ l. laws.fed ctx ++ l) (take-append-drop n left),
          ))

  -- A file that can be opened, and that every `fread` before its end gives at least one byte of,
  -- whatever the sizes of the reads: the loop ends, and the digits are those of the SHA-256 of all its
  -- bytes, the ones that `ft_sha256` gives for them.
  pub sha256_file-sha256_hex :
      (bytes : Bytes) → sha256_file evp reads (some bytes) ≡ some (some (sha256_hex digest bytes))
  unfolding sha256_file sha256_hex maybe
  sha256_file-sha256_hex bytes =
      let (end, found, fed) = sha_loop-fed (length bytes + 1) bytes evp.init (omega arith) in
      let all : laws.fed end ≡ bytes = fed ∙ ap (λ f. f ++ bytes) laws.fed_init in
      let hash : evp.final end ≡ digest bytes = laws.final_fed end ∙ ap digest all in
      rw found (ap (λ h. some (some (bytes_to_hex h))) hash)
