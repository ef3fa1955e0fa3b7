-- ===== src/Crypto/Cbc/Tests.antt =====
-- A toy cipher with the documented behaviour, and the witness of the theorem.
use sync_clipboard.Prelude.{Bytes, codes, drop, none, refl, replicate, some, true, ◌∷◌, ◌≡◌}
use sync_clipboard.Crypto.Cbc.{CbcCipher, aes_decrypt, cbc_key}

-- It puts a byte behind the text and takes it off again.
abbrev toy : CbcCipher
toy = record {
  seal = λ key iv text n. some (1 ∷ text);
  unseal = λ key iv ct. some (drop 1 ct);
  write_text = λ bytes n. some bytes;
  read_text = λ text. some text;
}

abbrev key : Bytes
key = codes "00112233445566778899aabbccddeeff00112233445566778899AABBCCDDEEFF"

abbrev iv : Bytes
iv = replicate 16 5

-- A short key is filled up with zeros, and an unreadable pair of characters keeps what was there.
cbc_key_odd : cbc_key 77 (codes "01zz") ≡ 1 ∷ 77 ∷ replicate 30 0
unfolding cbc_key
cbc_key_odd = refl

-- Sixteen bytes are an IV and no ciphertext.
short_input : aes_decrypt toy true 1 (replicate 16 0) key ≡ none
unfolding aes_decrypt
short_input = refl
