-- ===== src/Crypto/Toy.antt =====
-- A toy cipher with the behaviour that OpenSSL documents, and a key, for runs.

use sync_clipboard.Auth.Handshake.{IsKey}
use sync_clipboard.Codec.{is_xdigit}
use sync_clipboard.Codec.Base64.{IsStandard}
use sync_clipboard.Crypto.{Openssl}
use sync_clipboard.Crypto.Laws.{IsSound, IsWorking}
use sync_clipboard.Prelude.{
  All, Bytes, [], ap, ap₂, arith, codes, if◌then◌else◌, length, length-replicate, none, refl,
  replicate, same, same_refl, some, sym, ◌%◌, ◌+◌, ◌-◌, ◌∷◌, ◌≡◌,
}

abbrev pub toy_tag : Bytes → Bytes
toy_tag key = replicate 16 (length key)

-- Four characters for a byte.
abbrev pub toy_write : Bytes → Bytes
toy_write [] = []
toy_write (b ∷ bs) = (b + 200) ∷ 0 ∷ 0 ∷ 0 ∷ toy_write bs

abbrev pub toy_read : Bytes → Bytes
toy_read (a ∷ b ∷ c ∷ d ∷ rest) = (a - 200) ∷ toy_read rest
toy_read _ = []

abbrev pub toy_ssl : Openssl
toy_ssl = record {
  gcm_seal = λ key nonce text n. some (text, toy_tag key);
  gcm_open = λ key nonce ct tag. if same tag (toy_tag key) then some ct else none;
  bio_write = λ bytes n. some (toy_write bytes);
  bio_read = λ text. some (toy_read text);
}

toy_read-toy_write : (bytes : Bytes) → toy_read (toy_write bytes) ≡ bytes
toy_read-toy_write [] = refl
toy_read-toy_write (b ∷ bs) = ap₂ ◌∷◌ (omega arith) (toy_read-toy_write bs)

toy_write-IsStandard : (bytes : Bytes) → All IsStandard (toy_write bytes)
toy_write-IsStandard [] = tt
toy_write-IsStandard (b ∷ bs) = (
  (omega arith, omega arith),
  (
    (omega arith, omega arith),
    ((omega arith, omega arith), ((omega arith, omega arith), toy_write-IsStandard bs)),
  ),
)

length-toy_write : (bytes : Bytes) → length (toy_write bytes) % 4 ≡ 0
length-toy_write [] = refl
length-toy_write (b ∷ bs) = omega (arith, length-toy_write bs)

pub toy_ssl-IsSound : IsSound toy_ssl
toy_ssl-IsSound = record {
  seals = λ key nonce text ct tag short e.
      let same_ct : text ≡ ct = cc in
      let same_tag : toy_tag key ≡ tag = cc in sealed key text ct tag same_ct same_tag;
  encodes = λ bytes text short e.
      let same_text : toy_write bytes ≡ text = cc in encoded bytes text same_text;
}
  where
    sealed :
        (key text ct tag : Bytes)
        → text ≡ ct
        → toy_tag key ≡ tag
        → ((if same tag (toy_tag key) then some ct else none) ≡ some text)
          × (length ct ≡ length text)
          × (length tag ≡ 16)
    sealed key text ct tag e f = (
      rw (← e, ← f) (rw (same_refl (toy_tag key)) refl),
      ap length (sym e),
      rw (← f) (length-replicate 16 (length key)),
    )

    encoded :
        (bytes text : Bytes)
        → toy_write bytes ≡ text
        → (some (toy_read text) ≡ some bytes) × All IsStandard text × (length text % 4 ≡ 0)
    encoded bytes text e =
        rw (← e)
          (ap some (toy_read-toy_write bytes), toy_write-IsStandard bytes, length-toy_write bytes)

pub toy_ssl-IsWorking : IsWorking toy_ssl
toy_ssl-IsWorking = record {
  seals = λ key nonce text short. (text, toy_tag key, refl);
  encodes = λ bytes short some_bytes. (toy_write bytes, refl);
}

abbrev pub toy_key : Bytes
toy_key = codes "00112233445566778899aabbccddeeff00112233445566778899AABBCCDDEEFF"

pub toy_key-IsKey : IsKey toy_key
unfolding is_xdigit
toy_key-IsKey = (refl, ground arith)
