-- ===== src/Crypto/Cbc.antt =====
-- common/crypto.c: `aes_encrypt` and `aes_decrypt`, the older pair, IV(16) || ciphertext in base64.
pub mod RoundTrip
mod Tests
use sync_clipboard.Prelude.Int.{ℤ, int_of}
use sync_clipboard.Prelude.{
  Bool, Bytes, Option, [], drop, if◌then◌else◌, length, ltb, min, none, replicate, some, suc, take,
  zero, ℕ, ◌%◌, ◌++◌, ◌+◌, ◌-◌, ◌/◌, ◌^◌, ◌∷◌,
}
use sync_clipboard.Codec.{scan_hex2}

-- The calls of OpenSSL, `none` where one of them fails.
pub record CbcCipher : Type 0 where
  -- key, IV, text, the number of its bytes as an `int`
  pub seal : Bytes → Bytes → Bytes → ℤ → Option Bytes
  -- key, IV, ciphertext
  pub unseal : Bytes → Bytes → Bytes → Option Bytes
  -- bytes, their number as an `int`
  pub write_text : Bytes → ℤ → Option Bytes
  pub read_text : Bytes → Option Bytes

abbrev pub aes_key_len : ℕ
aes_key_len = 32

abbrev pub aes_iv_len : ℕ
aes_iv_len = 16

-- The loop of `hex_to_bytes`: where `sscanf` reads nothing, what the variable happens to hold is
-- stored.
unfoldable pub lenient_loop : ℕ → ℕ → Bytes → Bytes
unfolding scan_hex2
lenient_loop garbage zero hex = []
lenient_loop garbage (suc n) hex =
    let rest = lenient_loop garbage n (drop 2 hex) in
    elim (scan_hex2 hex) [ none ↦ garbage % 2 ^ 8 ∷ rest | some byte ↦ byte % 2 ^ 8 ∷ rest ]

-- `memset(key, 0, ...); hex_to_bytes(key_hex, key, AES_KEY_LEN);`
unfoldable pub cbc_key : ℕ → Bytes → Bytes
unfolding lenient_loop
cbc_key garbage key_hex =
    let len = min (length key_hex / 2) aes_key_len in
    lenient_loop garbage len key_hex ++ replicate (aes_key_len - len) 0

-- `aes_encrypt`, with the IV that `RAND_bytes` fills in and if there is memory.
unfoldable pub aes_encrypt : CbcCipher → Bool → ℕ → Bytes → Bytes → Bytes → Option Bytes
aes_encrypt cipher memory garbage iv text key_hex =
    elim (cipher.seal (cbc_key garbage key_hex) iv text (int_of (length text))) [
      | none ↦ none
      | some ct ↦
          if memory then cipher.write_text (iv ++ ct) (int_of (aes_iv_len + length ct)) else none
    ]

-- What `aes_decrypt` does with the decoded bytes.
unfoldable pub open_cbc : CbcCipher → Bool → Bytes → Bytes → Option Bytes
open_cbc cipher memory key decoded =
    let text = cipher.unseal key (take aes_iv_len decoded) (drop aes_iv_len decoded) in
    if ltb (length decoded) (aes_iv_len + 1) then none else if memory then text else none

unfoldable pub aes_decrypt : CbcCipher → Bool → ℕ → Bytes → Bytes → Option Bytes
unfolding open_cbc
aes_decrypt cipher memory garbage input key_hex = elim (cipher.read_text input) [
  | none ↦ none
  | some decoded ↦ open_cbc cipher memory (cbc_key garbage key_hex) decoded
]
