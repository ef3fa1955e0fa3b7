-- ===== src/Crypto.antt =====
-- common/crypto.c: `aes_gcm_encrypt` and `aes_gcm_decrypt`, the frame around AES-256-GCM. OpenSSL is
-- a parameter: sealing, opening, and base64 in both directions.
pub mod Laws
pub mod Gcm
pub mod Cbc
mod Tests
pub mod Toy
use sync_clipboard.Prelude.Int.{ℤ, int_of}
use sync_clipboard.Prelude.{
  Bool, Bytes, Option, [], behind, drop, if◌then◌else◌, length, ltb, none, not, some, take, ℕ, ◌++◌,
  ◌+◌, ◌-◌, ◌==◌, ◌||◌, ◌∷◌,
}
use sync_clipboard.Codec.{base64_decode, hex_to_bytes}

-- Each function gives `none` if one of the calls that it stands for fails.
pub record Openssl : Type 0 where
  -- key, nonce, text, the number of its bytes as an `int`: the ciphertext and the tag
  pub gcm_seal : Bytes → Bytes → Bytes → ℤ → Option (Bytes × Bytes)
  -- key, nonce, ciphertext, tag: the text, if the tag is right
  pub gcm_open : Bytes → Bytes → Bytes → Bytes → Option Bytes
  -- bytes, their number as an `int`
  pub bio_write : Bytes → ℤ → Option Bytes
  pub bio_read : Bytes → Option Bytes

abbrev pub gcm_nonce_len : ℕ
gcm_nonce_len = 12

abbrev pub gcm_tag_len : ℕ
gcm_tag_len = 16

abbrev pub gcm_version : ℕ
gcm_version = 2

abbrev pub gcm_frame : Bytes → Bytes → Bytes → Bytes
gcm_frame nonce ct tag = gcm_version ∷ (nonce ++ (ct ++ tag))

-- `aes_gcm_encrypt`, with the nonce that `RAND_bytes` gives and if the memory for the frame is there.
unfoldable pub gcm_encrypt : Openssl → Bool → Option Bytes → Bytes → Bytes → Option Bytes
gcm_encrypt ssl memory nonce text key_hex = elim (hex_to_bytes key_hex 32) [
  | none ↦ none
  | some key ↦ elim nonce [
    | none ↦ none
    | some n ↦ elim (ssl.gcm_seal key n text (int_of (length text))) [
      | none ↦ none
      | some (ct, tag) ↦
          let frame = gcm_frame n ct tag in
          if memory then ssl.bio_write frame (int_of (length frame)) else none
    ]
  ]
]

-- What `aes_gcm_decrypt` does with a frame.
unfoldable pub open_frame : Openssl → Bool → Bytes → Bytes → Option Bytes
open_frame ssl memory key [] = none
open_frame ssl memory key (version ∷ body) =
    let frame_len = length (version ∷ body) in
    let ct_len = frame_len - 1 - gcm_nonce_len - gcm_tag_len in
    let behind = drop gcm_nonce_len body in
    let text =
      ssl.gcm_open key (take gcm_nonce_len body) (take ct_len behind) (drop ct_len behind) in
    if ltb frame_len (1 + gcm_nonce_len + gcm_tag_len) || not (version == gcm_version)
    then none
    else if memory
    then text
    else none

unfoldable pub gcm_decrypt : Openssl → Bool → Bytes → Bytes → Option Bytes
unfolding open_frame
gcm_decrypt ssl memory input key_hex = elim (hex_to_bytes key_hex 32) [
  | none ↦ none
  | some key ↦ elim (base64_decode ssl.bio_read memory input) [
    | none ↦ none
    | some frame ↦ open_frame ssl memory key frame
  ]
]
