-- ===== src/Crypto/Cbc/RoundTrip.antt =====
-- The key of a good configuration, and that sealed text opens.
use sync_clipboard.Prelude.Int.{pos}
use sync_clipboard.Prelude.{
  ==_iff, Bytes, Option-cases, [], ap, append-nil, arith, drop, inl, inr, length, min, none,
  replicate, some, suc, sym, zero, ℕ, ◌%◌, ◌++◌, ◌+◌, ◌-◌, ◌/◌, ◌<◌, ◌^◌, ◌∙◌, ◌∷◌, ◌≡◌, ◌≢◌, ◌≤◌,
}
use sync_clipboard.Codec.{hex_loop, hex_to_bytes, scan_hex2}
use sync_clipboard.Crypto.Cbc.{CbcCipher, cbc_key, lenient_loop}
use sync_clipboard.Auth.Handshake.{IsKey}
use sync_clipboard.Codec.Hex.{Decoded, Decoded-digits}

-- What OpenSSL documents, of at most 2^30 bytes: the ciphertext is one block at least, longer than the
-- text by one block at most, and opens under the same key and IV;
-- base64 text reads back.
pub record IsCbc (cipher : CbcCipher) : Type 0 where
  pub seals :
      (key iv text : Bytes)
      → length text ≤ 2 ^ 30
      → (ct : Bytes) × (cipher.seal key iv text (pos (length text)) ≡ some ct)
        × (0 < length ct)
        × (length ct ≤ length text + 16)
        × (cipher.unseal key iv ct ≡ some text)
  pub writes :
      (bytes : Bytes)
      → length bytes ≤ 2 ^ 30
      → 0 < length bytes
      → (text : Bytes) × (cipher.write_text bytes (pos (length bytes)) ≡ some text)
        × (cipher.read_text text ≡ some bytes)

lenient_loop-hex_loop :
    (garbage n : ℕ) (hex bytes : Bytes)
    → hex_loop n hex ≡ some bytes
    → lenient_loop garbage n hex ≡ bytes
unfolding lenient_loop hex_loop
lenient_loop-hex_loop garbage zero hex bytes e = cc
lenient_loop-hex_loop garbage (suc n) hex bytes e = elim (Option-cases (scan_hex2 hex)) [
  | inl s ↦ absurd (none_is_some (rw (s, hex_loop) at e))
  | inr (byte, s) ↦ elim (Option-cases (hex_loop n (drop 2 hex))) [
    | inl h ↦ absurd (none_is_some (rw (s, h, hex_loop) at e))
    | inr (rest, h) ↦
        let all : some (byte % 2 ^ 8 ∷ rest) ≡ some bytes = rw (s, h, hex_loop) at e in
        let same_bytes : byte % 2 ^ 8 ∷ rest ≡ bytes = cc in
        rw (s, lenient_loop)
          (ap (◌∷◌ (byte % 2 ^ 8)) (lenient_loop-hex_loop garbage n (drop 2 hex) rest h)
            ∙ same_bytes)
  ]
]
  where
    none_is_some : {b : Bytes} → none ≢ some b
    none_is_some p = cc

-- For a key of 64 hexadecimal digits the older pair uses the key that `aes_gcm_encrypt` uses.
pub cbc_key-hex_to_bytes :
    (garbage : ℕ) (key_hex : Bytes)
    → IsKey key_hex
    → hex_to_bytes key_hex 32 ≡ some (cbc_key garbage key_hex)
unfolding cbc_key
cbc_key-hex_to_bytes garbage key_hex (size, hex) =
    let r : Decoded key_hex 32 = Decoded-digits key_hex 32 size hex in
    let len : min (length key_hex / 2) 32 ≡ 32 = omega arith in
    let found : hex_to_bytes key_hex 32 ≡ some r.bytes =
      unfold hex_to_bytes in rw ((==_iff _ _).1 size) r.found in
    found
    ∙ ap some (
        sym (append-nil r.bytes)
        ∙ ap (λ b. b ++ []) (sym (lenient_loop-hex_loop garbage 32 key_hex r.bytes r.found))
        ∙ ap (λ l. lenient_loop garbage l key_hex ++ replicate (32 - l) 0) (sym len))
