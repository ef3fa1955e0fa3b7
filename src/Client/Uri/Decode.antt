-- ===== src/Client/Uri/Decode.antt =====
-- Percent-encoded text is decoded, and decoding in place is safe.
use sync_clipboard.Prelude.{
  Bool-cases, Bytes, Option-cases, [], ap, arith, false, inl, inr, length, refl, true, ℕ, ◌*◌, ◌+◌,
  ◌<◌, ◌==◌, ◌∙◌, ◌∷◌, ◌≡◌, ◌≢◌, ◌≤◌,
}
use sync_clipboard.Codec.{hex_value, is_xdigit, scan_hex2}
use sync_clipboard.Codec.Hex.{hex_value-lt, scan_hex2_digits}
use sync_clipboard.Client.Uri.{url_decode}

-- A text encodes bytes: any byte but the percent sign may stand for itself, and two hexadecimal digits
-- behind a percent sign stand for a byte, in upper or lower case.
pub data Encodes : Bytes → Bytes → Type 0 where
  nothing : Encodes [] []
  plain :
      (c : ℕ) {text bytes : Bytes} → c ≢ b'%' → Encodes text bytes → Encodes (c ∷ text) (c ∷ bytes)
  escaped :
      (c d : ℕ) {text bytes : Bytes}
      → is_xdigit c ≡ true
      → is_xdigit d ≡ true
      → Encodes text bytes
      → Encodes (b'%' ∷ c ∷ d ∷ text) ((16 * hex_value c + hex_value d) ∷ bytes)

url_decode-plain : (c : ℕ) (rest : Bytes) → c ≢ b'%' → url_decode (c ∷ rest) ≡ c ∷ url_decode rest
unfolding url_decode
url_decode-plain c [] h = refl
url_decode-plain c (d ∷ []) h = refl
url_decode-plain c (d ∷ e ∷ rest) h =
    let other : (c == b'%') ≡ false = ground arith in rw (other, url_decode) refl

url_decode-escaped :
    (c d : ℕ) (rest : Bytes)
    → is_xdigit c ≡ true
    → is_xdigit d ≡ true
    → url_decode (b'%' ∷ c ∷ d ∷ rest) ≡ (16 * hex_value c + hex_value d) ∷ url_decode rest
unfolding url_decode
url_decode-escaped c d rest hc hd =
    let small : 16 * hex_value c + hex_value d < 256 =
      omega (arith, hex_value-lt c hc, hex_value-lt d hd) in
    rw (scan_hex2_digits c d rest hc hd, url_decode) (ap (λ b. b ∷ url_decode rest) (omega arith))

-- `url_decode_inplace` decodes every text that percent-encodes some bytes to these bytes.
pub url_decode-Encodes : (text bytes : Bytes) → Encodes text bytes → url_decode text ≡ bytes
url_decode-Encodes _ _ nothing = unfold url_decode in refl
url_decode-Encodes _ _ (plain c {text} {bytes} h e) =
    url_decode-plain c text h ∙ ap (◌∷◌ c) (url_decode-Encodes text bytes e)
url_decode-Encodes _ _ (escaped c d {text} {bytes} hc hd e) =
    url_decode-escaped c d text hc hd
    ∙ ap (◌∷◌ (16 * hex_value c + hex_value d)) (url_decode-Encodes text bytes e)

-- Whatever the text is, `url_decode_inplace` writes no more bytes than it reads, so that it may write
-- over the text.
pub length-url_decode : (text : Bytes) → length (url_decode text) ≤ length text
unfolding url_decode
length-url_decode [] = omega arith
length-url_decode (c ∷ []) = omega arith
length-url_decode (c ∷ d ∷ []) = omega (arith, length-url_decode (d ∷ []))
length-url_decode (c ∷ d ∷ e ∷ rest) = elim (Bool-cases (c == b'%')) [
  | inr h ↦ rw (h, url_decode) (omega (arith, length-url_decode (d ∷ e ∷ rest)))
  | inl h ↦ elim (Option-cases (scan_hex2 (d ∷ e ∷ rest))) [
    | inl s ↦ rw (h, s, url_decode) (omega (arith, length-url_decode (d ∷ e ∷ rest)))
    | inr (byte, s) ↦ rw (h, s, url_decode) (omega (arith, length-url_decode rest))
  ]
]
