-- ===== src/Codec/Tests.antt =====
-- Runs of the codecs, and the witnesses of their theorems.
use sync_clipboard.Prelude.{
  All, Bytes, Option, [], arith, codes, false, length, map, none, refl, some, true, ◌%◌, ◌++◌, ◌<◌,
  ◌∷◌, ◌≡◌,
}
use sync_clipboard.Codec.{
  base64_decode, bytes_to_hex, hex_to_bytes, is_xdigit, normalise_base64, standard_char,
}
use sync_clipboard.Codec.Base64.{base64_decode_spellings, normalise_base64_lem, padding, url_char}
use sync_clipboard.Codec.Hex.{bytes_to_hex-hex_to_bytes, hex_to_bytes-bytes_to_hex}

-- A sign takes one character of the field's two, and 8 bits are kept of what `%x` stores.
hex_to_bytes_odd :
    (hex_to_bytes (codes "+1-1") 2 ≡ some (1 ∷ 255 ∷ []))
    × (hex_to_bytes (codes "0x12") 2 ≡ none)
    × (hex_to_bytes (codes "1g00") 2 ≡ some (1 ∷ 0 ∷ []))
unfolding hex_to_bytes
hex_to_bytes_odd = (refl, refl, refl)

print_and_read : hex_to_bytes (bytes_to_hex (0 ∷ 171 ∷ 255 ∷ [])) 3 ≡ some (0 ∷ 171 ∷ 255 ∷ [])
print_and_read =
    hex_to_bytes-bytes_to_hex (0 ∷ 171 ∷ 255 ∷ []) (omega arith, (omega arith, (omega arith, tt)))

read_and_print :
    (bytes : Bytes) × (hex_to_bytes (codes "aBfF") 2 ≡ some bytes)
    × (length bytes ≡ 2)
    × All (λ b. b < 256) bytes
    × (bytes_to_hex bytes ≡ codes "abff")
unfolding is_xdigit
read_and_print = bytes_to_hex-hex_to_bytes (codes "aBfF") 2 refl (refl, (refl, (refl, (refl, tt))))

normalise_short :
    let text = map standard_char (codes "-_0aB") ++ padding 5 in
    (normalise_base64 false (codes "-_0aB") ≡ some (text, 10))
    × (length text % 4 ≡ 0)
    × (length text < 10)
normalise_short = normalise_base64_lem false (codes "-_0aB")

-- A decoder that gives back what it reads.
abbrev echo : Bytes → Option Bytes
echo text = some text

spellings_run :
    let whole = codes "+/0aB" ++ padding 5 in
    (base64_decode echo true whole ≡ some whole)
    × (base64_decode echo true (codes "+/0aB") ≡ some whole)
    × (base64_decode echo true (map url_char whole) ≡ some whole)
    × (base64_decode echo true (map url_char (codes "+/0aB")) ≡ some whole)
spellings_run = base64_decode_spellings echo true (codes "+/0aB") (ground arith)
