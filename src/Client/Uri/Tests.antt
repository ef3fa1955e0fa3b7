-- ===== src/Client/Uri/Tests.antt =====
-- Runs of the decoding, and the witnesses of its theorems.
use sync_clipboard.Prelude.{[], arith, codes, length, refl, ◌++◌, ◌∷◌, ◌≡◌, ◌≤◌}
use sync_clipboard.Codec.{hex_value, is_xdigit}
use sync_clipboard.Client.Uri.{url_decode}
use sync_clipboard.Client.Uri.Decode.{
  Encodes, escaped, length-url_decode, nothing, plain, url_decode-Encodes,
}

-- A lone percent sign stays; one digit is enough for `sscanf`, and three characters go.
url_decode_odd :
    (url_decode (codes "50% x") ≡ codes "50% x")
    × (url_decode (codes "a%4zb") ≡ codes "a" ++ 4 ∷ codes "b")
unfolding url_decode
url_decode_odd = (refl, refl)

spaced-Encodes : Encodes (codes "a%20%c3") (b'a' ∷ 32 ∷ 195 ∷ [])
unfolding is_xdigit hex_value
spaced-Encodes =
    plain b'a' (λ e. omega arith)
      (escaped b'2' b'0' refl refl (escaped b'c' b'3' refl refl nothing))

decode_run : url_decode (codes "a%20%c3") ≡ b'a' ∷ 32 ∷ 195 ∷ []
decode_run = url_decode-Encodes (codes "a%20%c3") (b'a' ∷ 32 ∷ 195 ∷ []) spaced-Encodes

length-spaced : length (url_decode (codes "a%20%c3")) ≤ 7
length-spaced = length-url_decode (codes "a%20%c3")
