-- ===== src/Client/Uri.antt =====
-- linux/main.c: `url_decode_inplace`, which undoes the percent encoding of a file URI.
pub mod Decode
mod Tests
use sync_clipboard.Prelude.{Bytes, [], if◌then◌else◌, none, some, ◌%◌, ◌==◌, ◌^◌, ◌∷◌}
use sync_clipboard.Codec.{scan_hex2}

-- The bytes that `dst` gets while `src` runs over the text. `sscanf` with "%2x" reads from behind the
-- percent sign, and `src` moves on by 3 whatever it has read.
unfoldable pub url_decode : Bytes → Bytes
unfolding scan_hex2
url_decode [] = []
url_decode (c ∷ []) = c ∷ []
url_decode (c ∷ d ∷ []) = c ∷ url_decode (d ∷ [])
url_decode (c ∷ d ∷ e ∷ rest) =
    let plain : Bytes = c ∷ url_decode (d ∷ e ∷ rest) in
    let behind = url_decode rest in
    let escaped : Bytes = elim (scan_hex2 (d ∷ e ∷ rest)) [
      | none ↦ plain
      | some byte ↦ byte % 2 ^ 8 ∷ behind
    ] in
    if c == b'%' then escaped else plain
