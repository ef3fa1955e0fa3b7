-- ===== src/Config/Tests.antt =====
-- Two small files, and the witnesses of the theorems.
use sync_clipboard.Prelude.{
  All, Bytes, List, [], arith, codes, false, length, length-replicate, none, refl, replicate, some,
  true, ◌++◌, ◌↔◌, ◌∷◌, ◌≡◌,
}
use sync_clipboard.Config.{Key, config_load, defaults}
use sync_clipboard.Auth.{compute_hmac}
use sync_clipboard.Codec.{hex_to_bytes}
use sync_clipboard.Config.Bounds.{Fits, config_load-Fits}
use sync_clipboard.Config.Checks.{IsUsable, config_load-IsUsable, config_load-compute_hmac}
use sync_clipboard.Config.Lines.{IsGood, Line, comment, described, render, setting}
use sync_clipboard.Config.Load.{config_load-render}

-- `host = h` with white space, and a comment.
abbrev lines : List Line
lines =
    comment (codes " here")
    ∷ setting Key.server_host (codes " ") (codes "host") (codes " ")
    ∷ setting Key.server_port [] (codes "9") []
    ∷ []

lines-IsGood : All IsGood lines
lines-IsGood = (
  record { room = omega arith; bytes = ground arith },
  (
    (
      record { room = omega arith; bytes = ground arith },
      (refl, tt),
      record {
        first = b'h';
        others = codes "ost";
        starts = refl;
        first_seen = refl;
        last = b't';
        before = codes "soh";
        ends = refl;
        last_seen = refl;
      },
      (refl, tt),
    ),
    (
      (
        record { room = omega arith; bytes = ground arith },
        tt,
        record {
          first = b'9';
          others = [];
          starts = refl;
          first_seen = refl;
          last = b'9';
          before = [];
          ends = refl;
          last_seen = refl;
        },
        tt,
      ),
      tt,
    ),
  ),
)

config_load-render_example : (config_load (some (render lines))).1 ≡ described lines defaults
config_load-render_example = config_load-render lines lines-IsGood

config_load-Fits_example : Fits (config_load (some (render lines))).1
config_load-Fits_example = config_load-Fits (some (render lines))

checked_run :
    let loaded = config_load (some (render lines)) in
    ((loaded.0 ≡ true) ↔ IsUsable loaded.1) × ((config_load none).0 ≡ false)
checked_run = config_load-IsUsable (render lines)

abbrev digits16 : Bytes
digits16 = codes "00112233aabbCCDD"

abbrev whole : Bytes
whole =
    codes "server_host=h\nserver_key=k\nusername=u\npassword=p\ndevice_id=d\naes_key="
    ++ (digits16 ++ (digits16 ++ (digits16 ++ digits16)))

abbrev toy_mac : Bytes → Bytes → Bytes
toy_mac key text = replicate 32 (length key)

whole_is_usable : (config_load (some whole)).0 ≡ true
unfolding config_load
whole_is_usable = refl

key_run :
    let cfg = (config_load (some whole)).1 in
    ((key : Bytes) × (hex_to_bytes cfg.aes_key 32 ≡ some key) × (length key ≡ 32))
    × ((mac : Bytes) × (compute_hmac toy_mac (codes "id") cfg.aes_key ≡ some mac)
        × (length mac ≡ 32))
key_run =
    config_load-compute_hmac toy_mac whole (codes "id")
      (λ key text. length-replicate 32 (length key)) whole_is_usable
