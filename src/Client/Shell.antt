-- ===== src/Client/Shell.antt =====
-- linux/main.c: the clipboard through xclip and wl-clipboard. A backend runs a command in a shell and
-- reads what it prints or writes its input; the command is what `snprintf` leaves in `cmd[256]`.
-- `read` stands for `g_clip_ops.read_type`.
pub mod Path
pub mod Command
use Prim.Native.String.{String}
use mathlib.Core.Option
use sync_clipboard.Client.Uri.{url_decode}
use sync_clipboard.Prelude.{
  Bool, Bytes, List, Option, [], behind, behind_last, codes, contains, cut_at, drop, false,
  if◌then◌else◌, leb, maybe, none, same, some, starts_with, take, true, ℕ, ◌&&◌, ◌++◌, ◌+◌, ◌==◌,
  ◌||◌, ◌∷◌,
}
use sync_clipboard.Wire.{c_string}

-- A command and what is written to it.
pub record Piped : Type 0 where
  pub command : Bytes
  pub input : Bytes

abbrev pub allowed : List Bytes
allowed =
    codes "image/png"
    ∷ codes "image/jpeg"
    ∷ codes "image/bmp"
    ∷ codes "image/gif"
    ∷ codes "image/webp"
    ∷ codes "text/uri-list"
    ∷ codes "x-special/gnome-copied-files"
    ∷ codes "TARGETS"
    ∷ []

unfoldable pub is_listed : Bytes → List Bytes → Bool
unfolding same
is_listed mime [] = false
is_listed mime (a ∷ rest) = same mime a || is_listed mime rest

unfoldable pub is_safe_mime : Bytes → Bool
is_safe_mime mime = is_listed mime allowed

abbrev pub printed : String → Bytes → String → Bytes
printed before s after = take 255 (codes before ++ (s ++ codes after))

-- The command of `xclip_clipboard_read_type`, and that of `wl_clipboard_read_type`.
unfoldable pub xclip_read_type : Bytes → Option Bytes
xclip_read_type mime =
    if is_safe_mime mime
    then some (printed "xclip -selection clipboard -t " mime " -o 2>/dev/null")
    else none

unfoldable pub wl_read_type : Bytes → Option Bytes
wl_read_type mime =
    if is_safe_mime mime then some (printed "wl-paste --type " mime " 2>/dev/null") else none

unfoldable pub xclip_set_text : Bytes → List Piped
xclip_set_text text =
    record { command = codes "xclip -selection clipboard -i 2>/dev/null"; input = text }
    ∷ record { command = codes "xclip -selection primary -i 2>/dev/null"; input = text }
    ∷ []

unfoldable pub wl_set_text : Bytes → List Piped
wl_set_text text = record { command = codes "wl-copy 2>/dev/null"; input = text } ∷ []

-- `if (!mime || !mime[0]) mime = "image/png";`
unfoldable pub or_png : Option Bytes → Bytes
or_png none = codes "image/png"
or_png (some []) = codes "image/png"
or_png (some (c ∷ mime)) = c ∷ mime

abbrev pub is_bmp : Bytes → Bool
is_bmp (b ∷ m ∷ x ∷ rest) = b == b'B' && m == b'M'
is_bmp _ = false

-- The bytes and the type after the conversion of a bitmap, which `bmp_to_png_buf` may refuse.
unfoldable pub converted : (Bytes → Option Bytes) → Bytes → Bytes → Bytes × Bytes
unfolding same
converted bmp_to_png bytes mime =
    let png : Bytes × Bytes =
      maybe (bmp_to_png bytes) ((bytes, mime)) (λ out. (out, codes "image/png")) in
    if same mime (codes "image/bmp") && is_bmp bytes then png else (bytes, mime)

unfoldable pub xclip_set_image : (Bytes → Option Bytes) → Bytes → Option Bytes → Piped
unfolding converted or_png
xclip_set_image bmp_to_png bytes mime =
    let image = converted bmp_to_png bytes (or_png mime) in
    record {
      command = printed "xclip -selection clipboard -t " image.1 " -i 2>/dev/null";
      input = image.0;
    }

unfoldable pub wl_set_image : (Bytes → Option Bytes) → Bytes → Option Bytes → Piped
unfolding converted or_png
wl_set_image bmp_to_png bytes mime =
    let image = converted bmp_to_png bytes (or_png mime) in
    record { command = printed "wl-copy --type " image.1 " 2>/dev/null"; input = image.0 }

unfoldable pub xclip_set_file : Bytes → Piped
xclip_set_file path = record {
  command = codes "xclip -selection clipboard -t x-special/gnome-copied-files -i 2>/dev/null";
  input = codes "copy\nfile://" ++ path;
}

unfoldable pub wl_set_file : Bytes → Piped
wl_set_file path = record {
  command = codes "wl-copy --type x-special/gnome-copied-files 2>/dev/null";
  input = codes "copy\n" ++ path;
}

unfoldable pub clipboard_has_image : Bytes → Bool
unfolding contains
clipboard_has_image types =
    contains (codes "image/png") types || contains (codes "image/jpeg") types

unfoldable pub clipboard_has_file : Bytes → Bool
unfolding contains
clipboard_has_file types =
    contains (codes "text/uri-list") types || contains (codes "x-special/gnome-copied-files") types

unfoldable pub clipboard_get_image : (Bytes → Option Bytes) → Option (Bytes × Bytes)
clipboard_get_image read =
    maybe (read (codes "image/png"))
      (Option.map (λ img. (img, codes "image/jpeg")) (read (codes "image/jpeg")))
      (λ img. some (img, codes "image/png"))

-- The path in a line: cut at its end, after the scheme, decoded.
unfoldable pub path_of : Bytes → Option Bytes
unfolding cut_at url_decode
path_of s =
    let line = cut_at b'\r' (cut_at b'\n' s) in
    if starts_with (codes "file://") line then some (url_decode (drop 7 line)) else none

-- The path behind the first line of the second type.
unfoldable pub copied_path : Bytes → Option Bytes
unfolding path_of behind
copied_path s = maybe (behind b'\n' s) none (λ line. path_of line)

-- `read_type` puts no NUL behind the bytes, so that the string goes on with what the memory holds behind
-- them, which the second argument gives.
unfoldable pub clipboard_get_file_uri : (Bytes → Option Bytes) → (Bytes → Bytes) → Option Bytes
unfolding path_of copied_path
clipboard_get_file_uri read after =
    let second : Option Bytes =
      maybe (read (codes "x-special/gnome-copied-files")) none
        (λ bytes. copied_path (c_string (bytes ++ after bytes))) in
    maybe (read (codes "text/uri-list")) second
      (λ bytes. maybe (path_of (c_string (bytes ++ after bytes))) second (λ path. some path))

-- `tolower` of a byte, and `strcasecmp(a, b) == 0`.
abbrev pub lower : ℕ → ℕ
lower c = if leb b'A' c && leb c b'Z' then c + 32 else c

unfoldable pub same_case : Bytes → Bytes → Bool
same_case [] [] = true
same_case (x ∷ a) (y ∷ b) = lower x == lower y && same_case a b
same_case _ _ = false

unfoldable pub mime_from_extension : Bytes → Bytes
unfolding behind_last same_case
mime_from_extension filename =
    maybe (behind_last b'.' filename) (codes "application/octet-stream") (λ ext.
      if same_case ext (codes "png")
      then codes "image/png"
      else if same_case ext (codes "jpg") || same_case ext (codes "jpeg")
      then codes "image/jpeg"
      else if same_case ext (codes "gif")
      then codes "image/gif"
      else if same_case ext (codes "webp")
      then codes "image/webp"
      else if same_case ext (codes "bmp")
      then codes "image/bmp"
      else if same_case ext (codes "pdf")
      then codes "application/pdf"
      else if same_case ext (codes "txt")
      then codes "text/plain"
      else codes "application/octet-stream")
