-- ===== src/Client/Shell/Path.antt =====
-- linux/main.c: a file that the client put on the clipboard, read back by the client.
use sync_clipboard.Client.Shell.{clipboard_get_file_uri, copied_path, path_of, wl_set_file}
use sync_clipboard.Prelude.{
  All, Bytes, Option, [], ap, behind, codes, cut_at, false, maybe, none, refl, some, starts_with,
  ◌++◌, ◌==◌, ◌∷◌, ◌≡◌,
}
use sync_clipboard.Wire.{c_string}

-- A path without the bytes that end a line or a string.
abbrev pub IsLine : Bytes → Type 0
IsLine path = All (λ b. (b == 0 ≡ false) × (b == b'\n' ≡ false) × (b == b'\r' ≡ false)) path

-- A line ends where the string does, at the end of a line, or before a carriage return.
abbrev pub line_of : Bytes → Bytes
line_of m = cut_at b'\r' (cut_at b'\n' (c_string m))

c_string_line : (path m : Bytes) → IsLine path → c_string (path ++ m) ≡ path ++ c_string m
c_string_line [] m h = refl
c_string_line (b ∷ path) m ((z, n, r), h) = rw z (ap (◌∷◌ b) (c_string_line path m h))

cut_at_line :
    (path m : Bytes)
    → IsLine path
    → (cut_at b'\n' (path ++ m) ≡ path ++ cut_at b'\n' m)
      × (cut_at b'\r' (path ++ m) ≡ path ++ cut_at b'\r' m)
unfolding cut_at
cut_at_line [] m h = (refl, refl)
cut_at_line (b ∷ path) m ((z, n, r), h) =
    let (p, q) = cut_at_line path m h in (rw n (ap (◌∷◌ b) p), rw r (ap (◌∷◌ b) q))

module _ (read : Bytes → Option Bytes) (after : Bytes → Bytes) (path : Bytes) where
  wl_set_file_unread :
      starts_with (codes "file://") (path ++ line_of (after (wl_set_file path).input)) ≡ false
      → IsLine path
      → copied_path (c_string ((wl_set_file path).input ++ after (wl_set_file path).input)) ≡ none
  unfolding wl_set_file copied_path behind maybe path_of
  wl_set_file_unread f h =
      let m = after (wl_set_file path).input in
      let (p, _) = cut_at_line path (c_string m) h in
      let (_, q) = cut_at_line path (cut_at b'\n' (c_string m)) h in
      rw (c_string_line path m h, p, q, f) refl

  -- The same path put on the clipboard through wl-copy is not read back as a file: `wl_set_file` writes
  -- no "file://" before it, which `clipboard_get_file_uri` asks for.
  pub clipboard_get_file_uri-wl_set_file :
      starts_with (codes "file://") (path ++ line_of (after (wl_set_file path).input)) ≡ false
      → IsLine path
      → read (codes "text/uri-list") ≡ none
      → read (codes "x-special/gnome-copied-files") ≡ some (wl_set_file path).input
      → clipboard_get_file_uri read after ≡ none
  unfolding clipboard_get_file_uri maybe
  clipboard_get_file_uri-wl_set_file f h no_list has = rw (no_list, has) (wl_set_file_unread f h)
