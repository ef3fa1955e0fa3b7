-- ===== src/Windows/Desk.antt =====
-- windows/main.c: what the threads of the Windows client share. Its `TransferState` and its variables
-- are those of the Linux client, but for three: the suppression is a flag, there is a hash of the last
-- file, and nothing is sent from a path, so `source_path` stays empty and `suppress_until` 0.

use sync_clipboard.Client.State.{text_set, image_set, file_set, put, Env, Client, fresh}
use sync_clipboard.Prelude.{
  Bool, Bytes, codes, [], true, maybe, ◌++◌, starts_with, take, if◌then◌else◌, ◌∷◌, false,
}
use sync_clipboard.Windows.Board.{Stb, dib_of}

pub record Desk : Type 0 where
  pub client : Client
  pub suppress_next : Bool
  pub file_hash : Bytes

-- The variables as the program starts with them.
abbrev pub fresh_desk : Desk
fresh_desk = record { client = fresh; suppress_next = false; file_hash = [] }

-- What Windows gives a call: what any system gives, if the clipboard can be opened and its memory be
-- had, the directory of temporary files, and UTF-8 text in the clipboard's form.
pub record Desktop : Type 0 where
  pub base : Env
  pub opens : Bool
  pub temp_dir : Bytes
  pub to_wide : Bytes → Bytes

abbrev pub suppress : Desk → Desk
suppress d = record d { suppress_next = true }

abbrev pub with_client : Client → Desk → Desk
with_client c d = record d { client = c }

unfoldable pub clipboard_set : Desktop → Bytes → Client → Client
clipboard_set w text c = if w.opens then put (text_set (w.to_wide text)) c else c

unfoldable pub clipboard_set_image : Stb → Desktop → Bytes → Client → Client
unfolding dib_of
clipboard_set_image stb w image c =
    maybe (dib_of stb w.base.memory image) c
      (λ dib. if w.opens then put (image_set dib (codes "CF_DIB")) c else c)

unfoldable pub clipboard_set_file_path : Desktop → Bytes → Client → Client
clipboard_set_file_path w path c = if w.opens then put (file_set path) c else c

-- `snprintf(tmp_path, MAX_PATH, "%ssyncclip_%s", tmp_dir, filename)`
abbrev pub temp_path : Desktop → Bytes → Bytes
temp_path w filename = take 259 (w.temp_dir ++ codes "syncclip_" ++ filename)

unfoldable pub clipboard_set_file : Desktop → Bytes → Bytes → Client → Client
unfolding clipboard_set_file_path
clipboard_set_file w bytes filename c =
    let path = temp_path w filename in
    let written = record c { files = c.files ++ (path, bytes) ∷ [] } in
    let shown = clipboard_set_file_path w path written in if w.base.can_write then shown else c

-- Bytes that came in, as an image or as a file.
unfoldable pub place_bytes : Stb → Desktop → Bytes → Bytes → Bytes → Client → Client
unfolding clipboard_set_image clipboard_set_file
place_bytes stb w mime filename bytes c =
    let image = clipboard_set_image stb w bytes c in
    let file = clipboard_set_file w bytes filename c in
    if starts_with (codes "image/") mime then image else file
