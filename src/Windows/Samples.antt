-- ===== src/Windows/Samples.antt =====
-- A desktop and a picture for the runs of the Windows client.

use sync_clipboard.Client.Samples.{sample_env}
use sync_clipboard.Client.State.{fresh}
use sync_clipboard.Prelude.{Bytes, [], codes, false, none, some, true, ◌∷◌}
use sync_clipboard.Windows.Desk.{Desk, Desktop, fresh_desk}
use sync_clipboard.Windows.Monitor.{View}
use sync_clipboard.Windows.Board.{Stb, Pixels}

abbrev pub desktop : Desktop
desktop = record {
  base = sample_env;
  opens = true;
  temp_dir = codes "C:\\Temp\\";
  to_wide = λ text. text;
}

-- Two rows of one pixel.
abbrev pub picture : Pixels
picture = record { width = 1; height = 2; rgba = 10 ∷ 20 ∷ 30 ∷ 255 ∷ 40 ∷ 50 ∷ 60 ∷ 128 ∷ [] }

abbrev pub sample_stb : Stb
sample_stb = record { load = λ bytes. some picture; write_png = λ p. p.rgba ∷ codes "END" ∷ [] }

-- What is seen: a text and nothing else.
abbrev pub text_view : Bytes → View
text_view clip = record {
  has_image = false;
  dib = none;
  has_drop = false;
  path = none;
  regular = λ path. true;
  size = λ path. none;
  hash_file = λ path. none;
  stack = [];
  read_file = λ path n. none;
  active_after = 0;
  text = some clip;
}

-- A bitmap whose header is cut short, and a file of two bytes.
abbrev pub image_view : View
image_view = record (text_view []) { has_image = true; dib = some (40 ∷ 0 ∷ 0 ∷ 0 ∷ []) }

abbrev pub file_view : View
file_view = record (text_view []) {
  has_drop = true;
  path = some (codes "C:\\docs\\a.PDF");
  size = λ path. some 2;
  hash_file = λ path. some (codes "h");
  read_file = λ path n. some (7 ∷ 8 ∷ []);
}

abbrev pub logged_desk : Desk
logged_desk = record fresh_desk { client = record fresh { logged_in = true } }
