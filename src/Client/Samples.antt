-- ===== src/Client/Samples.antt =====
-- Libraries, a configuration and messages for the runs of the client's tests.
use sync_clipboard.Prelude.Int.{pos}
use sync_clipboard.Client.Handlers.{Json}
use sync_clipboard.Client.Monitor.{Look}
use sync_clipboard.Client.State.{Env, Libs}
use sync_clipboard.Client.Thread.{Fetch}
use sync_clipboard.Prelude.{
  Bytes, List, Option, [], codes, false, if◌then◌else◌, none, replicate, same, some, true, ◌∷◌,
}

-- A cipher that is the identity, behind the sixteen bytes of the IV.
abbrev pub sample_libs : Libs
sample_libs = record {
  ssl = record {
    gcm_seal = λ key nonce text n. some (text, replicate 16 0);
    gcm_open = λ key nonce ct tag. none;
    bio_write = λ bytes n. some bytes;
    bio_read = λ text. none;
  };
  cbc = record {
    seal = λ key iv text n. some text;
    unseal = λ key iv ct. some ct;
    write_text = λ bytes n. some bytes;
    read_text = λ text. some text;
  };
  coder = record { encode = λ bytes n. bytes; decode = λ text n. some text };
  digest = λ bytes. bytes;
}

abbrev pub sample_env : Env
sample_env = record {
  now = 1000;
  memory = true;
  thread = true;
  garbage = 0;
  nonce = some (replicate 12 0);
  block = 7;
  uuid = codes "u1";
  server = some 5;
  port = 4000;
  addresses = λ port. codes "10.0.0.2:4000" ∷ [];
  can_write = true;
}

-- The string under a key of a table.
abbrev pub lookup : List (Bytes × Bytes) → Bytes → Option Bytes
lookup [] key = none
lookup ((k, v) ∷ table) key = let rest = lookup table key in if same k key then some v else rest

abbrev pub json_of : List (Bytes × Bytes) → Json
json_of table = record {
  text = lookup table;
  present = λ key. false;
  number_int = λ key. pos 0;
  number_long = λ key. pos 0;
  number_u64 = λ key. 9;
  is_true = λ key. true;
  array = λ key. some (some (codes "10.0.0.3:9") ∷ []);
}

-- What the monitor sees: a text and nothing else.
abbrev pub text_look : Bytes → Look
text_look clip = record {
  types = codes "UTF8_STRING";
  read = λ mime. none;
  text = some clip;
  stat = λ path. none;
  after = λ bytes. 0 ∷ [];
  hash_file = λ path. none;
  stack = [];
  active_after = 0;
  utf8 = some clip;
  latin = none;
}

abbrev pub notify : Json
notify = json_of (
    (codes "type", codes "file_notify")
    ∷ (codes "fileId", codes "f1")
    ∷ (codes "fileName", codes "a.txt")
    ∷ [])

abbrev pub peer_info : Json
peer_info = json_of ((codes "type", codes "file_peer_info") ∷ (codes "fileId", codes "f1") ∷ [])

abbrev pub fetch : Fetch
fetch = record {
  sock = some 6;
  size = some 9;
  hash = some (codes "h");
  image = none;
  t0 = 0;
  t_conn = 10;
  t_done = 30;
  t_end = 40;
}
