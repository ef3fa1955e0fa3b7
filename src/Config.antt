-- ===== src/Config.antt =====
-- common/config.c and config.h: the client's configuration, its defaults, the INI-like file and the
-- checks on it. A `char[N]` field is the C string in it; `strncpy(field, val, N - 1)` keeps at most
-- N - 1 bytes, and the last byte of each array stays NUL from the `memset` of the defaults.
pub mod Number
pub mod Checks
pub mod Bounds
pub mod Lines
pub mod Load
mod Tests
use mathlib.Core.Option
use mathlib.Core.List.{reverse}
use sync_clipboard.Prelude.{
  Bool, Bytes, Option, [], codes, false, if◌then◌else◌, length, none, not, same, some, suc, take,
  true, zero, ℕ, ◌&&◌, ◌-◌, ◌==◌, ◌||◌, ◌∷◌,
}
use sync_clipboard.Prelude.Int.{ℤ, pos, ltb_ℤ}
use sync_clipboard.Config.Number.{atoi}
use sync_clipboard.Codec.{is_xdigit}
use sync_clipboard.Wire.{c_string}

pub record ClientConfig : Type 0 where
  pub server_host : Bytes
  pub server_port : ℤ
  pub server_path : Bytes
  pub server_key : Bytes
  pub username : Bytes
  pub password : Bytes
  pub aes_key : Bytes
  pub device_id : Bytes
  pub file_transfer_level : ℤ
  pub max_transfer_size : ℤ
  pub use_tls : ℤ
  pub ca_cert_path : Bytes
  pub skip_tls_verify : ℤ
  pub log_level : ℤ
  pub max_log_size_mb : ℤ

abbrev pub max_url_len : ℕ
max_url_len = 256

abbrev pub max_key_len : ℕ
max_key_len = 256

abbrev pub max_user_len : ℕ
max_user_len = 128

abbrev pub max_pass_len : ℕ
max_pass_len = 128

abbrev pub max_path_len : ℕ
max_path_len = 512

-- `config_set_defaults`
abbrev pub defaults : ClientConfig
defaults = record {
  server_host = [];
  server_port = pos 8080;
  server_path = codes "/ws/v2/clipboard";
  server_key = [];
  username = [];
  password = [];
  aes_key = [];
  device_id = [];
  file_transfer_level = pos 3;
  max_transfer_size = pos 500;
  use_tls = pos 0;
  ca_cert_path = [];
  skip_tls_verify = pos 0;
  log_level = pos 1;
  max_log_size_mb = pos 10;
}

-- A byte that `trim` takes off the front, and one that it takes off the end.
abbrev pub is_blank : ℕ → Bool
is_blank c = c == b' ' || c == b'\t'

abbrev pub is_end_blank : ℕ → Bool
is_end_blank c = c == b' ' || c == b'\t' || c == b'\n' || c == b'\r'

unfoldable pub skip_while : (ℕ → Bool) → Bytes → Bytes
skip_while p [] = []
skip_while p (c ∷ cs) = let rest = skip_while p cs in if p c then rest else c ∷ cs

-- `trim`: the second loop runs from the last byte down.
unfoldable pub trim : Bytes → Bytes
unfolding skip_while
trim s = reverse (skip_while is_end_blank (reverse (skip_while is_blank s)))

unfoldable pub all_hex : Bytes → Bool
unfolding is_xdigit
all_hex [] = true
all_hex (c ∷ cs) = is_xdigit c && all_hex cs

-- `is_hex`
unfoldable pub is_hex : Bytes → ℕ → Bool
unfolding all_hex
is_hex s expected_len = length s == expected_len && all_hex s

-- The keys that `config_load` knows.
pub data Key : Type 0 where
  server_host server_port server_path server_key username password aes_key device_id : Key
  file_transfer_level max_transfer_size use_tls ca_cert_path skip_tls_verify : Key
  log_level max_log_size_mb : Key

-- The chain of `strcmp(key, ...) == 0`.
unfoldable pub key_of : Bytes → Option Key
unfolding same
key_of key =
    if same key (codes "server_host")
    then some server_host
    else if same key (codes "server_port")
    then some server_port
    else if same key (codes "server_path")
    then some server_path
    else if same key (codes "server_key")
    then some server_key
    else if same key (codes "username")
    then some username
    else if same key (codes "password")
    then some password
    else if same key (codes "aes_key")
    then some aes_key
    else if same key (codes "device_id")
    then some device_id
    else if same key (codes "file_transfer_level")
    then some file_transfer_level
    else if same key (codes "max_transfer_size")
    then some max_transfer_size
    else if same key (codes "use_tls")
    then some use_tls
    else if same key (codes "ca_cert_path")
    then some ca_cert_path
    else if same key (codes "skip_tls_verify")
    then some skip_tls_verify
    else if same key (codes "log_level")
    then some log_level
    else if same key (codes "max_log_size_mb")
    then some max_log_size_mb
    else none

-- What each branch of the chain does with `val`.
unfoldable pub assign : Key → Bytes → ClientConfig → ClientConfig
unfolding atoi
assign server_host val cfg = record cfg { server_host = take (max_url_len - 1) val }
assign server_port val cfg = record cfg { server_port = atoi val }
assign server_path val cfg = record cfg { server_path = take (max_url_len - 1) val }
assign server_key val cfg = record cfg { server_key = take (max_key_len - 1) val }
assign username val cfg = record cfg { username = take (max_user_len - 1) val }
assign password val cfg = record cfg { password = take (max_pass_len - 1) val }
assign aes_key val cfg = record cfg { aes_key = take (max_key_len - 1) val }
assign device_id val cfg = record cfg { device_id = take (max_user_len - 1) val }
assign file_transfer_level val cfg = record cfg { file_transfer_level = atoi val }
assign max_transfer_size val cfg = record cfg { max_transfer_size = atoi val }
assign use_tls val cfg = record cfg { use_tls = atoi val }
assign ca_cert_path val cfg = record cfg { ca_cert_path = take (max_path_len - 1) val }
assign skip_tls_verify val cfg = record cfg { skip_tls_verify = atoi val }
assign log_level val cfg = record cfg { log_level = atoi val }
assign max_log_size_mb val cfg = record cfg { max_log_size_mb = atoi val }

-- `strchr(line, '=')`: what stands before and behind the first one.
unfoldable pub split_eq : Bytes → Option (Bytes × Bytes)
split_eq [] = none
split_eq (c ∷ cs) =
    let rest = Option.map (λ kv. (c ∷ kv.0, kv.1)) (split_eq cs) in
    if c == b'=' then some ([], cs) else rest

unfoldable pub assign_text : Bytes → Bytes → ClientConfig → ClientConfig
unfolding key_of assign
assign_text key val cfg = elim (key_of key) [ none ↦ cfg | some k ↦ assign k val cfg ]

unfoldable pub load_pair : Option (Bytes × Bytes) → ClientConfig → ClientConfig
unfolding trim assign_text
load_pair none cfg = cfg
load_pair (some (key, val)) cfg = assign_text (trim key) (trim val) cfg

-- The body of the `while` loop, on the C string in `line`.
unfoldable pub load_line : Bytes → ClientConfig → ClientConfig
unfolding split_eq load_pair
load_line [] cfg = cfg
load_line (c ∷ cs) cfg =
    if c == b'#' || c == b'\n' || c == b'\r' then cfg else load_pair (split_eq (c ∷ cs)) cfg

-- `fgets`: the next line with its newline, or the next `room` bytes, and what is left of the file.
unfoldable pub read_line : ℕ → Bytes → Bytes × Bytes
read_line zero file = ([], file)
read_line (suc room) [] = ([], [])
read_line (suc room) (c ∷ cs) =
    let (line, rest) = read_line room cs in if c == b'\n' then (c ∷ [], cs) else (c ∷ line, rest)

abbrev pub line_room : ℕ
line_room = 1024 - 1

-- The `while (fgets(...))` loop; each round takes at least one byte, so `length file` rounds are
-- enough.
unfoldable pub load_lines : ℕ → Bytes → ClientConfig → ClientConfig
unfolding read_line load_line
load_lines zero file cfg = cfg
load_lines (suc fuel) [] cfg = cfg
load_lines (suc fuel) (c ∷ cs) cfg =
    let next = read_line line_room (c ∷ cs) in
    load_lines fuel next.1 (load_line (c_string next.0) cfg)

abbrev pub is_empty : Bytes → Bool
is_empty [] = true
is_empty (c ∷ cs) = false

-- The validation: `true` if `fatal` stays 0.
unfoldable pub check_config : ClientConfig → Bool
unfolding is_hex
check_config cfg =
    not (is_empty cfg.server_host)
    && not (ltb_ℤ cfg.server_port (pos 1) || ltb_ℤ (pos 65535) cfg.server_port)
    && not (is_empty cfg.server_key)
    && not (is_empty cfg.username)
    && not (is_empty cfg.password)
    && (not (is_empty cfg.aes_key) && is_hex cfg.aes_key 64)
    && not (is_empty cfg.device_id)

-- `config_load` on the contents of the file, `none` if it cannot be opened: if it returns 0, and the
-- configuration that it leaves in `*cfg`.
unfoldable pub config_load : Option Bytes → Bool × ClientConfig
unfolding load_lines check_config
config_load none = (false, defaults)
config_load (some file) =
    let cfg = load_lines (length file) file defaults in (check_config cfg, cfg)
