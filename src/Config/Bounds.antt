-- ===== src/Config/Bounds.antt =====
-- The arrays of a `ClientConfig` always hold their strings and the NUL behind them.
use sync_clipboard.Prelude.{
  Bool-cases, Bytes, Option, Option-cases, [], arith, inl, inr, length, length-take, none, some,
  suc, zero, ℕ, ◌<◌, ◌==◌, ◌||◌, ◌∷◌,
}
use sync_clipboard.Config.{
  ClientConfig, Key, assign, assign_text, config_load, defaults, key_of, line_room, load_line,
  load_lines, load_pair, max_key_len, max_pass_len, max_path_len, max_url_len, max_user_len,
  read_line, split_eq, trim,
}
use sync_clipboard.Wire.{c_string}

abbrev pub Fits : ClientConfig → Type 0
Fits cfg =
    (length cfg.server_host < max_url_len)
    × (length cfg.server_path < max_url_len)
    × (length cfg.server_key < max_key_len)
    × (length cfg.username < max_user_len)
    × (length cfg.password < max_pass_len)
    × (length cfg.aes_key < max_key_len)
    × (length cfg.device_id < max_user_len)
    × (length cfg.ca_cert_path < max_path_len)

pub assign-Fits : (k : Key) (val : Bytes) (cfg : ClientConfig) → Fits cfg → Fits (assign k val cfg)
unfolding assign
assign-Fits Key.server_host val cfg f = omega (arith, length-take 255 val)
assign-Fits Key.server_port val cfg f = f
assign-Fits Key.server_path val cfg f = omega (arith, length-take 255 val)
assign-Fits Key.server_key val cfg f = omega (arith, length-take 255 val)
assign-Fits Key.username val cfg f = omega (arith, length-take 127 val)
assign-Fits Key.password val cfg f = omega (arith, length-take 127 val)
assign-Fits Key.aes_key val cfg f = omega (arith, length-take 255 val)
assign-Fits Key.device_id val cfg f = omega (arith, length-take 127 val)
assign-Fits Key.file_transfer_level val cfg f = f
assign-Fits Key.max_transfer_size val cfg f = f
assign-Fits Key.use_tls val cfg f = f
assign-Fits Key.ca_cert_path val cfg f = omega (arith, length-take 511 val)
assign-Fits Key.skip_tls_verify val cfg f = f
assign-Fits Key.log_level val cfg f = f
assign-Fits Key.max_log_size_mb val cfg f = f

load_pair-Fits :
    (pair : Option (Bytes × Bytes)) (cfg : ClientConfig) → Fits cfg → Fits (load_pair pair cfg)
unfolding load_pair
load_pair-Fits none cfg f = f
load_pair-Fits (some (key, val)) cfg f = elim (Option-cases (key_of (trim key))) [
  | inl e ↦ rw (e, assign_text) f
  | inr (k, e) ↦ rw (e, assign_text) (assign-Fits k (trim val) cfg f)
]

load_line-Fits : (line : Bytes) (cfg : ClientConfig) → Fits cfg → Fits (load_line line cfg)
unfolding load_line
load_line-Fits [] cfg f = f
load_line-Fits (c ∷ cs) cfg f = elim (Bool-cases (c == b'#' || c == b'\n' || c == b'\r')) [
  | inl e ↦ rw (e, load_line) f
  | inr e ↦ rw (e, load_line) (load_pair-Fits (split_eq (c ∷ cs)) cfg f)
]

load_lines-Fits :
    (fuel : ℕ) (text : Bytes) (cfg : ClientConfig) → Fits cfg → Fits (load_lines fuel text cfg)
unfolding load_lines
load_lines-Fits zero text cfg f = f
load_lines-Fits (suc fuel) [] cfg f = f
load_lines-Fits (suc fuel) (c ∷ cs) cfg f =
    let next : Bytes × Bytes = read_line line_room (c ∷ cs) in
    load_lines-Fits fuel next.1 (load_line (c_string next.0) cfg)
      (load_line-Fits (c_string next.0) cfg f)

-- Whatever the file holds, and if it cannot be opened too, every string that `config_load` leaves in
-- the configuration is shorter than its array.
pub config_load-Fits : (contents : Option Bytes) → Fits (config_load contents).1
unfolding config_load
config_load-Fits none = omega arith
config_load-Fits (some contents) = load_lines-Fits (length contents) contents defaults (omega arith)
