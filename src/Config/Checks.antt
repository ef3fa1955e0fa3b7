-- ===== src/Config/Checks.antt =====
-- Which configurations the validation at the end of `config_load` lets through.
use sync_clipboard.Prelude.{
  &&-eq-true, ==_iff, All, Bool, Bytes, [], arith, false, length, none, not, refl, some, true, ◌&&◌,
  ◌==◌, ◌||◌, ◌↔◌, ◌∷◌, ◌≡◌, ◌≢◌,
}
use sync_clipboard.Prelude.Int.{ℤ, pos, ltb_ℤ, ◌≤ℤ◌}
use sync_clipboard.Codec.{hex_to_bytes, is_xdigit}
use sync_clipboard.Config.{ClientConfig, all_hex, check_config, config_load, is_empty, is_hex}
use sync_clipboard.Auth.{compute_hmac}
use sync_clipboard.Auth.Handshake.{GivesMac, compute_hmac-done}
use sync_clipboard.Codec.Hex.{bytes_to_hex-hex_to_bytes}

-- What a client needs to run.
pub record IsUsable (cfg : ClientConfig) : Type 0 where
  pub server_host : cfg.server_host ≢ []
  pub port_pos : pos 1 ≤ℤ cfg.server_port
  pub port_le : cfg.server_port ≤ℤ pos 65535
  pub server_key : cfg.server_key ≢ []
  pub username : cfg.username ≢ []
  pub password : cfg.password ≢ []
  pub key_length : length cfg.aes_key ≡ 64
  pub key_hex : All (λ c. is_xdigit c ≡ true) cfg.aes_key
  pub device_id : cfg.device_id ≢ []

is_empty_iff : (s : Bytes) → (not (is_empty s) ≡ true) ↔ (s ≢ [])
is_empty_iff [] = (λ e. cc, λ h. absurd (h refl))
is_empty_iff (c ∷ cs) = (λ e f. cc, λ h. refl)

all_hex_iff : (s : Bytes) → (all_hex s ≡ true) ↔ All (λ c. is_xdigit c ≡ true) s
unfolding all_hex
all_hex_iff [] = (λ e. tt, λ h. refl)
all_hex_iff (c ∷ cs) = (
  λ e. let (x, xs) = &&-eq-true (is_xdigit c) (all_hex cs) e in (x, (all_hex_iff cs).0 xs),
  λ (x, xs). rw (x, (all_hex_iff cs).1 xs) refl,
)

port_iff :
    (p : ℤ)
    → (not (ltb_ℤ p (pos 1) || ltb_ℤ (pos 65535) p) ≡ true) ↔ ((pos 1 ≤ℤ p) × (p ≤ℤ pos 65535))
port_iff p = ground arith

-- The seven conditions.
conditions_iff :
    (a b c d e f g h : Bool)
    → ((a && b && c && d && e && (f && g) && h) ≡ true) ↔ (
        (a ≡ true)
        × (b ≡ true)
        × (c ≡ true)
        × (d ≡ true)
        × (e ≡ true)
        × (f ≡ true)
        × (g ≡ true)
        × (h ≡ true))
conditions_iff a b c d e f g h = ground arith

is_hex_iff :
    (s : Bytes) → (is_hex s 64 ≡ true) ↔ ((length s ≡ 64) × All (λ c. is_xdigit c ≡ true) s)
unfolding is_hex
is_hex_iff s = (
  λ e.
      let (l, h) = &&-eq-true (length s == 64) (all_hex s) e in
      ((==_iff _ _).0 l, (all_hex_iff s).0 h),
  λ (l, h). rw ((==_iff (length s) 64).1 l, (all_hex_iff s).1 h) refl,
)

check_config_iff : (cfg : ClientConfig) → (check_config cfg ≡ true) ↔ IsUsable cfg
unfolding check_config
check_config_iff cfg = (
  λ e.
      let (host, port, key, user, pass, some_aes, hex, device) = all_of.0 e in
      record {
        server_host = (is_empty_iff _).0 host;
        port_pos = ((port_iff _).0 port).0;
        port_le = ((port_iff _).0 port).1;
        server_key = (is_empty_iff _).0 key;
        username = (is_empty_iff _).0 user;
        password = (is_empty_iff _).0 pass;
        key_length = ((is_hex_iff _).0 hex).0;
        key_hex = ((is_hex_iff _).0 hex).1;
        device_id = (is_empty_iff _).0 device;
      },
  λ u. all_of.1 (
    (is_empty_iff _).1 u.server_host,
    (port_iff _).1 (u.port_pos, u.port_le),
    (is_empty_iff _).1 u.server_key,
    (is_empty_iff _).1 u.username,
    (is_empty_iff _).1 u.password,
    (is_empty_iff _).1 (not_nil cfg.aes_key u.key_length),
    (is_hex_iff _).1 (u.key_length, u.key_hex),
    (is_empty_iff _).1 u.device_id,
  ),
)
  where
    not_nil : (s : Bytes) → length s ≡ 64 → s ≢ []
    not_nil [] l = absurd (omega arith)
    not_nil (c ∷ cs) l = λ e. cc

    all_of : (check_config cfg ≡ true) ↔ (
        (not (is_empty cfg.server_host) ≡ true)
        × (not (ltb_ℤ cfg.server_port (pos 1) || ltb_ℤ (pos 65535) cfg.server_port) ≡ true)
        × (not (is_empty cfg.server_key) ≡ true)
        × (not (is_empty cfg.username) ≡ true)
        × (not (is_empty cfg.password) ≡ true)
        × (not (is_empty cfg.aes_key) ≡ true)
        × (is_hex cfg.aes_key 64 ≡ true)
        × (not (is_empty cfg.device_id) ≡ true))
    all_of =
        conditions_iff (not (is_empty cfg.server_host))
          (not (ltb_ℤ cfg.server_port (pos 1) || ltb_ℤ (pos 65535) cfg.server_port))
          (not (is_empty cfg.server_key)) (not (is_empty cfg.username))
          (not (is_empty cfg.password)) (not (is_empty cfg.aes_key)) (is_hex cfg.aes_key 64)
          (not (is_empty cfg.device_id))

-- `config_load` returns 0 exactly if the configuration that it leaves has a server host, a port from
-- 1 to 65535, a server key, a user name, a password, an AES key of 64 hexadecimal digits and a device
-- id; and never if the file cannot be opened.
pub config_load-IsUsable :
    (file : Bytes)
    → let loaded = config_load (some file) in
      ((loaded.0 ≡ true) ↔ IsUsable loaded.1) × ((config_load none).0 ≡ false)
unfolding config_load
config_load-IsUsable file = (check_config_iff _, refl)

-- After `config_load` has returned 0, the AES key always decodes to 32 bytes, and the key of every
-- handshake can be computed from it, whatever the file id.
pub config_load-compute_hmac :
    (hmac : Bytes → Bytes → Bytes) (contents file_id : Bytes)
    → GivesMac hmac
    → (config_load (some contents)).0 ≡ true
    → let cfg = (config_load (some contents)).1 in
      ((key : Bytes) × (hex_to_bytes cfg.aes_key 32 ≡ some key) × (length key ≡ 32))
      × ((mac : Bytes) × (compute_hmac hmac file_id cfg.aes_key ≡ some mac) × (length mac ≡ 32))
config_load-compute_hmac hmac contents file_id gives e =
    let u : IsUsable (config_load (some contents)).1 = (config_load-IsUsable contents).0.0 e in
    let (key, found, size, small, back) =
      bytes_to_hex-hex_to_bytes (config_load (some contents)).1.aes_key 32 u.key_length u.key_hex in
    (
      (key, found, size),
      compute_hmac-done hmac file_id (config_load (some contents)).1.aes_key gives
          (u.key_length, u.key_hex),
    )
