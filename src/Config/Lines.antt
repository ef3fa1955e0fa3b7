-- ===== src/Config/Lines.antt =====
-- What `config_load` reads from a file of well-formed lines.
use mathlib.Core.List.{reverse, reverse-append, reverse-cons, reverse-reverse}
use sync_clipboard.Prelude.{
  All, All-append, Bool, Bytes, List, [], ap, codes, false, if◌then◌else◌, length, refl, same, sym,
  take, true, ℕ, ◌++◌, ◌<◌, ◌∙◌, ◌∷◌, ◌≡◌, ◌≢◌,
}
use sync_clipboard.Config.{
  ClientConfig, Key, assign, assign_text, is_blank, is_end_blank, key_of, line_room, load_line,
  load_pair, skip_while, split_eq, trim,
}
use sync_clipboard.Config.Number.{atoi}

-- The text of a key.
abbrev pub name_of : Key → Bytes
name_of Key.server_host = codes "server_host"
name_of Key.server_port = codes "server_port"
name_of Key.server_path = codes "server_path"
name_of Key.server_key = codes "server_key"
name_of Key.username = codes "username"
name_of Key.password = codes "password"
name_of Key.aes_key = codes "aes_key"
name_of Key.device_id = codes "device_id"
name_of Key.file_transfer_level = codes "file_transfer_level"
name_of Key.max_transfer_size = codes "max_transfer_size"
name_of Key.use_tls = codes "use_tls"
name_of Key.ca_cert_path = codes "ca_cert_path"
name_of Key.skip_tls_verify = codes "skip_tls_verify"
name_of Key.log_level = codes "log_level"
name_of Key.max_log_size_mb = codes "max_log_size_mb"

-- A line of a file: a setting, with the white space that may stand around its value, or a comment.
pub data Line : Type 0 where
  setting : Key → (lead val tail : Bytes) → Line
  comment : Bytes → Line

-- The line without its newline.
abbrev pub text_of : Line → Bytes
text_of (setting k lead val tail) = name_of k ++ b'=' ∷ (lead ++ (val ++ tail))
text_of (comment text) = b'#' ∷ text

abbrev pub render : List Line → Bytes
render [] = []
render (l ∷ ls) = text_of l ++ b'\n' ∷ render ls

-- The value that the last line with a name gives, or else what is there without it.
unfoldable pub said {ℓ} : {A : Type ℓ} → Bytes → (Bytes → A) → A → List Line → A
unfolding same
said name read value [] = value
said name read value (comment text ∷ ls) = said name read value ls
said name read value (setting k lead val tail ∷ ls) =
    said name read (if same (name_of k) name then read val else value) ls

-- Each field as the lines say it: a string cut so that it and its NUL fit the array, or a number.
unfoldable pub described : List Line → ClientConfig → ClientConfig
unfolding said
described ls cfg = record {
  server_host = said (codes "server_host") (take 255) cfg.server_host ls;
  server_port = said (codes "server_port") atoi cfg.server_port ls;
  server_path = said (codes "server_path") (take 255) cfg.server_path ls;
  server_key = said (codes "server_key") (take 255) cfg.server_key ls;
  username = said (codes "username") (take 127) cfg.username ls;
  password = said (codes "password") (take 127) cfg.password ls;
  aes_key = said (codes "aes_key") (take 255) cfg.aes_key ls;
  device_id = said (codes "device_id") (take 127) cfg.device_id ls;
  file_transfer_level = said (codes "file_transfer_level") atoi cfg.file_transfer_level ls;
  max_transfer_size = said (codes "max_transfer_size") atoi cfg.max_transfer_size ls;
  use_tls = said (codes "use_tls") atoi cfg.use_tls ls;
  ca_cert_path = said (codes "ca_cert_path") (take 511) cfg.ca_cert_path ls;
  skip_tls_verify = said (codes "skip_tls_verify") atoi cfg.skip_tls_verify ls;
  log_level = said (codes "log_level") atoi cfg.log_level ls;
  max_log_size_mb = said (codes "max_log_size_mb") atoi cfg.max_log_size_mb ls;
}

-- The lines as the branches of `config_load` take them.
abbrev pub apply_lines : List Line → ClientConfig → ClientConfig
apply_lines [] cfg = cfg
apply_lines (setting k lead val tail ∷ ls) cfg = apply_lines ls (assign k val cfg)
apply_lines (comment text ∷ ls) cfg = apply_lines ls cfg

-- A value that `trim` leaves alone: its first and its last byte are there and are no white space.
pub record IsTidy (val : Bytes) : Type 0 where
  pub first : ℕ
  pub others : Bytes
  pub starts : val ≡ first ∷ others
  pub first_seen : is_blank first ≡ false
  pub last : ℕ
  pub before : Bytes
  pub ends : reverse val ≡ last ∷ before
  pub last_seen : is_end_blank last ≡ false

-- A line that `fgets` takes in one piece and that C sees whole.
pub record IsClean (l : Line) : Type 0 where
  pub room : length (text_of l) < line_room
  pub bytes : All (λ c. (c ≢ 0) × (c ≢ b'\n')) (text_of l)

abbrev pub IsGood : Line → Type 0
IsGood (setting k lead val tail) =
    IsClean (setting k lead val tail)
    × All (λ c. is_blank c ≡ true) lead
    × IsTidy val
    × All (λ c. is_end_blank c ≡ true) tail
IsGood (comment text) = IsClean (comment text)

skip_while-append :
    (p : ℕ → Bool) (xs ys : Bytes)
    → All (λ c. p c ≡ true) xs
    → skip_while p (xs ++ ys) ≡ skip_while p ys
unfolding skip_while
skip_while-append p [] ys h = refl
skip_while-append p (x ∷ xs) ys (e, h) = rw e (skip_while-append p xs ys h)

skip_while-stop : (p : ℕ → Bool) (x : ℕ) (xs : Bytes) → p x ≡ false → skip_while p (x ∷ xs) ≡ x ∷ xs
unfolding skip_while
skip_while-stop p x xs e = rw e refl

All-reverse :
    (p : ℕ → Bool) (xs : Bytes) → All (λ c. p c ≡ true) xs → All (λ c. p c ≡ true) (reverse xs)
All-reverse p [] h = tt
All-reverse p (x ∷ xs) (e, h) =
    rw (reverse-cons x xs)
      (All-append (λ c. p c ≡ true) (reverse xs) (x ∷ []) (All-reverse p xs h) (e, tt))

pub trim-tidy :
    (lead val tail : Bytes)
    → All (λ c. is_blank c ≡ true) lead
    → IsTidy val
    → All (λ c. is_end_blank c ≡ true) tail
    → trim (lead ++ (val ++ tail)) ≡ val
unfolding trim
trim-tidy lead val tail h v t =
    let front : skip_while is_blank (lead ++ (val ++ tail)) ≡ val ++ tail =
      skip_while-append is_blank lead (val ++ tail) h
      ∙ ap (λ s. skip_while is_blank (s ++ tail)) v.starts
      ∙ skip_while-stop is_blank v.first (v.others ++ tail) v.first_seen
      ∙ ap (λ s. s ++ tail) (sym v.starts) in
    let back : skip_while is_end_blank (reverse (val ++ tail)) ≡ reverse val =
      ap (skip_while is_end_blank) (reverse-append val tail)
      ∙ skip_while-append is_end_blank (reverse tail) (reverse val)
          (All-reverse is_end_blank tail t)
      ∙ ap (skip_while is_end_blank) v.ends
      ∙ skip_while-stop is_end_blank v.last v.before v.last_seen
      ∙ sym v.ends in
    ap (λ s. reverse (skip_while is_end_blank (reverse s))) front
    ∙ ap reverse back
    ∙ reverse-reverse val

pub load_line-name :
    (k : Key) (text : Bytes) (cfg : ClientConfig)
    → load_line (name_of k ++ b'=' ∷ text) cfg ≡ assign k (trim text) cfg
unfolding load_line split_eq load_pair assign_text key_of trim
load_line-name Key.server_host text cfg = refl
load_line-name Key.server_port text cfg = refl
load_line-name Key.server_path text cfg = refl
load_line-name Key.server_key text cfg = refl
load_line-name Key.username text cfg = refl
load_line-name Key.password text cfg = refl
load_line-name Key.aes_key text cfg = refl
load_line-name Key.device_id text cfg = refl
load_line-name Key.file_transfer_level text cfg = refl
load_line-name Key.max_transfer_size text cfg = refl
load_line-name Key.use_tls text cfg = refl
load_line-name Key.ca_cert_path text cfg = refl
load_line-name Key.skip_tls_verify text cfg = refl
load_line-name Key.log_level text cfg = refl
load_line-name Key.max_log_size_mb text cfg = refl
