-- ===== src/Config/Load.antt =====
-- The loop over the lines, and what `config_load` makes of a file.
use sync_clipboard.Prelude.{
  All, All-append, Bytes, List, [], ap, append_assoc, arith, false, length, length-append, refl,
  same, some, suc, true, zero, ℕ, ◌++◌, ◌<◌, ◌==◌, ◌∙◌, ◌∷◌, ◌≡◌, ◌≢◌, ◌≤◌,
}
use sync_clipboard.Config.{
  ClientConfig, Key, assign, config_load, defaults, is_end_blank, line_room, load_line, load_lines,
  read_line,
}
use sync_clipboard.Config.Lines.{
  IsClean, IsGood, Line, apply_lines, comment, described, load_line-name, name_of, render, said,
  setting, text_of, trim-tidy,
}
use sync_clipboard.Wire.{c_string}

read_line-newline :
    (room : ℕ) (text rest : Bytes)
    → All (λ c. (c ≢ 0) × (c ≢ b'\n')) text
    → length text < room
    → read_line room (text ++ b'\n' ∷ rest) ≡ (text ++ b'\n' ∷ [], rest)
unfolding read_line
read_line-newline zero text rest h lt = absurd (omega arith)
read_line-newline (suc room) [] rest h lt = refl
read_line-newline (suc room) (c ∷ cs) rest ((nz, nl), h) lt =
    let other : (c == b'\n') ≡ false = ground arith in
    rw (other, read_line-newline room cs rest h (omega arith)) refl

c_string-line :
    (text : Bytes)
    → All (λ c. (c ≢ 0) × (c ≢ b'\n')) text
    → c_string (text ++ b'\n' ∷ []) ≡ text ++ b'\n' ∷ []
c_string-line [] h = refl
c_string-line (c ∷ cs) ((nz, nl), h) =
    let other : (c == 0) ≡ false = ground arith in rw (other, c_string-line cs h) refl

-- One round of the loop takes one line.
load_lines-line :
    (fuel : ℕ) (text rest : Bytes) (cfg : ClientConfig)
    → 0 < length text
    → All (λ c. (c ≢ 0) × (c ≢ b'\n')) text
    → length text < line_room
    → load_lines (suc fuel) (text ++ b'\n' ∷ rest) cfg
      ≡ load_lines fuel rest (load_line (text ++ b'\n' ∷ []) cfg)
unfolding load_lines
load_lines-line fuel [] rest cfg pos h lt = absurd (omega arith)
load_lines-line fuel (c ∷ cs) rest cfg pos h lt =
    rw (read_line-newline line_room (c ∷ cs) rest h lt, c_string-line (c ∷ cs) h, load_lines) refl

load_line-render :
    (l : Line) (cfg : ClientConfig)
    → IsGood l
    → load_line (text_of l ++ b'\n' ∷ []) cfg ≡ apply_lines (l ∷ []) cfg
load_line-render (comment text) cfg h = unfold load_line in refl
load_line-render (setting k lead val tail) cfg (clean, blank, tidy, after) =
    ap (λ t. load_line t cfg)
      (append_assoc (name_of k) (b'=' ∷ (lead ++ (val ++ tail))) (b'\n' ∷ [])
        ∙ ap (λ t. name_of k ++ b'=' ∷ t)
            (append_assoc lead (val ++ tail) (b'\n' ∷ [])
              ∙ ap (◌++◌ lead) (append_assoc val tail (b'\n' ∷ []))))
    ∙ load_line-name k (lead ++ (val ++ (tail ++ b'\n' ∷ []))) cfg
    ∙ ap (λ v. assign k v cfg)
        (trim-tidy lead val (tail ++ b'\n' ∷ []) blank tidy
          (All-append (λ c. is_end_blank c ≡ true) tail (b'\n' ∷ []) after (refl, tt)))

text_of-pos : (l : Line) → 0 < length (text_of l)
text_of-pos (comment text) = omega arith
text_of-pos (setting k lead val tail) =
    omega (arith, length-append (name_of k) (b'=' ∷ (lead ++ (val ++ tail))))

IsGood-IsClean : (l : Line) → IsGood l → IsClean l
IsGood-IsClean (comment text) h = h
IsGood-IsClean (setting k lead val tail) h = h.0

apply_lines-cons :
    (l : Line) (ls : List Line) (cfg : ClientConfig)
    → apply_lines ls (apply_lines (l ∷ []) cfg) ≡ apply_lines (l ∷ ls) cfg
apply_lines-cons (comment text) ls cfg = refl
apply_lines-cons (setting k lead val tail) ls cfg = refl

load_lines-render :
    (ls : List Line) (fuel : ℕ) (cfg : ClientConfig)
    → All IsGood ls
    → length (render ls) ≤ fuel
    → load_lines fuel (render ls) cfg ≡ apply_lines ls cfg
load_lines-render [] zero cfg h le = unfold load_lines in refl
load_lines-render [] (suc fuel) cfg h le = unfold load_lines in refl
load_lines-render (l ∷ ls) zero cfg h le =
    absurd (omega (arith, length-append (text_of l) (b'\n' ∷ render ls)))
load_lines-render (l ∷ ls) (suc fuel) cfg (h, hs) le =
    load_lines-line fuel (text_of l) (render ls) cfg (text_of-pos l) (IsGood-IsClean l h).bytes
      (IsGood-IsClean l h).room
    ∙ ap (load_lines fuel (render ls)) (load_line-render l cfg h)
    ∙ load_lines-render ls fuel (apply_lines (l ∷ []) cfg) hs
        (omega (arith, length-append (text_of l) (b'\n' ∷ render ls), text_of-pos l))
    ∙ apply_lines-cons l ls cfg

described-assign :
    (k : Key) (lead val tail : Bytes) (ls : List Line) (cfg : ClientConfig)
    → described ls (assign k val cfg) ≡ described (setting k lead val tail ∷ ls) cfg
unfolding described said same assign
described-assign Key.server_host lead val tail ls cfg = refl
described-assign Key.server_port lead val tail ls cfg = refl
described-assign Key.server_path lead val tail ls cfg = refl
described-assign Key.server_key lead val tail ls cfg = refl
described-assign Key.username lead val tail ls cfg = refl
described-assign Key.password lead val tail ls cfg = refl
described-assign Key.aes_key lead val tail ls cfg = refl
described-assign Key.device_id lead val tail ls cfg = refl
described-assign Key.file_transfer_level lead val tail ls cfg = refl
described-assign Key.max_transfer_size lead val tail ls cfg = refl
described-assign Key.use_tls lead val tail ls cfg = refl
described-assign Key.ca_cert_path lead val tail ls cfg = refl
described-assign Key.skip_tls_verify lead val tail ls cfg = refl
described-assign Key.log_level lead val tail ls cfg = refl
described-assign Key.max_log_size_mb lead val tail ls cfg = refl

apply_lines-described :
    (ls : List Line) (cfg : ClientConfig) → apply_lines ls cfg ≡ described ls cfg
unfolding described said
apply_lines-described [] cfg = refl
apply_lines-described (comment text ∷ ls) cfg = apply_lines-described ls cfg
apply_lines-described (setting k lead val tail ∷ ls) cfg =
    apply_lines-described ls (assign k val cfg) ∙ described-assign k lead val tail ls cfg

-- For a file of settings and comments, `config_load` leaves in each field the value of the last setting
-- with the field's name, a string cut to the array of the field, a number as `atoi` reads it, and the
-- default where there is none. White space around a value does not count, and each line stands alone, if
-- it has less than 1023 characters, none of them NUL; a value is not empty.
pub config_load-render :
    (ls : List Line) → All IsGood ls → (config_load (some (render ls))).1 ≡ described ls defaults
unfolding config_load
config_load-render ls h =
    load_lines-render ls (length (render ls)) defaults h (omega arith)
    ∙ apply_lines-described ls defaults
