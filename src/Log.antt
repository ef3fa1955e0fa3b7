-- ===== src/Log.antt =====
-- common/log.c: the log file and its rotation. A disk gives the bytes under a path. Time and the
-- formatting of a message are parameters; what `fprintf` and `fflush` write is taken to reach the disk.
pub mod Files
pub mod Size
pub mod Kept
mod Tests
use sync_clipboard.Prelude.Int.{ℤ, pos, negsuc, ltb_ℤ}
use sync_clipboard.Prelude.{
  Bool, Bytes, List, Option, [], codes, false, if◌then◌else◌, length, ltb, maybe, none, not, same,
  some, suc, take, true, zero, ℕ, ◌*◌, ◌++◌, ◌==◌, ◌||◌, ◌∷◌,
}

abbrev pub Disk : Type 0
Disk = Bytes → Option Bytes

-- The bytes under one path are set, or the file is gone.
unfoldable pub put_file : Bytes → Option Bytes → Disk → Disk
unfolding same
put_file path content disk p = if same p path then content else disk p

abbrev pub content : Option Bytes → Bytes
content o = maybe o [] (λ bytes. bytes)

-- The variables of log.c, the disk, what went to `stderr`, and all that was written to log files.
pub record Log : Type 0 where
  pub level : ℤ
  pub is_open : Bool
  pub path : Bytes
  pub max_bytes : ℕ
  pub disk : Disk
  pub stderr : Bytes
  pub history : Bytes

-- How the calls of a rotation end: `ftell`, `remove`, `rename` and `fopen`.
pub record Answers : Type 0 where
  pub tells : Bool
  pub removes : Bool
  pub renames : Bool
  pub opens : Bool

unfoldable pub level_name : ℤ → Bytes
level_name (pos zero) = codes "DEBUG"
level_name (pos (suc zero)) = codes "INFO "
level_name (pos (suc (suc zero))) = codes "WARN "
level_name (pos (suc (suc (suc zero)))) = codes "ERROR"
level_name level = codes "?    "

unfoldable pub sc_log_set_level : ℤ → Log → Log
sc_log_set_level level l = record l { level = level }

-- `fopen(g_path, "a")`, which makes a file where there is none.
unfoldable pub reopen : Bool → Log → Log
unfolding put_file
reopen opens l =
    let made = some (content (l.disk l.path)) in
    if opens
    then record l { is_open = true; disk = put_file l.path made l.disk }
    else record l { is_open = false }

-- The limit is `max_mb` megabytes, if that is positive.
abbrev pub new_limit : ℤ → ℕ → ℕ
new_limit (pos n) old = if ltb 0 n then n * 1024 * 1024 else old
new_limit (negsuc n) old = old

-- The result is 0 or -1.
unfoldable pub sc_log_set_file : Bool → Option Bytes → ℤ → Log → ℤ × Log
unfolding reopen
sc_log_set_file opens path max_mb l =
    let closed = record l { is_open = false } in
    let off : ℤ × Log = (pos 0, record closed { path = [] }) in
    maybe path off (λ p.
      let named = record closed { path = take 511 p; max_bytes = new_limit max_mb l.max_bytes } in
      let answer = if opens then pos 0 else negsuc 0 in
      if length p == 0 then off else (answer, reopen opens named))

unfoldable pub sc_log_close : Log → Log
sc_log_close l = record l { is_open = false }

unfoldable pub rotated_path : Bytes → Bytes
rotated_path path = take 599 (path ++ codes ".1")

-- `remove(rotated); rename(g_path, rotated);`
unfoldable pub shift_files : Answers → Bytes → Disk → Disk
unfolding put_file rotated_path
shift_files a path disk =
    let old = rotated_path path in
    let cleared = if a.removes then put_file old none disk else disk in
    let moved = put_file path none (put_file old (cleared path) cleared) in
    if a.renames then moved else cleared

unfoldable pub rotate_if_needed : Answers → Log → Log
unfolding shift_files reopen
rotate_if_needed a l =
    let shifted = reopen a.opens (record l { disk = shift_files a l.path l.disk }) in
    if not l.is_open || length l.path == 0
    then l
    else if not a.tells
    then l
    else if ltb (length (content (l.disk l.path))) l.max_bytes
    then l
    else shifted

-- `fprintf(..., "%s %s %s\n", ts, level_name(level), buf)`
abbrev pub log_line : Bytes → ℤ → Bytes → Bytes
log_line ts level text =
    take 31 ts ++ b' ' ∷ (level_name level ++ b' ' ∷ (take 2047 text ++ b'\n' ∷ []))

unfoldable pub write_line : Bytes → Log → Log
unfolding put_file
write_line line l = record l {
  disk = put_file l.path (some (content (l.disk l.path) ++ line)) l.disk;
  history = l.history ++ line;
}

unfoldable pub sc_log_msg : Answers → Bytes → ℤ → Bytes → Log → Log
unfolding rotate_if_needed write_line
sc_log_msg a ts level text l =
    let line = log_line ts level text in
    let written = rotate_if_needed a (write_line line l) in
    if ltb_ℤ level l.level
    then l
    else if l.is_open
    then written
    else record l { stderr = l.stderr ++ line }

-- A message that is logged: what its rotation meets, the time, the level and the text.
pub record Entry : Type 0 where
  pub answers : Answers
  pub time : Bytes
  pub severity : ℤ
  pub text : Bytes

unfoldable pub log_all : List Entry → Log → Log
unfolding sc_log_msg
log_all [] l = l
log_all (e ∷ entries) l = log_all entries (sc_log_msg e.answers e.time e.severity e.text l)
