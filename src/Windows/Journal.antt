-- ===== src/Windows/Journal.antt =====
-- windows/main.c: the log of the Windows client. Log has the disk and the calls of a rotation, which are
-- those of common/log.c; the older path is that of Log as long as neither path is cut to MAX_PATH. `long`
-- has 32 bits on Windows; a product that overflows is taken to wrap.
use sync_clipboard.Prelude.Int.{ℤ, pos, negsuc, ltb_ℤ, leb_ℤ, signed32}
use sync_clipboard.Config.{ClientConfig}
use sync_clipboard.Log.{Answers, reopen, content, shift_files, Log, write_line}
use sync_clipboard.Prelude.{
  Bool, if◌then◌else◌, ℕ, ◌||◌, [], not, zero, ◌%◌, ◌^◌, Bytes, ◌∷◌, suc, ◌&&◌, ◌*◌, ◌++◌, codes,
  List, length,
}
pub mod Kept
mod Tests

-- The variables behind `log_write`, with `log.max_bytes` left unused, and what went to the console.
pub record Journal : Type 0 where
  pub log : Log
  pub inited : Bool
  pub limit : ℤ
  pub to_console : Bool
  pub stdout : Bytes

-- `log_rotate`, of a file that is open.
unfoldable pub log_rotate : Answers → Log → Log
unfolding shift_files reopen
log_rotate a l =
    let shifted = reopen a.opens (record l { disk = shift_files a l.path l.disk }) in
    if l.is_open then shifted else l

-- `tags[level < 4 ? level : 3]`; the macros pass 0 to 3.
unfoldable pub level_tag : ℕ → Bytes
level_tag zero = codes "DBG"
level_tag (suc zero) = codes "INF"
level_tag (suc (suc zero)) = codes "WRN"
level_tag n = codes "ERR"

-- The time, the tag and the message.
abbrev pub journal_line : Bytes → ℕ → Bytes → Bytes
journal_line stamp level message =
    stamp ++ codes " [" ++ level_tag level ++ codes "] " ++ message ++ b'\n' ∷ []

-- `ftell` gives the size, as the file is open for appending.
unfoldable pub log_write : Answers → Bytes → ℕ → Bytes → Journal → Journal
unfolding write_line log_rotate
log_write a stamp level message j =
    let line = journal_line stamp level message in
    let written = write_line line j.log in
    let is_over = ltb_ℤ j.limit (pos (length (content (written.disk written.path)))) in
    let after : Log =
      if j.log.is_open then if is_over then log_rotate a written else written else j.log in
    let shown = if j.to_console then j.stdout ++ line else j.stdout in
    if ltb_ℤ (pos level) j.log.level || not j.inited
    then j
    else record j { log = after; stdout = shown }

abbrev pub megabytes_long : ℤ → ℤ
megabytes_long (pos n) = signed32 (n * 1024 * 1024 % 2 ^ 32)
megabytes_long (negsuc n) = negsuc n

unfoldable pub log_apply_config : ClientConfig → Journal → Journal
log_apply_config cfg j =
    let in_range = leb_ℤ (pos 0) cfg.log_level && leb_ℤ cfg.log_level (pos 3) in
    record j {
      log = if in_range then record j.log { level = cfg.log_level } else j.log;
      limit =
          if ltb_ℤ (pos 0) cfg.max_log_size_mb then megabytes_long cfg.max_log_size_mb else j.limit;
    }

-- What a call of `log_write` is given, and how the calls of its rotation end.
pub record Remark : Type 0 where
  pub answers : Answers
  pub stamp : Bytes
  pub level : ℕ
  pub message : Bytes

unfoldable pub journal_all : List Remark → Journal → Journal
unfolding log_write
journal_all [] j = j
journal_all (r ∷ remarks) j = journal_all remarks (log_write r.answers r.stamp r.level r.message j)
