-- ===== src/Log/Tests.antt =====
-- Runs of the log, and the witnesses of its theorems.
use sync_clipboard.Prelude.Int.{ℤ, pos, negsuc}
use sync_clipboard.Log.{
  Answers, Entry, Log, content, level_name, log_all, put_file, reopen, rotate_if_needed,
  rotated_path, sc_log_msg, sc_log_set_file, shift_files, write_line,
}
use sync_clipboard.Log.Kept.{KeepsEnd, kept, log_all-KeepsEnd}
use sync_clipboard.Log.Size.{InLimit, log_all-InLimit}
use sync_clipboard.Prelude.{
  List, [], arith, codes, false, if◌then◌else◌, maybe, none, refl, same, some, true, ◌++◌, ◌∷◌, ◌≡◌,
}

abbrev all_well : Answers
all_well = record { tells = true; removes = true; renames = true; opens = true }

abbrev start_log : Log
start_log = record {
  level = pos 1;
  is_open = true;
  path = codes "l";
  max_bytes = 20;
  disk = λ p. if same p (codes "l") then some [] else none;
  stderr = [];
  history = [];
}

abbrev entry : ℤ → Entry
entry level = record {
  answers = all_well;
  time = codes "12:00:00";
  severity = level;
  text = codes "hello";
}

-- The message of level DEBUG is dropped; the others pass the limit, and the file is renamed.
abbrev entries : List Entry
entries = entry (pos 0) ∷ entry (pos 2) ∷ entry (pos 3) ∷ []

run :
    (content ((log_all entries start_log).disk (codes "l")) ≡ [])
    × (content ((log_all entries start_log).disk (codes "l.1"))
        ≡ codes "12:00:00 ERROR hello" ++ 10 ∷ [])
unfolding log_all sc_log_msg write_line rotate_if_needed shift_files reopen put_file rotated_path
    level_name same maybe
run = (refl, refl)

-- A name and a limit of no megabytes leave the old limit; without a name the log is closed.
set_run :
    ((sc_log_set_file true (some (codes "m")) (pos 0) start_log).1.max_bytes ≡ 20)
    × ((sc_log_set_file true (some (codes "m")) (pos 2) start_log).1.max_bytes ≡ 2097152)
    × ((sc_log_set_file false (some (codes "m")) (pos 2) start_log).0 ≡ negsuc 0)
    × ((sc_log_set_file true none (pos 2) start_log).1.is_open ≡ false)
unfolding sc_log_set_file reopen put_file same maybe
set_run = (refl, refl, refl, refl)

log_all-KeepsEnd_example : KeepsEnd (log_all entries start_log)
unfolding KeepsEnd kept rotated_path same maybe
log_all-KeepsEnd_example = log_all-KeepsEnd entries start_log (omega arith) ([], refl)

log_all-InLimit_example : InLimit (log_all entries start_log)
unfolding InLimit rotated_path same maybe
log_all-InLimit_example =
    log_all-InLimit entries start_log ((refl, refl), ((refl, refl), ((refl, refl), tt)))
      (omega arith) (omega arith) refl (omega arith, omega arith)
