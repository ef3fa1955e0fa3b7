-- ===== src/Windows/Journal/Tests.antt =====
-- Runs of the log of the Windows client.
use sync_clipboard.Prelude.Int.{pos, negsuc}
use sync_clipboard.Config.{defaults}
use sync_clipboard.Log.{Answers, reopen, content, shift_files, write_line, rotated_path, put_file}
use sync_clipboard.Log.Kept.{kept, KeepsEnd}
use sync_clipboard.Prelude.{
  false, true, if◌then◌else◌, ℕ, [], none, same, refl, arith, ◌∷◌, ◌≡◌, some, maybe, codes,
}
use sync_clipboard.Windows.Journal.{
  level_tag, Journal, log_apply_config, journal_all, log_write, log_rotate, Remark,
}
use sync_clipboard.Windows.Journal.Kept.{journal_all-KeepsEnd}

abbrev fine : Answers
fine = record { tells = true; removes = true; renames = true; opens = true }

abbrev at_start : Journal
at_start = record {
  log = record {
    level = pos 1;
    is_open = true;
    path = codes "l";
    max_bytes = 0;
    disk = λ p. if same p (codes "l") then some [] else none;
    stderr = [];
    history = [];
  };
  inited = true;
  limit = pos 20;
  to_console = false;
  stdout = [];
}

abbrev remark : ℕ → Remark
remark level = record {
  answers = fine;
  stamp = codes "12:00:00.000";
  level = level;
  message = codes "hello";
}

-- The message of level DEBUG is dropped; the other passes the limit, and the file is renamed.
journal_all_run :
    let after = (journal_all (remark 0 ∷ remark 1 ∷ []) at_start).log in
    (content (after.disk (codes "l")) ≡ [])
    × (content (after.disk (codes "l.1")) ≡ codes "12:00:00.000 [INF] hello\n")
unfolding journal_all log_write write_line log_rotate shift_files reopen put_file rotated_path
    level_tag same maybe
journal_all_run = (refl, refl)

-- 2048 megabytes are no `long` of 32 bits: the limit is negative, and each message rotates the files.
log_apply_config-overflow :
    (log_apply_config (record defaults { max_log_size_mb = pos 2048 }) at_start).limit
    ≡ negsuc 2147483647
unfolding log_apply_config
log_apply_config-overflow = refl

journal_all-KeepsEnd_run : KeepsEnd (journal_all (remark 0 ∷ remark 1 ∷ []) at_start).log
unfolding KeepsEnd kept same maybe rotated_path
journal_all-KeepsEnd_run =
    journal_all-KeepsEnd (remark 0 ∷ remark 1 ∷ []) at_start (omega arith) ([], refl)
