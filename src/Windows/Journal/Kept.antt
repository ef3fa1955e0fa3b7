-- ===== src/Windows/Journal/Kept.antt =====
-- windows/main.c: what the log of the Windows client keeps.
use sync_clipboard.Prelude.Int.{pos, ltb_ℤ}
use sync_clipboard.Log.{Answers, reopen, content, shift_files, Log, write_line}
use sync_clipboard.Log.Kept.{reopen-KeepsEnd, shift-KeepsEnd, KeepsEnd, write-KeepsEnd}
use sync_clipboard.Prelude.{
  ◌||◌, [], not, if-both, ap, Bytes, refl, arith, ◌∷◌, ◌≤◌, ◌≡◌, List, length,
}
use sync_clipboard.Windows.Journal.{
  Journal, journal_line, journal_all, log_write, log_rotate, Remark,
}

-- The files are the end of what was written, and lie where they did.
abbrev pub StillKeeps : Bytes → Log → Type 0
StillKeeps path l = KeepsEnd l × (l.path ≡ path)

rotate-StillKeeps :
    (a : Answers) (l : Log) → length l.path ≤ 511 → KeepsEnd l → StillKeeps l.path (log_rotate a l)
unfolding log_rotate reopen
rotate-StillKeeps a l short end =
    let P = StillKeeps l.path in
    let moved : Log = record l { disk = shift_files a l.path l.disk } in
    let still = reopen-KeepsEnd a.opens moved (shift-KeepsEnd a l short end) in
    let same_path = if-both (λ (r : Log). r.path ≡ l.path) a.opens _ _ (λ e. refl) (λ e. refl) in
    if-both P l.is_open _ _ (λ o. (still, same_path)) (λ o. (end, refl))

log_write-StillKeeps :
    (r : Remark) (j : Journal)
    → length j.log.path ≤ 511
    → KeepsEnd j.log
    → StillKeeps j.log.path (log_write r.answers r.stamp r.level r.message j).log
unfolding log_write write_line
log_write-StillKeeps r j short end =
    let P : Journal → Type 0 = λ k. StillKeeps j.log.path k.log in
    let line = journal_line r.stamp r.level r.message in
    let written = write_line line j.log in
    let kept_line = write-KeepsEnd r.answers j.log short line end in
    if-both P (ltb_ℤ (pos r.level) j.log.level || not j.inited) _ _ (λ q. (end, refl))
      (λ q.
        if-both (StillKeeps j.log.path) j.log.is_open _ _
          (λ o.
            if-both (StillKeeps j.log.path)
              (ltb_ℤ j.limit (pos (length (content (written.disk written.path))))) _ _
              (λ s. rotate-StillKeeps r.answers written short kept_line) (λ s. (kept_line, refl)))
          (λ o. (end, refl)))

-- If the older file and the live one are, in this order, the end of what was written, so they are after
-- any messages, whatever the limit is and whether `remove`, `rename` and `fopen` succeed in a rotation or
-- not.
pub journal_all-KeepsEnd :
    (remarks : List Remark) (j : Journal)
    → length j.log.path ≤ 257
    → KeepsEnd j.log
    → KeepsEnd (journal_all remarks j).log
unfolding journal_all
journal_all-KeepsEnd [] j short end = end
journal_all-KeepsEnd (r ∷ remarks) j short end =
    let (still, same_path) = log_write-StillKeeps r j (omega (arith, short)) end in
    journal_all-KeepsEnd remarks _ (omega (arith, ap length same_path, short)) still
