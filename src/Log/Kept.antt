-- ===== src/Log/Kept.antt =====
-- common/log.c: what the rotation keeps of all that was written.
use sync_clipboard.Prelude.Int.{ltb_ℤ}
use sync_clipboard.Log.{
  Answers, Entry, Log, content, log_all, log_line, reopen, rotate_if_needed, rotated_path,
  sc_log_msg, shift_files, write_line,
}
use sync_clipboard.Log.Files.{
  made-content, put_file-else, put_file-there, rotated_path-differs, shift_files-kept,
}
use sync_clipboard.Prelude.{
  Bool, Bytes, List, [], ap, append_assoc, ap₂, arith, if-both, length, ltb, maybe, not, refl, some,
  sym, ◌++◌, ◌==◌, ◌||◌, ◌∙◌, ◌∷◌, ◌≡◌, ◌≤◌,
}

-- The bytes under the rotated path and then those under the path.
unfoldable pub kept : Log → Bytes
kept l = content (l.disk (rotated_path l.path)) ++ content (l.disk l.path)

-- What is on the disk is the end of what was written.
unfoldable pub KeepsEnd : Log → Type 0
unfolding kept
KeepsEnd l = (dropped : Bytes) × (l.history ≡ dropped ++ kept l)

pub reopen-KeepsEnd : (opens : Bool) (l : Log) → KeepsEnd l → KeepsEnd (reopen opens l)
unfolding KeepsEnd kept reopen
reopen-KeepsEnd opens l (dropped, ends) =
    let older = made-content l.path (rotated_path l.path) l.disk in
    let live = made-content l.path l.path l.disk in
    if-both KeepsEnd opens _ _
      (λ e. (dropped, ends ∙ ap (λ k. dropped ++ k) (sym (ap₂ (λ x y. x ++ y) older live))))
      (λ e. (dropped, ends))

module _ (a : Answers) (l : Log) (short : length l.path ≤ 511) where
  pub shift-KeepsEnd : KeepsEnd l → KeepsEnd (record l { disk = shift_files a l.path l.disk })
  unfolding KeepsEnd kept
  shift-KeepsEnd (dropped, ends) =
      let (more_dropped, shifted) = shift_files-kept a l.path l.disk short in
      (
        dropped ++ more_dropped,
        ends ∙ ap (λ k. dropped ++ k) shifted ∙ sym (append_assoc dropped more_dropped _),
      )

  rotate-KeepsEnd : KeepsEnd l → KeepsEnd (rotate_if_needed a l)
  unfolding rotate_if_needed
  rotate-KeepsEnd end =
      if-both KeepsEnd (not l.is_open || length l.path == 0) _ _ (λ e. end)
        (λ e.
          if-both KeepsEnd (not a.tells) _ _ (λ t. end)
            (λ t.
              if-both KeepsEnd (ltb (length (content (l.disk l.path))) l.max_bytes) _ _ (λ s. end)
                (λ s. reopen-KeepsEnd a.opens _ (shift-KeepsEnd end))))

  pub write-KeepsEnd : (line : Bytes) → KeepsEnd l → KeepsEnd (write_line line l)
  unfolding KeepsEnd kept write_line maybe
  write-KeepsEnd line (dropped, ends) =
      let old = rotated_path l.path in
      let live = content (l.disk l.path) in
      let written = some (live ++ line) in
      let e1 =
        ap content (put_file-else l.path old written l.disk (rotated_path-differs l.path short)) in
      let e2 = ap content (put_file-there l.path written l.disk) in
      (
        dropped,
        ap (λ h. h ++ line) ends
            ∙ append_assoc dropped (content (l.disk old) ++ live) line
            ∙ ap (λ k. dropped ++ k)
                (append_assoc (content (l.disk old)) live line ∙ sym (ap₂ (λ x y. x ++ y) e1 e2)),
      )

rotate-path : (a : Answers) (l : Log) → (rotate_if_needed a l).path ≡ l.path
unfolding rotate_if_needed reopen
rotate-path a l =
    let P : Log → Type 0 = λ r. r.path ≡ l.path in
    if-both P (not l.is_open || length l.path == 0) _ _ (λ e. refl)
      (λ e.
        if-both P (not a.tells) _ _ (λ t. refl)
          (λ t.
            if-both P (ltb (length (content (l.disk l.path))) l.max_bytes) _ _ (λ s. refl)
              (λ s. if-both P a.opens _ _ (λ o. refl) (λ o. refl))))

module _ (e : Entry) (l : Log) (short : length l.path ≤ 511) where
  msg-KeepsEnd : KeepsEnd l → KeepsEnd (sc_log_msg e.answers e.time e.severity e.text l)
  unfolding sc_log_msg write_line KeepsEnd kept
  msg-KeepsEnd (dropped, ends) =
      let line = log_line e.time e.severity e.text in
      let end : KeepsEnd l = (dropped, ends) in
      if-both KeepsEnd (ltb_ℤ e.severity l.level) _ _ (λ h. end)
        (λ h.
          if-both KeepsEnd l.is_open _ _
            (λ o.
              rotate-KeepsEnd e.answers (write_line line l) short
                (write-KeepsEnd e.answers l short line end))
            (λ o. (dropped, ends)))

  pub msg-path : (sc_log_msg e.answers e.time e.severity e.text l).path ≡ l.path
  unfolding sc_log_msg write_line
  msg-path =
      let P : Log → Type 0 = λ r. r.path ≡ l.path in
      let line = log_line e.time e.severity e.text in
      if-both P (ltb_ℤ e.severity l.level) _ _ (λ h. refl)
        (λ h. if-both P l.is_open _ _ (λ o. rotate-path e.answers (write_line line l)) (λ o. refl))

-- If the files under the rotated path and the path are, in this order, the end of what was written, so
-- they are after any messages, whether `ftell`, `remove`, `rename` and `fopen` succeed in a rotation or
-- not: nothing is written twice, reordered, or dropped from the middle.
pub log_all-KeepsEnd :
    (entries : List Entry) (l : Log)
    → length l.path ≤ 511
    → KeepsEnd l
    → KeepsEnd (log_all entries l)
unfolding log_all
log_all-KeepsEnd [] l short end = end
log_all-KeepsEnd (e ∷ entries) l short end =
    let after = sc_log_msg e.answers e.time e.severity e.text l in
    let same_path : after.path ≡ l.path = msg-path e l short in
    let still : length after.path ≤ 511 = omega (arith, ap length same_path, short) in
    log_all-KeepsEnd entries after still (msg-KeepsEnd e l short end)
