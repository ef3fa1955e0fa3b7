-- ===== src/Log/Size.antt =====
-- common/log.c: how large the two files of the log get.
use sync_clipboard.Prelude.Int.{ℤ, pos, negsuc, ltb_ℤ}
use sync_clipboard.Log.{
  Answers, Disk, Entry, Log, content, level_name, log_all, log_line, put_file, reopen,
  rotate_if_needed, rotated_path, sc_log_msg, shift_files, write_line,
}
use sync_clipboard.Log.Kept.{msg-path}
use sync_clipboard.Prelude.{
  All, Bool, Bytes, List, [], ap, arith, false, if-both, length, length-append, length-take, ltb,
  ltb→lt, maybe, none, not, refl, some, suc, sym, take, true, true_is_false, zero, ◌++◌, ◌+◌, ◌<◌,
  ◌==◌, ◌||◌, ◌∙◌, ◌∷◌, ◌≡◌, ◌≤◌,
}
use sync_clipboard.Client.Sync.{not-true}
use sync_clipboard.Log.Files.{
  put_file-else, cleared-path, rotated_path-differs, cleared, made-content, put_file-there,
}

length-level_name : (level : ℤ) → length (level_name level) ≡ 5
unfolding level_name
length-level_name (pos zero) = refl
length-level_name (pos (suc zero)) = refl
length-level_name (pos (suc (suc zero))) = refl
length-level_name (pos (suc (suc (suc zero)))) = refl
length-level_name (pos (suc (suc (suc (suc n))))) = refl
length-level_name (negsuc n) = refl

length-log_line : (ts : Bytes) (level : ℤ) (text : Bytes) → length (log_line ts level text) ≤ 2086
length-log_line ts level text =
    let end : Bytes = take 2047 text ++ 10 ∷ [] in
    let middle : Bytes = level_name level ++ 32 ∷ end in
    let a : length end ≤ 2048 =
      omega (arith, length-append (take 2047 text) (10 ∷ []), length-take 2047 text) in
    let b : length middle ≤ 2054 =
      omega (arith, a, length-append (level_name level) (32 ∷ end), length-level_name level) in
    let whole : length (take 31 ts ++ 32 ∷ middle) ≤ 2086 =
      omega (arith, b, length-append (take 31 ts) (32 ∷ middle), length-take 31 ts) in
    whole

-- The live file is below the limit, and the older one at most one line above it.
unfoldable pub InLimit : Log → Type 0
InLimit l =
    (length (content (l.disk l.path)) < l.max_bytes)
    × (length (content (l.disk (rotated_path l.path))) < l.max_bytes + 2086)

-- Calls that a rotation needs.
abbrev pub Succeeds : Answers → Type 0
Succeeds a = (a.tells ≡ true) × (a.renames ≡ true)

reopen-InLimit : (opens : Bool) (l : Log) → InLimit l → InLimit (reopen opens l)
unfolding InLimit reopen
reopen-InLimit opens l (live, older) =
    let e1 = ap length (made-content l.path (rotated_path l.path) l.disk) in
    let e2 = ap length (made-content l.path l.path l.disk) in
    if-both InLimit opens _ _ (λ e. (omega arith, omega arith)) (λ e. (live, older))

not_off :
    (closed nameless : Bool) → closed ≡ true → nameless ≡ false → not closed || nameless ≡ false
not_off true n e f = f
not_off false n e f = absurd (true_is_false (sym e))

module _ (a : Answers) (l : Log) (short : length l.path ≤ 511) where
  -- The renamed file is what was live, and nothing is live.
  shift-InLimit :
      a.renames ≡ true
      → 0 < l.max_bytes
      → length (content (l.disk l.path)) < l.max_bytes + 2086
      → InLimit (record l { disk = shift_files a l.path l.disk })
  unfolding InLimit shift_files maybe
  shift-InLimit renames positive live =
      let old = rotated_path l.path in
      let rest = cleared a l.path l.disk short in
      let moved = put_file old (rest l.path) rest in
      let older : put_file l.path none moved old ≡ l.disk l.path =
        put_file-else l.path old none moved (rotated_path-differs l.path short)
        ∙ put_file-there old (rest l.path) rest
        ∙ cleared-path a l.path l.disk short in
      let gone : put_file l.path none moved l.path ≡ none = put_file-there l.path none moved in
      let P : Disk → Type 0 = λ d.
        (length (content (d l.path)) < l.max_bytes)
        × (length (content (d old)) < l.max_bytes + 2086) in
      if-both P a.renames _ _
        (λ e. (
          let n = ap (λ o. length (content o)) gone in omega (arith, n, positive),
          let n = ap (λ o. length (content o)) older in omega (arith, n, live),
        ))
        (λ e. absurd (true_is_false (sym renames ∙ e)))

  -- After a line was written, and before the rotation.
  rotate-InLimit :
      Succeeds a
      → 0 < l.max_bytes
      → length l.path == 0 ≡ false
      → l.is_open ≡ true
      → length (content (l.disk l.path)) < l.max_bytes + 2086
      → length (content (l.disk (rotated_path l.path))) < l.max_bytes + 2086
      → InLimit (rotate_if_needed a l)
  unfolding rotate_if_needed InLimit
  rotate-InLimit (tells, renames) positive named opened live older =
      let moved : Log = record l { disk = shift_files a l.path l.disk } in
      if-both InLimit (not l.is_open || length l.path == 0) _ _
        (λ e. absurd (true_is_false (sym e ∙ not_off _ _ opened named)))
        (λ e.
          if-both InLimit (not a.tells) _ _ (λ t. absurd (not-true a.tells tells t))
            (λ t.
              if-both InLimit (ltb (length (content (l.disk l.path))) l.max_bytes) _ _
                (λ s. (ltb→lt _ _ s, older))
                (λ s. reopen-InLimit a.opens moved (shift-InLimit renames positive live))))

  write-limits :
      (line : Bytes)
      → length line ≤ 2086
      → InLimit l
      → let w = write_line line l in
        (length (content (w.disk w.path)) < w.max_bytes + 2086)
        × (length (content (w.disk (rotated_path w.path))) < w.max_bytes + 2086)
  unfolding write_line InLimit maybe
  write-limits line small (live, older) =
      let old = rotated_path l.path in
      let bytes = content (l.disk l.path) in
      let written = some (bytes ++ line) in
      let e1 =
        ap (λ o. length (content o))
          (put_file-else l.path old written l.disk (rotated_path-differs l.path short)) in
      let e2 = ap (λ o. length (content o)) (put_file-there l.path written l.disk) in
      let n = length-append bytes line in
      (omega (arith, e2, n, live, small), omega (arith, e1, older))

module _ (e : Entry) (l : Log) (short : length l.path ≤ 511) where
  msg-max : (sc_log_msg e.answers e.time e.severity e.text l).max_bytes ≡ l.max_bytes
  unfolding sc_log_msg write_line rotate_if_needed reopen
  msg-max =
      let P : Log → Type 0 = λ r. r.max_bytes ≡ l.max_bytes in
      let line = log_line e.time e.severity e.text in
      let w : Log = write_line line l in
      if-both P (ltb_ℤ e.severity l.level) _ _ (λ h. refl)
        (λ h.
          if-both P l.is_open _ _
            (λ o.
              if-both P (not w.is_open || length w.path == 0) _ _ (λ e. refl)
                (λ h.
                  if-both P (not e.answers.tells) _ _ (λ t. refl)
                    (λ t.
                      if-both P (ltb (length (content (w.disk w.path))) w.max_bytes) _ _ (λ s. refl)
                        (λ s. if-both P e.answers.opens _ _ (λ o. refl) (λ o. refl)))))
            (λ o. refl))

  msg-InLimit :
      Succeeds e.answers
      → 0 < l.max_bytes
      → length l.path == 0 ≡ false
      → InLimit l
      → InLimit (sc_log_msg e.answers e.time e.severity e.text l)
  unfolding sc_log_msg InLimit write_line
  msg-InLimit good positive named (live, older) =
      let line = log_line e.time e.severity e.text in
      let (live', older') =
        write-limits e.answers l short line (length-log_line e.time e.severity e.text)
          (live, older) in
      if-both InLimit (ltb_ℤ e.severity l.level) _ _ (λ h. (live, older))
        (λ h.
          if-both InLimit l.is_open _ _
            (λ o.
              rotate-InLimit e.answers (write_line line l) short good positive named o live' older')
            (λ o. (live, older)))

-- The entries of which every rotation would succeed.
abbrev pub AllSucceed : List Entry → Type 0
AllSucceed entries = All (λ e. Succeeds e.answers) entries

-- Where `ftell` and `rename` succeed, whatever is logged and whether or not the file can be opened
-- again: the log file stays below its limit, and the older file below the limit and the 2086 bytes of
-- one line.
pub log_all-InLimit :
    (entries : List Entry) (l : Log)
    → AllSucceed entries
    → length l.path ≤ 511
    → 0 < l.max_bytes
    → length l.path == 0 ≡ false
    → InLimit l
    → InLimit (log_all entries l)
unfolding log_all
log_all-InLimit [] l good short positive named small = small
log_all-InLimit (e ∷ entries) l (g, good) short positive named small =
    let after = sc_log_msg e.answers e.time e.severity e.text l in
    let path = msg-path e l short in
    let limit = msg-max e l short in
    log_all-InLimit entries after good (omega (arith, ap length path, short))
      (omega (arith, limit, positive)) (ap (λ p. length p == 0) path ∙ named)
      (msg-InLimit e l short g positive named small)
