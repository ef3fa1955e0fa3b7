-- ===== src/Log/Files.antt =====
-- common/log.c: the two files of the log through a rotation.
-- The two paths differ.
use sync_clipboard.Log.{Answers, content, Disk, put_file, rotated_path, shift_files}
use sync_clipboard.Prelude.{
  if-both, Bool-cases, arith, length, ◌∙◌, none, maybe, append-nil, sym, if◌then◌else◌, ◌≡◌, Bytes,
  [], false, ◌++◌, take_all, if-at, length-append, ◌≤◌, inr, Option, same_refl, some, true_is_false,
  inl, same, codes, ap, refl, same_iff, ap₂,
}

pub rotated_path-differs :
    (path : Bytes) → length path ≤ 511 → same (rotated_path path) path ≡ false
unfolding rotated_path
rotated_path-differs path short =
    let whole : rotated_path path ≡ path ++ codes ".1" =
      take_all 599 (path ++ codes ".1") (omega (arith, length-append path (codes ".1"))) in
    elim (Bool-cases (same (rotated_path path) path)) [
      | inl e ↦
          let eq = ap length (sym whole ∙ (same_iff (rotated_path path) path).0 e) in
          absurd (omega (arith, eq, length-append path (codes ".1")))
      | inr e ↦ e
    ]

same_flip : (a b : Bytes) → same a b ≡ false → same b a ≡ false
same_flip a b e = elim (Bool-cases (same b a)) [
  | inl h ↦ absurd (true_is_false (sym ((same_iff a b).1 (sym ((same_iff b a).0 h))) ∙ e))
  | inr h ↦ h
]

pub put_file-there : (p : Bytes) (o : Option Bytes) (d : Disk) → put_file p o d p ≡ o
unfolding put_file
put_file-there p o d = if-at (same p p) _ _ (same_refl p)

pub put_file-else :
    (p q : Bytes) (o : Option Bytes) (d : Disk) → same q p ≡ false → put_file p o d q ≡ d q
unfolding put_file
put_file-else p q o d e = rw e refl

-- Opening a file for appending changes no bytes.
pub made-content :
    (path q : Bytes) (disk : Disk)
    → content (put_file path (some (content (disk path))) disk q) ≡ content (disk q)
unfolding maybe
made-content path q disk =
    let made = some (content (disk path)) in
    elim (Bool-cases (same q path)) [
      | inl h ↦
          let eq = (same_iff q path).0 h in
          ap (λ p. content (put_file path made disk p)) eq
          ∙ ap content (put_file-there path made disk)
          ∙ ap (λ p. content (disk p)) (sym eq)
      | inr h ↦ ap content (put_file-else path q made disk h)
    ]

pub no_more : (s : Bytes) → s ++ content none ≡ s
unfolding maybe
no_more s = append-nil s

module _ (a : Answers) (path : Bytes) (disk : Disk) (short : length path ≤ 511) where
  abbrev pub old : Bytes
  old = rotated_path path

  abbrev pub cleared : Disk
  cleared = if a.removes then put_file old none disk else disk

  pub cleared-path : cleared path ≡ disk path
  cleared-path =
      if-both (λ (d : Disk). d path ≡ disk path) a.removes _ _
        (λ e.
          put_file-else old path none disk (same_flip old path (rotated_path-differs path short)))
        (λ e. refl)

  -- The renaming keeps the live bytes as the older ones, where it succeeds; else they stay.
  pub shift_files-kept :
      let after = shift_files a path disk in
      (dropped : Bytes) × (content (disk old) ++ content (disk path)
        ≡ dropped ++ (content (after old) ++ content (after path)))
  unfolding shift_files maybe
  shift_files-kept =
      let P : Disk → Type 0 = λ after.
        (dropped : Bytes) × (content (disk old) ++ content (disk path)
          ≡ dropped ++ (content (after old) ++ content (after path))) in
      let moved = put_file old (cleared path) cleared in
      let differ = rotated_path-differs path short in
      let older : content (put_file path none moved old) ≡ content (disk path) = ap content (
        put_file-else path old none moved differ
        ∙ put_file-there old (cleared path) cleared
        ∙ cleared-path) in
      let live : content (put_file path none moved path) ≡ content none =
        ap content (put_file-there path none moved) in
      let gone : content (put_file old none disk old) ≡ content none =
        ap content (put_file-there old none disk) in
      let stays : content (put_file old none disk path) ≡ content (disk path) =
        ap content (put_file-else old path none disk (same_flip old path differ)) in
      let first = content (disk old) in
      if-both P a.renames _ _
        (λ e. (
          first,
          ap (λ r. first ++ r)
              (sym (ap₂ (λ x y. x ++ y) older live ∙ no_more (content (disk path)))),
        ))
        (λ e.
          if-both P a.removes _ _
            (λ r. (first, ap (λ r. first ++ r) (sym (ap₂ (λ x y. x ++ y) gone stays))))
            (λ r. ([], refl)))
