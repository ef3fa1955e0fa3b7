-- ===== src/Client/Pipe/Whole.antt =====
-- linux/main.c: the reads from a pipe give all that a command prints, however `fread` divides it.
use sync_clipboard.Client.Pipe.{
  Fread, max_clipboard, pipe_get_text, pipe_read_type, text_loop, type_loop,
}
use sync_clipboard.Prelude.{
  &&-eq-true, Bool, Bool-cases, Bytes, Option, [], ap, append-nil, append_assoc, arith, drop, false,
  if-both, if◌then◌else◌, inl, inr, leb, length, length-append, length-drop, length-take, maybe,
  none, not, refl, some, subst, suc, sym, take, take-add, take-append-drop, true, true_is_false,
  zero, ℕ, ◌&&◌, ◌*◌, ◌++◌, ◌+◌, ◌-◌, ◌<◌, ◌==◌, ◌∙◌, ◌∷◌, ◌≡◌, ◌≤◌, ◌⊎◌,
}
use sync_clipboard.Client.X11.{not_empty}

-- `fread` reads no more than there is room for and than is left, and something if both are there.
abbrev pub IsFread : Fread → Type 0
IsFread fread =
    (room left : ℕ)
    → (fread room left ≤ room)
      × (fread room left ≤ left)
      × (0 < room → 0 < left → 0 < fread room left)

-- A round that reads something leaves less.
shorter :
    (n fuel : ℕ) (left : Bytes)
    → 0 < n
    → n ≤ length left
    → length left < suc fuel
    → length (drop n left) < fuel
shorter n fuel left some_read within enough =
    let d = length-drop n left in omega (arith, d, some_read, within, enough)

read_so_far :
    (n : ℕ) (buf left : Bytes) → n ≤ length left → length (buf ++ take n left) ≡ length buf + n
read_so_far n buf left within =
    let a = length-append buf (take n left) in
    let t = length-take n left in omega (arith, a, t, within)

is_nil : (left : Bytes) → length left ≡ 0 → left ≡ []
is_nil [] e = refl
is_nil (b ∷ left) e = absurd (omega (arith, e))

zero_of : (n : ℕ) → n == 0 ≡ true → n ≡ 0
zero_of n e = ground arith

positive_of : (n : ℕ) → n == 0 ≡ false → 0 < n
positive_of n e = ground arith

refused : (full given : Bool) → full && not given ≡ true → given ≡ false
refused full false e = refl
refused true true e = absurd (true_is_false (sym e))
refused false true e = absurd (true_is_false (sym e))

leb-false→lt : (a b : ℕ) → leb a b ≡ false → b < a
leb-false→lt a b e = ground arith

-- A size that is asked for after some doublings.
pub data Asked : ℕ → ℕ → Type 0 where
  asked_next : {capacity : ℕ} → Asked capacity (capacity * 2)
  asked_later : {capacity size : ℕ} → Asked (capacity * 2) size → Asked capacity size

-- A `realloc` that was called, for a full buffer of no more than these bytes, and failed.
abbrev pub Refused : (ℕ → Bool) → ℕ → Bytes → Type 0
Refused grows capacity bytes =
    (size : ℕ) × Asked capacity size × (size ≤ length bytes * 2) × (grows size ≡ false)

-- The content whole, or nothing, and that only where `realloc` fails.
abbrev pub AllOrNone : (ℕ → Bool) → ℕ → Bytes → Option Bytes → Type 0
AllOrNone grows capacity bytes r = (r ≡ some bytes) ⊎ ((r ≡ none) × Refused grows capacity bytes)

-- What fails later was asked for from here.
later :
    (grows : ℕ → Bool) (capacity : ℕ) (bytes : Bytes) (r : Option Bytes)
    → AllOrNone grows (capacity * 2) bytes r
    → AllOrNone grows capacity bytes r
later grows capacity bytes r (inl e) = inl e
later grows capacity bytes r (inr (e, (size, asked, fits, fails))) =
    inr (e, (size, asked_later asked, fits, fails))

leb-true→le : (a b : ℕ) → leb a b ≡ true → a ≤ b
leb-true→le a b e = ground arith

module _ (fread : Fread) (law : IsFread fread) where
  -- A round that reads nothing: there was no room, or nothing left.
  nothing_read :
      (room : ℕ) (left : Bytes) → fread room (length left) == 0 ≡ true → take room left ≡ []
  nothing_read room left e =
      let (in_room, in_left, reads) = law room (length left) in
      let none_read = zero_of (fread room (length left)) e in
      let t = length-take room left in
      is_nil (take room left) (elim (Bool-cases (length left == 0)) [
        | inl z ↦ let l = zero_of (length left) z in omega (arith, t, l)
        | inr z ↦
            let l = positive_of (length left) z in
            elim (Bool-cases (room == 0)) [
              | inl r ↦ let k = zero_of room r in omega (arith, t, k)
              | inr r ↦
                  let k = positive_of room r in
                  let some_read = reads k l in absurd (omega (arith, some_read, none_read))
            ]
      ])

  nothing_left :
      (room : ℕ) (left : Bytes) → 0 < room → fread room (length left) == 0 ≡ true → left ≡ []
  nothing_left room left roomy e =
      let t = length-take room left in
      let none_taken : length (take room left) ≡ 0 = ap length (nothing_read room left e) in
      is_nil left (omega (arith, t, none_taken, roomy))

  text_loop-take :
      (fuel : ℕ) (left buf : Bytes)
      → length left < fuel
      → length buf < max_clipboard
      → text_loop fread fuel left buf ≡ some (buf ++ take (max_clipboard - length buf - 1) left)
  unfolding text_loop
  text_loop-take zero left buf enough fits = absurd (omega (arith, enough))
  text_loop-take (suc fuel) left buf enough fits =
      let room = max_clipboard - length buf - 1 in
      let n = fread room (length left) in
      let (in_room, in_left, reads) = law room (length left) in
      elim (Bool-cases (n == 0)) [
        | inl e ↦ rw (e, nothing_read room left e, append-nil buf) refl
        | inr e ↦
            let some_read = positive_of n e in
            let now = read_so_far n buf left in_left in
            let later = max_clipboard - length (buf ++ take n left) - 1 in
            let split : n + later ≡ room = omega (arith, now, in_room) in
            let goes =
              text_loop-take fuel (drop n left) (buf ++ take n left)
                (shorter n fuel left some_read in_left enough)
                (omega (arith, now, in_room, fits)) in
            rw e (
              goes
              ∙ ap some (
                  append_assoc buf (take n left) (take later (drop n left))
                  ∙ ap (◌++◌ buf) (take-add n later room left split)))
      ]

  type_loop-AllOrNone :
      (grows : ℕ → Bool) (fuel capacity : ℕ) (left buf : Bytes)
      → length left < fuel
      → length buf < capacity
      → AllOrNone grows capacity (buf ++ left) (type_loop fread grows fuel capacity left buf)
  unfolding type_loop
  type_loop-AllOrNone grows zero capacity left buf enough fits = absurd (omega (arith, enough))
  type_loop-AllOrNone grows (suc fuel) capacity left buf enough fits =
      let room = capacity - length buf in
      let n = fread room (length left) in
      let buf' = buf ++ take n left in
      let is_full = leb capacity (length buf') in
      let (in_room, in_left, reads) = law room (length left) in
      let now = read_so_far n buf left in_left in
      let whole = length-append buf left in
      let P = AllOrNone grows capacity (buf ++ left) in
      let joined : buf' ++ drop n left ≡ buf ++ left =
        append_assoc buf (take n left) (drop n left) ∙ ap (◌++◌ buf) (take-append-drop n left) in
      let again : (size : ℕ)
          → length buf' < size
          → 0 < n
          → AllOrNone grows size (buf ++ left)
              (type_loop fread grows fuel size (drop n left) buf') =
        λ size roomy some_read.
          subst
            (λ bytes.
              AllOrNone grows size bytes (type_loop fread grows fuel size (drop n left) buf'))
            joined
            (type_loop-AllOrNone grows fuel size (drop n left) buf'
              (shorter n fuel left some_read in_left enough) roomy) in
      if-both P (n == 0) _ _
        (λ e.
          let none_left = nothing_left room left (omega (arith, fits)) e in
          inl (ap some (sym (ap (◌++◌ buf) none_left ∙ append-nil buf))))
        (λ e.
          let some_read = positive_of n e in
          if-both P (is_full && not (grows (capacity * 2))) _ _
            (λ f.
              let (full, _) = &&-eq-true is_full (not (grows (capacity * 2))) f in
              let reached = leb-true→le capacity (length buf') full in
              inr (
                refl,
                (
                  capacity * 2,
                  asked_next,
                  omega (arith, reached, now, in_left, whole),
                  refused is_full (grows (capacity * 2)) f,
                ),
              ))
            (λ f. elim (Bool-cases is_full) [
              | inl g ↦ rw g (
                  later grows capacity _ _
                    (again (capacity * 2) (omega (arith, now, in_room, fits)) some_read))
              | inr g ↦ rw g (again capacity (leb-false→lt capacity (length buf') g) some_read)
            ]))

-- However `fread` divides what the command prints, the text is its first 1048575 bytes, and no text
-- where it prints nothing or there is no memory for the buffer.
pub pipe_get_text-take :
    (fread : Fread)
    → IsFread fread
    → (memory : Bool) (output : Bytes)
    → pipe_get_text fread memory (some output)
      ≡ (if memory then not_empty (take 1048575 output) else none)
unfolding pipe_get_text maybe
pipe_get_text-take fread law memory output =
    let whole =
      text_loop-take fread law (length output + 1) output [] (omega arith) (omega arith) in
    rw whole refl

-- However `fread` divides what the command prints, and as often as the buffer has to grow, the read ends.
-- It gives all that is printed, or nothing where nothing is printed; or it gives nothing because there is
-- no memory for the buffer, or because a `realloc` fails that was called: for a size that is 2^20 doubled
-- once or more, and at most twice the number of bytes printed.
pub pipe_read_type-AllOrNone :
    (fread : Fread)
    → IsFread fread
    → (memory : Bool) (grows : ℕ → Bool) (output : Bytes)
    → let r = pipe_read_type fread memory grows (some output) in
      (r ≡ not_empty output)
      ⊎ ((r ≡ none) × ((memory ≡ false) ⊎ Refused grows (1024 * 1024) output))
unfolding pipe_read_type maybe
pipe_read_type-AllOrNone fread law false grows output = inr (refl, inl refl)
pipe_read_type-AllOrNone fread law true grows output =
    let found =
      type_loop-AllOrNone fread law grows (length output + 1) (1024 * 1024) output [] (omega arith)
        (omega arith) in
    elim found [ inl e ↦ inl (rw e refl) | inr (e, failed) ↦ inr (rw e refl, inr failed) ]
