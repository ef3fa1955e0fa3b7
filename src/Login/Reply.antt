-- ===== src/Login/Reply.antt =====
-- common/auth_http.c: the buffer in which `write_cb` collects the body of a reply.
use sync_clipboard.Login.{HttpBuf, double_cap, filled_part, write_all, write_cb}
use sync_clipboard.Prelude.{
  Bool, Bool-cases, Bytes, List, Option, [], ap, append-nil, append_assoc, arith, if-both,
  if◌then◌else◌, inl, inr, length, length-append, ltb, ltb→le, maybe, maybe-both, none, refl, some,
  subst, suc, sym, zero, ℕ, ◌*◌, ◌++◌, ◌+◌, ◌==◌, ◌∙◌, ◌∷◌, ◌≡◌, ◌≤◌, ◌⊎◌,
}

-- The pieces put together.
abbrev pub all_pieces : List (Bool × Bytes) → Bytes
all_pieces [] = []
all_pieces ((memory, chunk) ∷ pieces) = chunk ++ all_pieces pieces

-- The bytes and the NUL behind them lie in the block, once there is one.
abbrev pub IsRoomy : HttpBuf → Type 0
IsRoomy buf = (buf.bytes ≡ none) ⊎ (length (filled_part buf) + 1 ≤ buf.cap)

double_cap-le :
    (fuel cap needed : ℕ) → 1 ≤ cap → needed ≤ cap + fuel → needed ≤ double_cap fuel cap needed
unfolding double_cap
double_cap-le zero cap needed p h = omega arith
double_cap-le (suc fuel) cap needed p h =
    let ih : needed ≤ double_cap fuel (cap * 2) needed =
      double_cap-le fuel (cap * 2) needed (omega arith) (omega arith) in
    elim (Bool-cases (ltb cap needed)) [ inl e ↦ rw e ih | inr e ↦ rw e (ltb→le cap needed e) ]

abbrev Stored : Bytes → HttpBuf → Option HttpBuf → Type 0
Stored chunk buf none = Unit
Stored chunk buf (some after) =
    (length (filled_part after) + 1 ≤ after.cap) × (filled_part after ≡ filled_part buf ++ chunk)

write_cb-Stored :
    (memory : Bool) (chunk : Bytes) (buf : HttpBuf) → Stored chunk buf (write_cb memory chunk buf)
unfolding write_cb maybe
write_cb-Stored memory chunk buf =
    let needed : ℕ = length (filled_part buf) + length chunk + 1 in
    let begun : ℕ = if buf.cap == 0 then 1024 else buf.cap * 2 in
    let size : length (filled_part buf ++ chunk) ≡ length (filled_part buf) + length chunk =
      length-append (filled_part buf) chunk in
    let large : needed ≤ double_cap needed begun needed =
      double_cap-le needed begun needed (ground arith) (omega arith) in
    if-both (Stored chunk buf) (ltb buf.cap needed) _ _
      (λ h. if-both (Stored chunk buf) memory _ _ (λ m. (omega arith, refl)) (λ m. tt))
      (λ h. (let enough = ltb→le buf.cap needed h in omega arith, refl))

abbrev Joined : List (Bool × Bytes) → HttpBuf → Option HttpBuf → Type 0
Joined pieces buf none = Unit
Joined pieces buf (some after) =
    IsRoomy after × (filled_part after ≡ filled_part buf ++ all_pieces pieces)

-- One piece more in front.
Joined-piece :
    (memory : Bool) (chunk : Bytes) (pieces : List (Bool × Bytes)) (buf between : HttpBuf)
    (o : Option HttpBuf)
    → filled_part between ≡ filled_part buf ++ chunk
    → Joined pieces between o
    → Joined ((memory, chunk) ∷ pieces) buf o
Joined-piece memory chunk pieces buf between none e h = tt
Joined-piece memory chunk pieces buf between (some after) e (room, f) = (
  room,
  f ∙ ap (λ s. s ++ all_pieces pieces) e ∙ append_assoc (filled_part buf) chunk (all_pieces pieces),
)

write_all-Joined :
    (pieces : List (Bool × Bytes)) (buf : HttpBuf)
    → IsRoomy buf
    → Joined pieces buf (write_all pieces buf)
unfolding write_all
write_all-Joined [] buf roomy = (roomy, sym (append-nil (filled_part buf)))
write_all-Joined ((memory, chunk) ∷ pieces) buf roomy =
    maybe-both (Joined ((memory, chunk) ∷ pieces) buf) _ _ _ (λ e. tt)
      (λ between e.
        let (room, f) = subst (Stored chunk buf) e (write_cb-Stored memory chunk buf) in
        Joined-piece memory chunk pieces buf between _ f
          (write_all-Joined pieces between (inr room)))

-- Whatever pieces the body comes in, and wherever a realloc fails: if no call of `write_cb` makes curl
-- give up, then the buffer holds the pieces in order behind what it held, and its bytes and their NUL
-- lie within the block, if that was so before.
pub write_all-joined :
    (pieces : List (Bool × Bytes)) (buf after : HttpBuf)
    → IsRoomy buf
    → write_all pieces buf ≡ some after
    → IsRoomy after × (filled_part after ≡ filled_part buf ++ all_pieces pieces)
write_all-joined pieces buf after roomy e =
    subst (Joined pieces buf) e (write_all-Joined pieces buf roomy)
