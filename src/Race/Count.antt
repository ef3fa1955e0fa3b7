-- ===== src/Race/Count.antt =====
-- How often a socket stands among those that a race holds, and that each step keeps the account.
use sync_clipboard.Prelude.{
  &&-eq-true, Bool, Bool-cases, List, Option, [], ap, arith, count, count-append, inl, inr, none,
  refl, some, true, ℕ, ◌&&◌, ◌+◌, ◌∷◌, ◌≡◌,
}
use sync_clipboard.Race.{
  Race, Round, accept_plain, close_slots, filled, incoming_on, is_none, nat_plain, peers_plain,
  pick, round_plain,
}

pub filled-append :
    (o : Option ℕ) (slots : List (Option ℕ)) (s : ℕ)
    → count s (filled (o ∷ slots)) ≡ count s (filled (o ∷ [])) + count s (filled slots)
filled-append none slots s = omega arith
filled-append (some x) slots s = omega arith

-- Everything that is in a slot, chosen, or closed.
abbrev pub held : ℕ → Race → ℕ
held s race =
    count s (filled race.conns)
    + count s (filled (race.nat ∷ []))
    + count s (filled (race.result ∷ []))
    + count s race.closed

-- From one state to the next, what is held has grown by what was accepted.
pub record Balanced (race race' : Race) : Type 0 where
  pub account :
      (s : ℕ) → held s race' + count s race.accepted ≡ held s race + count s race'.accepted

pub Balanced-refl : (race : Race) → Balanced race race
Balanced-refl race = record { account = λ s. refl }

pub Balanced-trans : {a b c : Race} → Balanced a b → Balanced b c → Balanced a c
Balanced-trans {a} {b} {c} h k = record { account = λ s. omega (arith, h.account s, k.account s) }

pub close_slots-Balanced : (race : Race) → Balanced race (close_slots race)
unfolding close_slots
close_slots-Balanced race = record {
  account = λ s. omega (
    arith,
    count-append s (filled (race.nat ∷ race.conns)) race.closed,
    filled-append race.nat race.conns s,
  );
}

pub pick-count :
    (r : Round) (slots : List (Option ℕ)) (s : ℕ)
    → count s (filled (pick r slots).1) + count s (filled ((pick r slots).0 ∷ []))
      ≡ count s (filled slots)
unfolding pick
pick-count r [] s = omega arith
pick-count r (none ∷ slots) s = pick-count r slots s
pick-count r (some x ∷ slots) s = elim (Bool-cases (r.writable x && r.connected x)) [
  | inl e ↦ rw e (omega arith)
  | inr e ↦ rw e (omega (arith, pick-count r slots s))
]

pub accept_plain-Balanced :
    (o : Option ℕ) (race : Race) → race.result ≡ none → Balanced race (accept_plain o race)
unfolding accept_plain
accept_plain-Balanced none race e = Balanced-refl race
accept_plain-Balanced (some c) race e = record { account = λ s. rw e (omega arith) }

-- A turn's later parts run only if nothing has been chosen.
pub none_of {ℓ} : {A : Type ℓ} (o : Option A) → is_none o ≡ true → o ≡ none
none_of none h = refl
none_of (some y) h = cc

pub peers_plain-Balanced : (r : Round) (race : Race) → Balanced race (peers_plain r race)
unfolding peers_plain
peers_plain-Balanced r race = elim (Bool-cases (is_none race.result)) [
  | inl b ↦ rw b (record {
    account = λ s.
        let z : count s (filled (race.result ∷ [])) ≡ 0 =
          ap (λ o. count s (filled (o ∷ []))) (none_of race.result b) in
        omega (arith, pick-count r race.conns s, z);
  })
  | inr b ↦ rw b (Balanced-refl race)
]

pub nat_plain-Balanced :
    (r : Round) (o : Option ℕ) (race : Race) → race.nat ≡ o → Balanced race (nat_plain r o race)
unfolding nat_plain
nat_plain-Balanced r none race e = Balanced-refl race
nat_plain-Balanced r (some x) race e =
    elim (Bool-cases (is_none race.result && (r.writable x && r.connected x))) [
      | inl b ↦ rw b (taken race (none_of race.result (&&-eq-true (is_none race.result) _ b).0) e)
      | inr b ↦ rw b (Balanced-refl race)
    ]
  where
    taken :
        (race : Race)
        → race.result ≡ none
        → race.nat ≡ some x
        → Balanced race (record race { nat = none; result = some x })
    taken race h k = record {
      account = λ s.
          let n : count s (filled (race.nat ∷ [])) ≡ count s (x ∷ []) =
            ap (λ o. count s (filled (o ∷ []))) k in
          let z : count s (filled (race.result ∷ [])) ≡ 0 = ap (λ o. count s (filled (o ∷ []))) h in
          omega (arith, n, z);
    }

pub round_plain-Balanced :
    (listening : Bool) (r : Round) (race : Race)
    → race.result ≡ none
    → Balanced race (round_plain listening r race)
unfolding round_plain
round_plain-Balanced listening r race e =
    let greeted : Race = peers_plain r (accept_plain (incoming_on listening r) race) in
    Balanced-trans (accept_plain-Balanced (incoming_on listening r) race e) (
      Balanced-trans (peers_plain-Balanced r (accept_plain (incoming_on listening r) race))
        (nat_plain-Balanced r greeted.nat greeted refl))
