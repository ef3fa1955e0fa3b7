-- ===== src/Race/Trusted.antt =====
-- `ft_lan_transfer_auth` loses no socket, and returns none that has not passed the handshake.
use sync_clipboard.Prelude.{
  &&-eq-true, Bool, Bool-cases, List, Option, [], ap, arith, count, count-append, false, inl, inr,
  none, refl, some, true, ℕ, ◌&&◌, ◌+◌, ◌||◌, ◌∷◌, ◌≡◌,
}
use sync_clipboard.Race.{Race, Round, filled, incoming_on, is_none}
use sync_clipboard.Race.Keyed.{
  Identity, accept_auth, authenticates, nat_auth, peers_auth, pick_auth, round_auth, settle,
}
use sync_clipboard.Race.Count.{Balanced, Balanced-refl, Balanced-trans, held, none_of}

settle-Balanced :
    (ok : Bool) (c : ℕ) (race : Race) (s : ℕ)
    → race.result ≡ none
    → held s (settle ok c race) ≡ held s race + count s (c ∷ [])
unfolding settle
settle-Balanced true c race s e =
    let z : count s (filled (race.result ∷ [])) ≡ 0 = ap (λ o. count s (filled (o ∷ []))) e in
    omega (arith, z)
settle-Balanced false c race s e = omega arith

settle-accepted : (ok : Bool) (c : ℕ) (race : Race) → (settle ok c race).accepted ≡ race.accepted
unfolding settle
settle-accepted true c race = refl
settle-accepted false c race = refl

accept_auth-Balanced :
    (self : Identity) (r : Round) (o : Option ℕ) (race : Race)
    → race.result ≡ none
    → Balanced race (accept_auth self r o race)
unfolding accept_auth
accept_auth-Balanced self r none race e = Balanced-refl race
accept_auth-Balanced self r (some c) race e = record {
  account = λ s.
      let race' : Race = record race { accepted = c ∷ race.accepted } in
      omega (
        arith,
        settle-Balanced (authenticates self (r.peer c)) c race' s e,
        ap (count s) (settle-accepted (authenticates self (r.peer c)) c race'),
      );
}

pick_auth-count :
    (self : Identity) (r : Round) (slots : List (Option ℕ)) (s : ℕ)
    → let p = pick_auth self r slots in
      count s (filled p.left) + count s (filled (p.found ∷ [])) + count s p.dropped
      ≡ count s (filled slots)
unfolding pick_auth
pick_auth-count self r [] s = omega arith
pick_auth-count self r (none ∷ slots) s = pick_auth-count self r slots s
pick_auth-count self r (some x ∷ slots) s = elim (Bool-cases (r.writable x || r.broken x)) [
  | inr a ↦ rw a (omega (arith, pick_auth-count self r slots s))
  | inl a ↦ elim (Bool-cases (r.connected x)) [
    | inr b ↦ rw (a, b) (omega (arith, pick_auth-count self r slots s))
    | inl b ↦ elim (Bool-cases (authenticates self (r.peer x))) [
      | inr c ↦ rw (a, b, c) (omega (arith, pick_auth-count self r slots s))
      | inl c ↦ rw (a, b, c) (omega arith)
    ]
  ]
]

peers_auth-Balanced :
    (self : Identity) (r : Round) (race : Race) → Balanced race (peers_auth self r race)
unfolding peers_auth
peers_auth-Balanced self r race = elim (Bool-cases (is_none race.result)) [
  | inl b ↦ rw b (record {
    account = λ s.
        let z : count s (filled (race.result ∷ [])) ≡ 0 =
          ap (λ o. count s (filled (o ∷ []))) (none_of race.result b) in
        omega (
          arith,
          pick_auth-count self r race.conns s,
          count-append s (pick_auth self r race.conns).dropped race.closed,
          z,
        );
  })
  | inr b ↦ rw b (Balanced-refl race)
]

nat_auth-Balanced :
    (self : Identity) (r : Round) (o : Option ℕ) (race : Race)
    → race.nat ≡ o
    → Balanced race (nat_auth self r o race)
unfolding nat_auth
nat_auth-Balanced self r none race e = Balanced-refl race
nat_auth-Balanced self r (some x) race e =
    elim (Bool-cases (is_none race.result && (r.writable x || r.broken x))) [
      | inr b ↦ rw b (Balanced-refl race)
      | inl b ↦
          let free : race.result ≡ none =
            none_of race.result (&&-eq-true (is_none race.result) _ b).0 in
          let ok : Bool = r.connected x && authenticates self (r.peer x) in
          let race' : Race = record race { nat = none } in
          rw b (record {
            account = λ s.
                let n : count s (filled (race.nat ∷ [])) ≡ count s (x ∷ []) =
                  ap (λ o. count s (filled (o ∷ []))) e in
                omega (
                  arith,
                  settle-Balanced ok x race' s free,
                  ap (count s) (settle-accepted ok x race'),
                  n,
                );
          })
    ]

pub round_auth-Balanced :
    (self : Identity) (listening : Bool) (r : Round) (race : Race)
    → race.result ≡ none
    → Balanced race (round_auth self listening r race)
unfolding round_auth
round_auth-Balanced self listening r race e =
    let first : Race = accept_auth self r (incoming_on listening r) race in
    let greeted : Race = peers_auth self r first in
    Balanced-trans (accept_auth-Balanced self r (incoming_on listening r) race e) (
      Balanced-trans (peers_auth-Balanced self r first)
        (nat_auth-Balanced self r greeted.nat greeted refl))
