-- ===== src/Race/Vouched.antt =====
-- The socket that `ft_lan_transfer_auth` chooses has passed the handshake.
use sync_clipboard.Prelude.{
  &&-eq-true, Bool, Bool-cases, List, Option, [], false, inl, inr, none, refl, some, suc, true, ℕ,
  ◌&&◌, ◌||◌, ◌∷◌, ◌≡◌,
}
use sync_clipboard.Race.{Race, Round, incoming_on, is_none}
use sync_clipboard.Race.Keyed.{
  Identity, accept_auth, authenticates, nat_auth, peers_auth, pick_auth, round_auth, settle,
}
use sync_clipboard.Race.Count.{none_of}

-- If a socket is chosen, it passes the handshake in this round.
abbrev pub Passes : Identity → Round → Option ℕ → Type 0
Passes self r none = Unit
Passes self r (some s) = authenticates self (r.peer s) ≡ true

-- If a socket is chosen, it passes the handshake in some round.
abbrev pub Passed : Identity → (ℕ → Round) → Option ℕ → Type 0
Passed self rounds none = Unit
Passed self rounds (some s) = (k : ℕ) × (authenticates self ((rounds k).peer s) ≡ true)

settle-Passes :
    (self : Identity) (r : Round) (ok : Bool) (c : ℕ) (race : Race)
    → (ok ≡ true → authenticates self (r.peer c) ≡ true)
    → race.result ≡ none
    → Passes self r (settle ok c race).result
unfolding settle
settle-Passes self r true c race h e = h refl
settle-Passes self r false c race h e = rw e tt

accept_auth-Passes :
    (self : Identity) (r : Round) (o : Option ℕ) (race : Race)
    → race.result ≡ none
    → Passes self r (accept_auth self r o race).result
unfolding accept_auth
accept_auth-Passes self r none race e = rw e tt
accept_auth-Passes self r (some c) race e =
    settle-Passes self r (authenticates self (r.peer c)) c
      (record race { accepted = c ∷ race.accepted }) (λ h. h) e

pick_auth-Passes :
    (self : Identity) (r : Round) (slots : List (Option ℕ))
    → Passes self r (pick_auth self r slots).found
unfolding pick_auth
pick_auth-Passes self r [] = tt
pick_auth-Passes self r (none ∷ slots) = pick_auth-Passes self r slots
pick_auth-Passes self r (some x ∷ slots) = elim (Bool-cases (r.writable x || r.broken x)) [
  | inr a ↦ rw a (pick_auth-Passes self r slots)
  | inl a ↦ elim (Bool-cases (r.connected x)) [
    | inr b ↦ rw (a, b) (pick_auth-Passes self r slots)
    | inl b ↦ elim (Bool-cases (authenticates self (r.peer x))) [
      | inr c ↦ rw (a, b, c) (pick_auth-Passes self r slots)
      | inl c ↦ rw (a, b, c) c
    ]
  ]
]

peers_auth-Passes :
    (self : Identity) (r : Round) (race : Race)
    → Passes self r race.result
    → Passes self r (peers_auth self r race).result
unfolding peers_auth
peers_auth-Passes self r race h = elim (Bool-cases (is_none race.result)) [
  | inl b ↦ rw b (pick_auth-Passes self r race.conns)
  | inr b ↦ rw b h
]

nat_auth-Passes :
    (self : Identity) (r : Round) (o : Option ℕ) (race : Race)
    → Passes self r race.result
    → Passes self r (nat_auth self r o race).result
unfolding nat_auth
nat_auth-Passes self r none race h = h
nat_auth-Passes self r (some x) race h =
    elim (Bool-cases (is_none race.result && (r.writable x || r.broken x))) [
      | inr b ↦ rw b h
      | inl b ↦
          let free : race.result ≡ none =
            none_of race.result (&&-eq-true (is_none race.result) _ b).0 in
          let ok : Bool = r.connected x && authenticates self (r.peer x) in
          rw b (
            settle-Passes self r ok x (record race { nat = none })
              (λ y. (&&-eq-true (r.connected x) (authenticates self (r.peer x)) y).1) free)
    ]

pub round_auth-Passes :
    (self : Identity) (listening : Bool) (r : Round) (race : Race)
    → race.result ≡ none
    → Passes self r (round_auth self listening r race).result
unfolding round_auth
round_auth-Passes self listening r race e =
    let first : Race = accept_auth self r (incoming_on listening r) race in
    let greeted : Race = peers_auth self r first in
    nat_auth-Passes self r greeted.nat greeted
      (peers_auth-Passes self r first (accept_auth-Passes self r (incoming_on listening r) race e))

pub Passes-Passed :
    (self : Identity) (rounds : ℕ → Round) (o : Option ℕ)
    → Passes self (rounds 0) o
    → Passed self rounds o
Passes-Passed self rounds none h = tt
Passes-Passed self rounds (some s) h = (0, h)

pub Passed-later :
    (self : Identity) (rounds : ℕ → Round) (o : Option ℕ)
    → Passed self (λ k. rounds (suc k)) o
    → Passed self rounds o
Passed-later self rounds none h = tt
Passed-later self rounds (some s) (k, h) = (suc k, h)
