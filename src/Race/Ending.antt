-- ===== src/Race/Ending.antt =====
-- The end of a race, whatever its loop: no socket is left behind.
use sync_clipboard.Prelude.{List, Option, [], ap, arith, count, none, refl, some, ℕ, ◌+◌, ◌∷◌, ◌≡◌}
use sync_clipboard.Race.{Race, close_slots, filled, start}
use sync_clipboard.Race.Count.{Balanced, Balanced-trans, close_slots-Balanced, filled-append}

-- A loop has ended: what it returns, with no socket left in a slot.
pub record Ended (race : Race) (loop : Option Race) : Type 0 where
  pub out : Race
  pub found : loop ≡ some out
  pub balanced : Balanced race out
  pub no_conns : out.conns ≡ []
  pub no_nat : out.nat ≡ none

pub Ended-close : (race : Race) → Ended race (some (close_slots race))
unfolding close_slots
Ended-close race = record {
  out = close_slots race;
  found = refl;
  balanced = close_slots-Balanced race;
  no_conns = refl;
  no_nat = refl;
}

pub Ended-after :
    {race race' : Race} {loop : Option Race}
    → Balanced race race'
    → Ended race' loop
    → Ended race loop
Ended-after h e = record {
  out = e.out;
  found = e.found;
  balanced = Balanced-trans h e.balanced;
  no_conns = e.no_conns;
  no_nat = e.no_nat;
}

-- Each socket that came in, in a slot or from `accept`, has been closed or is the result, once.
abbrev pub Settled : List (Option ℕ) → Option ℕ → Option Race → Type 0
Settled conns nat loop =
    (out : Race) × (loop ≡ some out)
    × ((s : ℕ)
        → count s (filled (out.result ∷ [])) + count s out.closed
          ≡ count s (filled (nat ∷ conns)) + count s out.accepted)

pub Ended-Settled :
    (conns : List (Option ℕ)) (nat : Option ℕ) {loop : Option Race}
    → Ended (start conns nat) loop
    → Settled conns nat loop
Ended-Settled conns nat e = (
  e.out,
  e.found,
  λ s.
      let c : count s (filled e.out.conns) ≡ 0 = ap (λ l. count s (filled l)) e.no_conns in
      let n : count s (filled (e.out.nat ∷ [])) ≡ 0 =
        ap (λ o. count s (filled (o ∷ []))) e.no_nat in
      omega (arith, e.balanced.account s, c, n, filled-append nat conns s),
)
