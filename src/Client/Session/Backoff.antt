-- ===== src/Client/Session/Backoff.antt =====
-- linux/main.c: how long the loop of `main` sleeps between its attempts.
use sync_clipboard.Client.Session.{capped, dial, doubled, on_established, on_lost}
use sync_clipboard.Client.State.{Client, Env, as_list, fresh}
use sync_clipboard.Config.{ClientConfig}
use sync_clipboard.Prelude.{
  All, All-append, Bool, List, Option, [], ap, arith, false, if-both, maybe-both, not, refl, some,
  subst, sym, ℕ, ◌++◌, ◌||◌, ◌∷◌, ◌≡◌, ◌≤◌,
}

-- What the loop and the callback do about the connection.
pub data Event : Type 0 where
  tried : Bool → Bool → Event
  came_up : Env → Event
  went_down : Event

-- The seconds slept, in order, and the client.
unfoldable pub attempts : ClientConfig → List Event → Client → List ℕ × Client
unfolding dial on_established on_lost
attempts cfg [] c = ([], c)
attempts cfg (tried has_tokens answers ∷ events) c =
    let turn = dial has_tokens answers c in
    let rest = attempts cfg events turn.1 in (as_list turn.0 ++ rest.0, rest.1)
attempts cfg (came_up env ∷ events) c = attempts cfg events (on_established cfg env c)
attempts cfg (went_down ∷ events) c = attempts cfg events (on_lost c)

-- The delays that doubling and the cap lead to.
data IsDelay : ℕ → Type 0 where
  one : IsDelay 1
  two : IsDelay 2
  four : IsDelay 4
  eight : IsDelay 8
  sixteen : IsDelay 16
  half : IsDelay 32
  full : IsDelay 60
  over : IsDelay 64

doubled-IsDelay : (d : ℕ) → IsDelay d → IsDelay (doubled d)
doubled-IsDelay _ one = two
doubled-IsDelay _ two = four
doubled-IsDelay _ four = eight
doubled-IsDelay _ eight = sixteen
doubled-IsDelay _ sixteen = half
doubled-IsDelay _ half = over
doubled-IsDelay _ full = full
doubled-IsDelay _ over = over

capped-IsDelay : (d : ℕ) → IsDelay d → IsDelay (capped d)
capped-IsDelay _ one = one
capped-IsDelay _ two = two
capped-IsDelay _ four = four
capped-IsDelay _ eight = eight
capped-IsDelay _ sixteen = sixteen
capped-IsDelay _ half = half
capped-IsDelay _ full = full
capped-IsDelay _ over = full

IsDelay-bounds : (d : ℕ) → IsDelay d → (1 ≤ d) × (d ≤ 64)
IsDelay-bounds _ one = (omega arith, omega arith)
IsDelay-bounds _ two = (omega arith, omega arith)
IsDelay-bounds _ four = (omega arith, omega arith)
IsDelay-bounds _ eight = (omega arith, omega arith)
IsDelay-bounds _ sixteen = (omega arith, omega arith)
IsDelay-bounds _ half = (omega arith, omega arith)
IsDelay-bounds _ full = (omega arith, omega arith)
IsDelay-bounds _ over = (omega arith, omega arith)

abbrev pub InRange : ℕ → Type 0
InRange d = (1 ≤ d) × (d ≤ 64)

-- A turn sleeps for the delay that it found, and leaves a delay.
abbrev IsTurn : Option ℕ × Client → Type 0
IsTurn turn = All InRange (as_list turn.0) × IsDelay turn.1.reconnect_delay

dial-IsTurn :
    (has_tokens answers : Bool) (c : Client)
    → IsDelay c.reconnect_delay
    → IsTurn (dial has_tokens answers c)
unfolding dial
dial-IsTurn has_tokens answers c d =
    let slept = IsDelay-bounds c.reconnect_delay d in
    let after = doubled-IsDelay c.reconnect_delay d in
    if-both IsTurn (c.connected || c.has_wsi) _ _ (λ h. (tt, d))
      (λ h.
        if-both IsTurn (not has_tokens) _ _ (λ g. ((slept, tt), after))
          (λ g.
            if-both IsTurn answers _ _ (λ k. (tt, d)) (λ k. ((slept, tt), capped-IsDelay _ after))))

on_established-delay :
    (cfg : ClientConfig) (env : Env) (c : Client) → (on_established cfg env c).reconnect_delay ≡ 1
unfolding on_established
on_established-delay cfg env c =
    maybe-both (λ (d : Client). d.reconnect_delay ≡ 1) _ _ _ (λ e. refl) (λ msg e. refl)

attempts-All :
    (cfg : ClientConfig) (events : List Event) (c : Client)
    → IsDelay c.reconnect_delay
    → All InRange (attempts cfg events c).0
unfolding attempts on_lost
attempts-All cfg [] c d = tt
attempts-All cfg (tried has_tokens answers ∷ events) c d =
    let (slept, after) = dial-IsTurn has_tokens answers c d in
    All-append InRange (as_list (dial has_tokens answers c).0) _ slept
      (attempts-All cfg events _ after)
attempts-All cfg (came_up env ∷ events) c d =
    attempts-All cfg events _ (subst IsDelay (sym (on_established-delay cfg env c)) one)
attempts-All cfg (went_down ∷ events) c d = attempts-All cfg events (on_lost c) d

dial_down : (c : Client) → c.reconnect_delay ≡ 1 → (dial false false (on_lost c)).0 ≡ some 1
unfolding dial on_lost
dial_down c e = ap some e

-- Whatever the server does, the loop sleeps between 1 and 64 seconds each time; and where a connection
-- came about and was lost, the next attempt that fails for want of tokens sleeps for 1 second.
pub attempts-InRange :
    (cfg : ClientConfig) (events : List Event)
    → All InRange (attempts cfg events fresh).0
      × ((env : Env) (c : Client)
          → (dial false false (on_lost (on_established cfg env c))).0 ≡ some 1)
attempts-InRange cfg events = (
  attempts-All cfg events fresh one,
  λ env c. dial_down (on_established cfg env c) (on_established-delay cfg env c),
)
