-- ===== src/Race/Keyed.antt =====
-- `ft_lan_transfer_auth` of common/ft/ft_lan.c: the race with the handshake in its loop.
use sync_clipboard.Prelude.{
  Bool, Bytes, List, Option, [], false, if◌then◌else◌, ltb, none, some, suc, true, zero, ℕ, ◌&&◌,
  ◌++◌, ◌||◌, ◌∷◌,
}
use sync_clipboard.Net.{Ret, World, done, fail, undefined}
use sync_clipboard.Auth.{auth_recv, auth_send}
use sync_clipboard.Race.{
  Race, Round, close_slots, incoming_on, is_nil, is_none, lan_transfer, start,
}

-- What `ft_lan_transfer_auth` proves itself with.
pub record Identity : Type 0 where
  pub hmac : Bytes → Bytes → Bytes
  pub file_id : Bytes
  pub key_hex : Bytes
  pub is_sender : Bool

abbrev pub succeeded : Ret (Unit {0}) → Bool
succeeded (done u) = true
succeeded fail = false
succeeded undefined = false

-- `try_authenticate(c, ...) == 0`, on the connection behind the socket.
unfoldable pub authenticates : Identity → World → Bool
unfolding auth_send auth_recv
authenticates self w =
    if self.is_sender
    then succeeded (auth_send self.hmac self.file_id self.key_hex w).0
    else succeeded (auth_recv self.hmac self.file_id self.key_hex w).0

-- `try_authenticate` closes the socket on failure.
unfoldable pub settle : Bool → ℕ → Race → Race
settle true c race = record race { result = some c }
settle false c race = record race { closed = c ∷ race.closed }

unfoldable pub accept_auth : Identity → Round → Option ℕ → Race → Race
unfolding settle
accept_auth self r none race = race
accept_auth self r (some c) race =
    settle (authenticates self (r.peer c)) c (record race { accepted = c ∷ race.accepted })

-- What became of the peers: the one that is taken, the slots, and the sockets that were closed.
pub record Picked : Type 0 where
  pub found : Option ℕ
  pub left : List (Option ℕ)
  pub dropped : List ℕ

-- The `for` loop over the peers in `ft_lan_transfer_auth`.
unfoldable pub pick_auth : Identity → Round → List (Option ℕ) → Picked
pick_auth self r [] = record { found = none; left = []; dropped = [] }
pick_auth self r (none ∷ slots) =
    let rest = pick_auth self r slots in record rest { left = none ∷ rest.left }
pick_auth self r (some s ∷ slots) =
    let rest = pick_auth self r slots in
    let drop_it = record rest { left = none ∷ rest.left; dropped = s ∷ rest.dropped } in
    if r.writable s || r.broken s
    then (if r.connected s
        then (if authenticates self (r.peer s)
            then record { found = some s; left = none ∷ slots; dropped = [] }
            else drop_it)
        else drop_it)
    else record rest { left = some s ∷ rest.left }

unfoldable pub peers_auth : Identity → Round → Race → Race
unfolding pick_auth
peers_auth self r race =
    let picked = pick_auth self r race.conns in
    let tried = record race {
      conns = picked.left;
      result = picked.found;
      closed = picked.dropped ++ race.closed;
    } in
    if is_none race.result then tried else race

unfoldable pub nat_auth : Identity → Round → Option ℕ → Race → Race
unfolding settle
nat_auth self r none race = race
nat_auth self r (some s) race =
    if is_none race.result && (r.writable s || r.broken s)
    then settle (r.connected s && authenticates self (r.peer s)) s (record race { nat = none })
    else race

unfoldable pub round_auth : Identity → Bool → Round → Race → Race
unfolding accept_auth peers_auth nat_auth
round_auth self listening r race =
    let greeted = peers_auth self r (accept_auth self r (incoming_on listening r) race) in
    nat_auth self r greeted.nat greeted

-- The loop of `ft_lan_transfer_auth`, by the clock. `none` for want of fuel.
unfoldable pub loop_auth : ℕ → (ℕ → Round) → Identity → Bool → ℕ → Race → Option Race
unfolding round_auth close_slots
loop_auth zero rounds self listening timeout race = none
loop_auth (suc fuel) rounds self listening timeout race =
    let next =
      loop_auth fuel (λ k. rounds (suc k)) self listening timeout
        (round_auth self listening (rounds 0) race) in
    if is_none race.result && ltb (rounds 0).now timeout then next else some (close_slots race)

-- `ft_lan_transfer_auth`, once the connections are started: an empty key means no authentication.
unfoldable pub lan_transfer_auth :
    ℕ → (ℕ → Round) → Identity → Bool → List (Option ℕ) → Option ℕ → ℕ → Option Race
unfolding lan_transfer loop_auth
lan_transfer_auth fuel rounds self listening conns nat timeout =
    if is_nil self.key_hex
    then lan_transfer rounds listening conns nat timeout
    else loop_auth fuel rounds self listening timeout (start conns nat)
