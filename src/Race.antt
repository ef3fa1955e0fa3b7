-- ===== src/Race.antt =====
-- common/ft/ft_lan.c, with `ft_connect_any` of common/ft/ft_addr.c and `ft_parse_addr` of
-- common/ft/ft_socket.c: the races for a connection, in their poll(2) form.
--
-- A socket is a number. A `Round` is what the system answers in one turn of a loop, so that a stream
-- of rounds is everything that can come from outside. The sockets that are accepted and closed are
-- logged.
pub mod Keyed
pub mod Count
pub mod Ending
pub mod Plain
pub mod Trusted
pub mod Vouched
pub mod Verdict
mod Tests
use sync_clipboard.Prelude.{
  Bool, Bytes, List, Option, [], false, if◌then◌else◌, ltb, none, some, suc, take, true, zero, ℕ,
  ◌%◌, ◌&&◌, ◌++◌, ◌+◌, ◌/◌, ◌==◌, ◌^◌, ◌∷◌,
}
use sync_clipboard.Prelude.Int.{ℤ, to_u64}
use sync_clipboard.Net.{World}
use sync_clipboard.Config.Number.{atoi}

pub record Round : Type 0 where
  -- the milliseconds since the loop began, at its head
  pub now : ℕ
  -- what `accept` returns; `none` also if the listening socket is not readable
  pub incoming : Option ℕ
  -- POLLOUT, and POLLERR or POLLHUP
  pub writable : ℕ → Bool
  pub broken : ℕ → Bool
  -- SO_ERROR is 0
  pub connected : ℕ → Bool
  -- the connection behind a socket
  pub peer : ℕ → World

pub record Race : Type 0 where
  pub conns : List (Option ℕ)
  pub nat : Option ℕ
  pub result : Option ℕ
  pub accepted : List ℕ
  pub closed : List ℕ

-- `strrchr(s, ':')`: what stands before and behind the last one.
unfoldable pub split_last : Bytes → Option (Bytes × Bytes)
split_last [] = none
split_last (c ∷ cs) =
    let here = if c == b':' then some ([], cs) else none in
    elim (split_last cs) [ none ↦ here | some (ip, port) ↦ some (c ∷ ip, port) ]

-- `ft_parse_addr`: the address and the port; `inet_pton` belongs to the system.
unfoldable pub parse_addr : (Bytes → Option ℕ) → Bytes → Option (ℕ × ℕ)
unfolding split_last atoi
parse_addr inet_pton s = elim (split_last (take 63 s)) [
  | none ↦ none
  | some (ip, port) ↦ elim (inet_pton ip) [
    | none ↦ none
    | some addr ↦ some (addr, to_u64 (atoi port) % 2 ^ 16)
  ]
]

-- The loop that starts the connections, with what `socket` returns, call by call.
unfoldable pub start_connects : (Bytes → Option ℕ) → List (Option ℕ) → List Bytes → List (Option ℕ)
unfolding parse_addr
start_connects inet_pton answers [] = []
start_connects inet_pton [] (a ∷ addrs) = none ∷ start_connects inet_pton [] addrs
start_connects inet_pton (s ∷ answers) (a ∷ addrs) =
    let used = start_connects inet_pton answers addrs in
    let unused = start_connects inet_pton (s ∷ answers) addrs in
    elim (parse_addr inet_pton a) [ none ↦ none ∷ unused | some sa ↦ s ∷ used ]

-- `ft_lan_transfer` and `ft_connect_any`: the peers in their order, up to the first that is
-- connected; its slot is emptied.
unfoldable pub pick : Round → List (Option ℕ) → Option ℕ × List (Option ℕ)
pick r [] = (none, [])
pick r (none ∷ slots) = let rest = pick r slots in (rest.0, none ∷ rest.1)
pick r (some s ∷ slots) =
    let rest = pick r slots in
    if r.writable s && r.connected s then (some s, none ∷ slots) else (rest.0, some s ∷ rest.1)

abbrev pub is_none {ℓ} : {A : Type ℓ} → Option A → Bool
is_none none = true
is_none (some a) = false

-- A connection on the listening socket, if there is one.
abbrev pub incoming_on : Bool → Round → Option ℕ
incoming_on listening r = if listening then r.incoming else none

-- The three parts of a turn of `ft_lan_transfer`.
unfoldable pub accept_plain : Option ℕ → Race → Race
accept_plain none race = race
accept_plain (some c) race = record race { result = some c; accepted = c ∷ race.accepted }

unfoldable pub peers_plain : Round → Race → Race
unfolding pick
peers_plain r race =
    let picked = pick r race.conns in
    let tried = record race { conns = picked.1; result = picked.0 } in
    if is_none race.result then tried else race

unfoldable pub nat_plain : Round → Option ℕ → Race → Race
nat_plain r none race = race
nat_plain r (some s) race =
    if is_none race.result && (r.writable s && r.connected s)
    then record race { nat = none; result = some s }
    else race

unfoldable pub round_plain : Bool → Round → Race → Race
unfolding accept_plain peers_plain nat_plain
round_plain listening r race =
    let greeted = peers_plain r (accept_plain (incoming_on listening r) race) in
    nat_plain r greeted.nat greeted

abbrev pub filled : List (Option ℕ) → List ℕ
filled [] = []
filled (none ∷ slots) = filled slots
filled (some s ∷ slots) = s ∷ filled slots

-- What follows the loops: every socket that is still in a slot is closed.
unfoldable pub close_slots : Race → Race
close_slots race = record race {
  conns = [];
  nat = none;
  closed = filled (race.nat ∷ race.conns) ++ race.closed;
}

-- The loop of `ft_lan_transfer`, on fuel; `elapsed` grows by 50 in a turn. `none` for want of fuel.
unfoldable pub loop_plain : ℕ → (ℕ → Round) → Bool → ℕ → ℕ → Race → Option Race
unfolding round_plain close_slots
loop_plain zero rounds listening timeout elapsed race = none
loop_plain (suc fuel) rounds listening timeout elapsed race =
    let next =
      loop_plain fuel (λ k. rounds (suc k)) listening timeout (elapsed + 50)
        (round_plain listening (rounds 0) race) in
    if ltb elapsed timeout && is_none race.result then next else some (close_slots race)

abbrev pub start : List (Option ℕ) → Option ℕ → Race
start conns nat = record { conns = conns; nat = nat; result = none; accepted = []; closed = [] }

-- `ft_lan_transfer`, once the connections are started.
unfoldable pub lan_transfer : (ℕ → Round) → Bool → List (Option ℕ) → Option ℕ → ℕ → Option Race
unfolding loop_plain
lan_transfer rounds listening conns nat timeout =
    loop_plain (timeout / 50 + 2) rounds listening timeout 0 (start conns nat)

abbrev pub is_nil : List ℕ → Bool
is_nil [] = true
is_nil (s ∷ ss) = false

-- The loop of `ft_connect_any`, which also ends if no slot is filled.
unfoldable pub loop_any : ℕ → (ℕ → Round) → ℕ → ℕ → Race → Option Race
unfolding peers_plain close_slots
loop_any zero rounds timeout elapsed race = none
loop_any (suc fuel) rounds timeout elapsed race =
    let next =
      loop_any fuel (λ k. rounds (suc k)) timeout (elapsed + 50) (peers_plain (rounds 0) race) in
    if ltb elapsed timeout && is_none race.result
    then (if is_nil (filled race.conns) then some (close_slots race) else next)
    else some (close_slots race)

-- `ft_connect_any`, once the connections are started; with `count <= 0` it has none to try, and
-- the loop ends at once.
unfoldable pub connect_any : (ℕ → Round) → List (Option ℕ) → ℕ → Option Race
unfolding loop_any
connect_any rounds conns timeout = loop_any (timeout / 50 + 2) rounds timeout 0 (start conns none)
