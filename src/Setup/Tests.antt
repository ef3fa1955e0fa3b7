-- ===== src/Setup/Tests.antt =====
-- Runs of the sockets and addresses, and the witnesses of their theorems.

use sync_clipboard.Codec.{is_space, skip_space}
use sync_clipboard.Config.Number.{atoi, digits_value, signed_value}
use sync_clipboard.Prelude.{
  Bytes, List, Option, [], arith, codes, false, if◌then◌else◌, length, map, maybe, none, refl, same,
  some, take, true, ℕ, ◌∷◌, ◌≡◌,
}
use sync_clipboard.Race.{parse_addr, split_last}
use sync_clipboard.Setup.{
  Adapter, Interface, Ledger, accept_one, discover_public, endpoint, nat_punch, nat_punch_start,
  print_int, print_loop, punches, start_server, unix_addresses, unix_loop, win_addresses,
}
use sync_clipboard.Setup.Addresses.{usable, usable_unicast, win_usable}
use sync_clipboard.Setup.Parsed.{addresses-parsed, at_port, parsed}
use sync_clipboard.Setup.Settled.{Accounts, sockets-Accounts}

abbrev interfaces : List Interface
interfaces =
    record { is_inet = true; loopback = true; up = true; ip = codes "127.0.0.1" }
    ∷ record { is_inet = false; loopback = false; up = true; ip = [] }
    ∷ record { is_inet = true; loopback = false; up = true; ip = codes "10.0.0.2" }
    ∷ record { is_inet = true; loopback = false; up = false; ip = codes "10.0.0.3" }
    ∷ []

run : unix_addresses 4000 (some interfaces) ≡ codes "10.0.0.2:4000" ∷ []
unfolding unix_addresses unix_loop endpoint print_int print_loop maybe
run = refl

-- A system that knows one address.
abbrev known : Bytes → Option ℕ
known ip = if same ip (codes "10.0.0.2") then some 167772162 else none

abbrev adapter : Adapter
adapter = record {
  is_up = true;
  unicast = (true, codes "127.0.0.1") ∷ (true, codes "10.0.0.2") ∷ [];
}

addresses-parsed_example :
    let here = unix_addresses 4000 (some interfaces) in
    let there = win_addresses 4000 (some (adapter ∷ [])) in
    (map (parsed known) here ≡ map (at_port known 4000) (take 8 (usable interfaces)))
    × (map (parsed known) there ≡ map (at_port known 4000) (take 8 (win_usable (adapter ∷ []))))
unfolding same usable win_usable usable_unicast
addresses-parsed_example =
    addresses-parsed known 4000 (omega arith) interfaces (adapter ∷ [])
      ((omega arith, (167772162, refl)), tt) ((omega arith, (167772162, refl)), tt)

abbrev no_sockets : Ledger
no_sockets = record { opened = []; closed = []; datagrams = [] }

sockets-Accounts_example :
    let listening = start_server (some 5) false 4000 true no_sockets in
    let accepted = accept_one false (some 5) no_sockets in
    let started = nat_punch_start known (codes "10.0.0.2:9") (some 5) (some 6) no_sockets in
    let punched = nat_punch known (codes "10.0.0.2:9") (some 5) (some 6) false no_sockets in
    let found = discover_public (some 6) (some (1, 9)) (some (codes "1.2.3.4:5")) 64 no_sockets in
    Accounts no_sockets listening.0 listening.2
    × Accounts no_sockets accepted.0 accepted.1
    × Accounts no_sockets started.0 started.1
    × Accounts no_sockets punched.0 punched.1
    × Accounts no_sockets none found.1
sockets-Accounts_example =
    sockets-Accounts known (codes "10.0.0.2:9") (some 5) (some 6) (some (1, 9))
      (some (codes "1.2.3.4:5")) 64 4000 false true no_sockets

-- Three datagrams go out before the socket is returned, and the endpoint is what came back.
punch_run :
    (length (nat_punch_start known (codes "10.0.0.2:9") (some 5) (some 6) no_sockets).1.datagrams
      ≡ 3)
    × ((discover_public (some 6) (some (1, 9)) (some (codes "1.2.3.4:5")) 64 no_sockets).0
        ≡ some (codes "1.2.3.4:5"))
unfolding nat_punch_start punches parse_addr split_last atoi signed_value skip_space is_space
    digits_value discover_public same maybe
punch_run = (refl, refl)
