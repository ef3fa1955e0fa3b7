-- ===== src/Setup.antt =====
-- common/ft/ft_addr.c and common/ft/ft_nat.c: the sockets that a transfer begins with, and the addresses
-- at which it can be reached. What the calls of the system return are arguments; options of a socket
-- are left out, and of `bind` the result where the code does not look at it.
pub mod Addresses
pub mod Printed
pub mod Parsed
pub mod Settled
mod Tests
use sync_clipboard.Client.State.{ft_max_addrs}
use sync_clipboard.Prelude.{
  Bool, Bytes, List, Option, [], codes, if◌then◌else◌, length, ltb, maybe, none, not, same, some,
  suc, take, zero, ℕ, ◌%◌, ◌++◌, ◌+◌, ◌-◌, ◌/◌, ◌==◌, ◌∷◌,
}
use sync_clipboard.Race.{parse_addr}
use sync_clipboard.Wire.{c_string}

-- An entry of `getifaddrs`: if it has an IPv4 address, its flags, and the address in text.
pub record Interface : Type 0 where
  pub is_inet : Bool
  pub loopback : Bool
  pub up : Bool
  pub ip : Bytes

-- An adapter of `GetAdaptersAddresses`, with its addresses: if each is of IPv4, and the text.
pub record Adapter : Type 0 where
  pub is_up : Bool
  pub unicast : List (Bool × Bytes)

-- `%d` of a number that is not negative, on fuel for its digits.
unfoldable pub print_loop : ℕ → ℕ → Bytes
print_loop zero n = []
print_loop (suc fuel) n =
    let front = print_loop fuel (n / 10) in
    let digit = b'0' + n % 10 in if ltb n 10 then digit ∷ [] else front ++ digit ∷ []

unfoldable pub print_int : ℕ → Bytes
unfolding print_loop
print_int n = print_loop 10 n

-- `snprintf(list->addrs[list->count], 64, "%s:%d", ip, port)`
unfoldable pub endpoint : ℕ → Bytes → Bytes
unfolding print_int
endpoint port ip = take 63 (ip ++ b':' ∷ print_int port)

-- The loop over the interfaces, with the slots that are left.
unfoldable pub unix_loop : ℕ → ℕ → List Interface → List Bytes
unfolding endpoint
unix_loop zero port interfaces = []
unix_loop (suc slots) port [] = []
unix_loop (suc slots) port (i ∷ interfaces) =
    let skipped = unix_loop (suc slots) port interfaces in
    let added = endpoint port i.ip ∷ unix_loop slots port interfaces in
    if not i.is_inet
    then skipped
    else if i.loopback
    then skipped
    else if not i.up
    then skipped
    else added

-- `getifaddrs` may fail.
unfoldable pub unix_addresses : ℕ → Option (List Interface) → List Bytes
unfolding unix_loop
unix_addresses port found = maybe found [] (λ interfaces. unix_loop ft_max_addrs port interfaces)

-- The inner loop on Windows: what it adds.
unfoldable pub unicast_loop : ℕ → ℕ → List (Bool × Bytes) → List Bytes
unfolding endpoint same
unicast_loop zero port addresses = []
unicast_loop (suc slots) port [] = []
unicast_loop (suc slots) port ((inet, ip) ∷ addresses) =
    let skipped = unicast_loop (suc slots) port addresses in
    let added = endpoint port ip ∷ unicast_loop slots port addresses in
    if not inet then skipped else if same ip (codes "127.0.0.1") then skipped else added

unfoldable pub adapter_loop : ℕ → ℕ → List Adapter → List Bytes
unfolding unicast_loop
adapter_loop slots port [] = []
adapter_loop slots port (a ∷ adapters) =
    let skipped = adapter_loop slots port adapters in
    let own = unicast_loop slots port a.unicast in
    let later = adapter_loop (slots - length own) port adapters in
    if slots == 0 then [] else if not a.is_up then skipped else own ++ later

unfoldable pub win_addresses : ℕ → Option (List Adapter) → List Bytes
unfolding adapter_loop
win_addresses port found = maybe found [] (λ adapters. adapter_loop ft_max_addrs port adapters)

-- The sockets opened and closed so far, and the datagrams sent: from which socket, to which address,
-- with which bytes.
pub record Ledger : Type 0 where
  pub opened : List ℕ
  pub closed : List ℕ
  pub datagrams : List (ℕ × (ℕ × ℕ) × Bytes)

abbrev pub gain : ℕ → Ledger → Ledger
gain s g = record g { opened = s ∷ g.opened }

abbrev pub shut : ℕ → Ledger → Ledger
shut s g = record g { closed = s ∷ g.closed }

-- The socket, the port if it was written to `*out_port`, and what was heard.
unfoldable pub start_server : Option ℕ → Bool → ℕ → Bool → Ledger → Option ℕ × Option ℕ × Ledger
start_server sock binds port listens g =
    let failed : Option ℕ × Option ℕ × Ledger = (none, none, g) in
    maybe sock failed (λ fd.
      let unbound : Option ℕ × Option ℕ × Ledger = (none, none, shut fd (gain fd g)) in
      let deaf : Option ℕ × Option ℕ × Ledger = (none, some port, shut fd (gain fd g)) in
      let heard : Option ℕ × Option ℕ × Ledger = (some fd, some port, gain fd g) in
      if not binds then unbound else if not listens then deaf else heard)

-- `ft_accept`, with what `poll` and `accept` say.
unfoldable pub accept_one : Bool → Option ℕ → Ledger → Option ℕ × Ledger
accept_one ready peer g =
    let waiting : Option ℕ × Ledger = (none, g) in
    let taken : Option ℕ × Ledger = maybe peer waiting (λ s. (some s, gain s g)) in
    if ready then taken else waiting

-- n datagrams "PUNCH".
unfoldable pub punches : ℕ → ℕ → ℕ × ℕ → Ledger → Ledger
punches zero s peer g = g
punches (suc n) s peer g =
    let later = punches n s peer g in
    record later { datagrams = (s, peer, codes "PUNCH") ∷ later.datagrams }

-- The UDP socket is closed behind its datagrams.
abbrev pub punch_out : ℕ → Option ℕ → ℕ × ℕ → Ledger → Ledger
punch_out n udp peer g = maybe udp g (λ u. shut u (punches n u peer (gain u g)))

unfoldable pub nat_punch_start :
    (Bytes → Option ℕ) → Bytes → Option ℕ → Option ℕ → Ledger → Option ℕ × Ledger
unfolding parse_addr punches
nat_punch_start inet_pton to_peer tcp udp g =
    let failed : Option ℕ × Ledger = (none, g) in
    maybe (parse_addr inet_pton to_peer) failed
      (λ peer. maybe tcp failed (λ s. (some s, punch_out 3 udp peer (gain s g))))

-- With what comes of the wait for the connection.
unfoldable pub nat_punch :
    (Bytes → Option ℕ) → Bytes → Option ℕ → Option ℕ → Bool → Ledger → Option ℕ × Ledger
unfolding parse_addr punches
nat_punch inet_pton to_peer tcp udp connects g =
    let failed : Option ℕ × Ledger = (none, g) in
    maybe (parse_addr inet_pton to_peer) failed (λ peer. maybe tcp failed (λ s.
      let punched = punch_out 5 udp peer (gain s g) in
      let through : Option ℕ × Ledger = (some s, punched) in
      let blocked : Option ℕ × Ledger = (none, shut s punched) in
      if connects then through else blocked))

-- `ft_discover_public`, with the address of the server, if it can be found, and the datagram that comes
-- back, if one comes in time: the endpoint written to a buffer of `out_len` bytes.
unfoldable pub discover_public :
    Option ℕ → Option (ℕ × ℕ) → Option Bytes → ℕ → Ledger → Option Bytes × Ledger
discover_public sock server reply out_len g =
    let failed : Option Bytes × Ledger = (none, g) in
    maybe sock failed (λ s.
      let lost : Option Bytes × Ledger = (none, shut s (gain s g)) in
      maybe server lost (λ to.
        let asked = record (gain s g) { datagrams = (s, to, codes "DISCOVER") ∷ g.datagrams } in
        let silent : Option Bytes × Ledger = (none, shut s asked) in
        maybe reply silent (λ bytes.
          let said = take (out_len - 1) (c_string (take 127 bytes)) in
          if length bytes == 0 then silent else (some said, shut s asked))))
