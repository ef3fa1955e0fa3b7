-- ===== src/Setup/Parsed.antt =====
-- common/ft/ft_addr.c and common/ft/ft_socket.c: an address that one client announces is what another
-- one parses.
use sync_clipboard.Prelude.Int.{to_u64}
use sync_clipboard.Setup.Printed.{IsDigits, atoi-print_int, length-print_loop, print_loop-IsDigits}
use sync_clipboard.Prelude.Int.{to_u64}
use sync_clipboard.Config.Number.{atoi}
use mathlib.Core.Option
use sync_clipboard.Prelude.{
  All, Bytes, List, Option, [], ap, ap₂, arith, false, length, length-append, map, none, refl, some,
  suc, sym, take, take_all, zero, ℕ, ◌%◌, ◌++◌, ◌<◌, ◌==◌, ◌^◌, ◌∙◌, ◌∷◌, ◌≡◌, ◌≤◌,
}
use sync_clipboard.Setup.{Adapter, Interface, endpoint, print_int, unix_addresses, win_addresses}
use sync_clipboard.Client.State.{copy_in}
use sync_clipboard.Race.{parse_addr, split_last}
use sync_clipboard.Setup.Addresses.{addresses-usable, first_ends, usable, win_usable}

-- `s` has no colon.
abbrev pub NoColon : Bytes → Type 0
NoColon s = All (λ c. (c == b':') ≡ false) s

split_none : (s : Bytes) → NoColon s → split_last s ≡ none
unfolding split_last
split_none [] h = refl
split_none (c ∷ s) (d, h) = rw (split_none s h, d) refl

split_last-colon : (ip ds : Bytes) → NoColon ds → split_last (ip ++ b':' ∷ ds) ≡ some (ip, ds)
unfolding split_last
split_last-colon [] ds h = rw (split_none ds h) refl
split_last-colon (c ∷ ip) ds h = rw (split_last-colon ip ds h) refl

IsDigits-NoColon : (s : Bytes) → IsDigits s → NoColon s
IsDigits-NoColon [] h = tt
IsDigits-NoColon (c ∷ s) ((low, high), h) = (ground arith, IsDigits-NoColon s h)

parse_addr_at :
    (inet_pton : Bytes → Option ℕ) (s ip port : Bytes) (a : ℕ)
    → split_last (take 63 s) ≡ some (ip, port)
    → inet_pton ip ≡ some a
    → parse_addr inet_pton s ≡ some (a, to_u64 (atoi port) % 2 ^ 16)
unfolding parse_addr
parse_addr_at inet_pton s ip port a splits reads =
    let placed : Bytes → Option ℕ → Option (ℕ × ℕ) =
      λ p r. elim r [ none ↦ none | some addr ↦ some (addr, to_u64 (atoi p) % 2 ^ 16) ] in
    let judged : Option (Bytes × Bytes) → Option (ℕ × ℕ) =
      λ o. elim o [ none ↦ none | some (i, p) ↦ placed p (inet_pton i) ] in
    let first : parse_addr inet_pton s ≡ placed port (inet_pton ip) = ap judged splits in
    first ∙ ap (placed port) reads

-- An address that `inet_pton` reads, with a port, survives the way to another client.
pub parse_addr-endpoint :
    (inet_pton : Bytes → Option ℕ) (ip : Bytes) (a port : ℕ)
    → inet_pton ip ≡ some a
    → length ip ≤ 45
    → port < 2 ^ 16
    → parse_addr inet_pton (copy_in 64 (some (endpoint port ip)) []) ≡ some (a, port)
unfolding endpoint print_int
parse_addr-endpoint inet_pton ip a port reads short small =
    let text : Bytes = ip ++ b':' ∷ print_int port in
    let size : length text ≤ 63 =
      omega (arith, length-append ip (b':' ∷ print_int port), length-print_loop 10 port) in
    let once : take 63 text ≡ text = take_all 63 text size in
    let kept_whole : take 63 (take 63 (take 63 text)) ≡ text =
      ap (λ t. take 63 (take 63 t)) once ∙ ap (take 63) once ∙ once in
    let split =
      split_last-colon ip (print_int port) (IsDigits-NoColon _ (print_loop-IsDigits 10 port)) in
    let number : to_u64 (atoi (print_int port)) % 2 ^ 16 ≡ port =
      ap (λ z. to_u64 z % 2 ^ 16) (atoi-print_int port (omega (arith, small)))
      ∙ omega (arith, small) in
    parse_addr_at inet_pton (copy_in 64 (some (endpoint port ip)) []) ip (print_int port) a
      (ap split_last kept_whole ∙ split) reads
    ∙ ap (λ p. some (a, p)) number

-- An address in text that `inet_pton` reads.
abbrev pub IsReadable : (Bytes → Option ℕ) → Bytes → Type 0
IsReadable inet_pton ip = (length ip ≤ 45) × ((a : ℕ) × (inet_pton ip ≡ some a))

-- What a client parses that copies a string into its list of peers.
abbrev pub parsed : (Bytes → Option ℕ) → Bytes → Option (ℕ × ℕ)
parsed inet_pton s = parse_addr inet_pton (copy_in 64 (some s) [])

-- An address and the port.
abbrev pub at_port : (Bytes → Option ℕ) → ℕ → Bytes → Option (ℕ × ℕ)
at_port inet_pton port ip = Option.map (λ a. (a, port)) (inet_pton ip)

module _ (inet_pton : Bytes → Option ℕ) (port : ℕ) (small : port < 2 ^ 16) where
  parsed-first_ends :
      (n : ℕ) (ips : List Bytes)
      → All (IsReadable inet_pton) ips
      → map (parsed inet_pton) (first_ends n port ips) ≡ map (at_port inet_pton port) (take n ips)
  parsed-first_ends zero ips h = refl
  parsed-first_ends (suc n) [] h = refl
  parsed-first_ends (suc n) (ip ∷ ips) ((short, read), h) =
      let (a, reads) = read in
      let own : parsed inet_pton (endpoint port ip) ≡ at_port inet_pton port ip =
        parse_addr-endpoint inet_pton ip a port reads short small
        ∙ sym (ap (Option.map (λ b. (b, port))) reads) in
      ap₂ ◌∷◌ own (parsed-first_ends n ips h)

  -- Where the system gives addresses in text that `inet_pton` reads, of 45 characters at most, and the
  -- port is below 65536: what another client parses, when it copies what a client has announced into its
  -- list of peers, is on either system the first eight usable addresses, in their order, each with just
  -- this port. Usable are the IPv4 addresses of what is up, but for the loopback.
  pub addresses-parsed :
      (interfaces : List Interface) (adapters : List Adapter)
      → All (IsReadable inet_pton) (usable interfaces)
      → All (IsReadable inet_pton) (win_usable adapters)
      → let here = unix_addresses port (some interfaces) in
        let there = win_addresses port (some adapters) in
        (map (parsed inet_pton) here ≡ map (at_port inet_pton port) (take 8 (usable interfaces)))
        × (map (parsed inet_pton) there
            ≡ map (at_port inet_pton port) (take 8 (win_usable adapters)))
  addresses-parsed interfaces adapters unix_read win_read =
      let (e, f, _, _) = addresses-usable port interfaces adapters in
      (
        ap (map (parsed inet_pton)) e ∙ parsed-first_ends 8 (usable interfaces) unix_read,
        ap (map (parsed inet_pton)) f ∙ parsed-first_ends 8 (win_usable adapters) win_read,
      )
