-- ===== src/Setup/Addresses.antt =====
-- common/ft/ft_addr.c: which addresses a client announces.
use sync_clipboard.Prelude.{
  Bool, Bool-cases, Bytes, List, [], ap, arith, codes, if-both, if◌then◌else◌, inl, inr, length,
  map, maybe, none, not, refl, same, some, suc, sym, take, zero, ℕ, ◌&&◌, ◌++◌, ◌-◌, ◌==◌, ◌∙◌, ◌∷◌,
  ◌≡◌,
}
use sync_clipboard.Setup.{
  Adapter, Interface, adapter_loop, endpoint, unicast_loop, unix_addresses, unix_loop,
  win_addresses,
}

-- The addresses of IPv4 interfaces that are up and not the loopback.
unfoldable pub usable : List Interface → List Bytes
usable [] = []
usable (i ∷ interfaces) =
    let rest = usable interfaces in
    if i.is_inet && (not i.loopback && i.up) then i.ip ∷ rest else rest

-- On Windows: the IPv4 addresses of adapters that are up, but 127.0.0.1.
unfoldable pub usable_unicast : List (Bool × Bytes) → List Bytes
unfolding same
usable_unicast [] = []
usable_unicast ((inet, ip) ∷ addresses) =
    let rest = usable_unicast addresses in
    if inet && not (same ip (codes "127.0.0.1")) then ip ∷ rest else rest

unfoldable pub win_usable : List Adapter → List Bytes
unfolding usable_unicast
win_usable [] = []
win_usable (a ∷ adapters) =
    let rest = win_usable adapters in if a.is_up then usable_unicast a.unicast ++ rest else rest

-- The first n of them, each with the port.
abbrev pub first_ends : ℕ → ℕ → List Bytes → List Bytes
first_ends n port ips = take n (map (endpoint port) ips)

unix_loop-usable :
    (n port : ℕ) (interfaces : List Interface)
    → unix_loop n port interfaces ≡ first_ends n port (usable interfaces)
unfolding unix_loop usable
unix_loop-usable zero port interfaces = refl
unix_loop-usable (suc n) port [] = refl
unix_loop-usable (suc n) port (i ∷ interfaces) =
    let more = unix_loop-usable n port interfaces in
    let same_slots = unix_loop-usable (suc n) port interfaces in
    elim (Bool-cases i.is_inet) [
      | inr e ↦ rw e same_slots
      | inl e ↦ elim (Bool-cases i.loopback) [
        | inl l ↦ rw (e, l) same_slots
        | inr l ↦ elim (Bool-cases i.up) [
          | inr u ↦ rw (e, l, u) same_slots
          | inl u ↦ rw (e, l, u) (ap (◌∷◌ (endpoint port i.ip)) more)
        ]
      ]
    ]

unicast_loop-usable :
    (n port : ℕ) (addresses : List (Bool × Bytes))
    → unicast_loop n port addresses ≡ first_ends n port (usable_unicast addresses)
unfolding unicast_loop usable_unicast
unicast_loop-usable zero port addresses = refl
unicast_loop-usable (suc n) port [] = refl
unicast_loop-usable (suc n) port ((inet, ip) ∷ addresses) =
    let more = unicast_loop-usable n port addresses in
    let same_slots = unicast_loop-usable (suc n) port addresses in
    elim (Bool-cases inet) [
      | inr e ↦ rw e same_slots
      | inl e ↦ elim (Bool-cases (same ip (codes "127.0.0.1"))) [
        | inl l ↦ rw (e, l) same_slots
        | inr l ↦ rw (e, l) (ap (◌∷◌ (endpoint port ip)) more)
      ]
    ]

-- A cut through two lists.
take_through :
    (n : ℕ) (xs ys : List Bytes) → take n (xs ++ ys) ≡ take n xs ++ take (n - length (take n xs)) ys
take_through zero [] ys = refl
take_through (suc n) [] ys =
    let all_left : suc n ≡ suc n - 0 = omega arith in ap (λ m. take m ys) all_left
take_through zero (x ∷ xs) ys = refl
take_through (suc n) (x ∷ xs) ys =
    let used = length (take n xs) in
    let left : n - used ≡ suc n - suc used = omega arith in
    ap (◌∷◌ x) (take_through n xs ys ∙ ap (λ m. take n xs ++ take m ys) left)

map-append : (f : Bytes → Bytes) (xs ys : List Bytes) → map f (xs ++ ys) ≡ map f xs ++ map f ys
map-append f [] ys = refl
map-append f (x ∷ xs) ys = ap (◌∷◌ (f x)) (map-append f xs ys)

slots_left : (n : ℕ) (xs ys : List Bytes) → xs ≡ ys → (if suc n == 0 then [] else xs) ≡ ys
slots_left n xs ys e =
    if-both (λ (zs : List Bytes). zs ≡ ys) (suc n == 0) _ _ (λ z. absurd (ground arith)) (λ z. e)

adapter_loop-usable :
    (n port : ℕ) (adapters : List Adapter)
    → adapter_loop n port adapters ≡ first_ends n port (win_usable adapters)
unfolding adapter_loop win_usable
adapter_loop-usable zero port [] = refl
adapter_loop-usable (suc n) port [] = refl
adapter_loop-usable zero port (a ∷ adapters) = refl
adapter_loop-usable (suc n) port (a ∷ adapters) =
    let ends : List Bytes → List Bytes = map (endpoint port) in
    let own = unicast_loop (suc n) port a.unicast in
    let left = suc n - length own in
    let mine : own ≡ take (suc n) (ends (usable_unicast a.unicast)) =
      unicast_loop-usable (suc n) port a.unicast in
    let rest = win_usable adapters in
    let later : adapter_loop left port adapters ≡ take left (ends rest) =
      adapter_loop-usable left port adapters in
    let both : own ++ adapter_loop left port adapters
        ≡ take (suc n) (ends (usable_unicast a.unicast ++ rest)) =
      ap (λ r. own ++ r) later
      ∙ ap (λ o. o ++ take (suc n - length o) (ends rest)) mine
      ∙ sym (take_through (suc n) (ends (usable_unicast a.unicast)) (ends rest))
      ∙ ap (take (suc n)) (sym (map-append (endpoint port) (usable_unicast a.unicast) rest)) in
    elim (Bool-cases a.is_up) [
      | inr u ↦ rw u (slots_left n _ _ (adapter_loop-usable (suc n) port adapters))
      | inl u ↦ rw u (slots_left n _ _ both)
    ]

-- What is announced is the first eight, in the order of the system, of the IPv4 addresses that are up
-- and not the loopback, each with the port; on Windows the loopback is 127.0.0.1. If the system gives
-- no list, nothing is announced.
pub addresses-usable :
    (port : ℕ) (interfaces : List Interface) (adapters : List Adapter)
    → (unix_addresses port (some interfaces) ≡ first_ends 8 port (usable interfaces))
      × (win_addresses port (some adapters) ≡ first_ends 8 port (win_usable adapters))
      × (unix_addresses port none ≡ [])
      × (win_addresses port none ≡ [])
unfolding unix_addresses win_addresses maybe
addresses-usable port interfaces adapters =
    (unix_loop-usable 8 port interfaces, adapter_loop-usable 8 port adapters, refl, refl)
