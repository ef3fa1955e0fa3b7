-- ===== src/Setup/Settled.antt =====
-- common/ft/ft_addr.c and common/ft/ft_nat.c: what becomes of the sockets that are opened.
use sync_clipboard.Client.State.{as_list}
use sync_clipboard.Prelude.{
  Bool, Bytes, Option, ap, arith, count, if-both, length, maybe-both, none, not, refl, some, suc,
  zero, ℕ, ◌+◌, ◌==◌, ◌≡◌,
}
use sync_clipboard.Race.{parse_addr}
use sync_clipboard.Setup.{
  Ledger, accept_one, discover_public, gain, nat_punch, nat_punch_start, punch_out, punches, shut,
  start_server,
}

-- From g to h, the sockets opened are those closed and the one returned.
unfoldable pub Accounts : Ledger → Option ℕ → Ledger → Type 0
Accounts g result h =
    (fd : ℕ)
    → count fd h.opened + count fd g.closed
      ≡ count fd g.opened + count fd h.closed + count fd (as_list result)

Accounts-same : (g : Ledger) → Accounts g none g
unfolding Accounts
Accounts-same g fd = omega arith

Accounts-shut : (s : ℕ) (g h : Ledger) → Accounts g (some s) h → Accounts g none (shut s h)
unfolding Accounts
Accounts-shut s g h a fd = let b = a fd in omega (arith, b)

Accounts-gain : (s : ℕ) (g : Ledger) → Accounts g (some s) (gain s g)
unfolding Accounts
Accounts-gain s g fd = omega arith

punches-opened :
    (n s : ℕ) (peer : ℕ × ℕ) (g : Ledger)
    → ((punches n s peer g).opened ≡ g.opened) × ((punches n s peer g).closed ≡ g.closed)
unfolding punches
punches-opened zero s peer g = (refl, refl)
punches-opened (suc n) s peer g = punches-opened n s peer g

-- The UDP socket of the punch is closed, whatever else is open.
punch_out-Accounts :
    (n : ℕ) (udp : Option ℕ) (peer : ℕ × ℕ) (r : Option ℕ) (g h : Ledger)
    → Accounts g r h
    → Accounts g r (punch_out n udp peer h)
unfolding Accounts
punch_out-Accounts n udp peer r g h a =
    let P : Ledger → Type 0 = λ x. Accounts g r x in
    maybe-both P udp _ _ (λ e. a)
      (λ u e fd.
        let (o, c) = punches-opened n u peer (gain u h) in
        let e1 = ap (count fd) o in
        let e2 = ap (count fd) c in let b = a fd in omega (arith, e1, e2, b))

module _ (inet_pton : Bytes → Option ℕ) (to_peer : Bytes) (tcp udp : Option ℕ) (g : Ledger) where
  nat_punch_start-Accounts :
      let r = nat_punch_start inet_pton to_peer tcp udp g in Accounts g r.0 r.1
  unfolding nat_punch_start
  nat_punch_start-Accounts =
      let P : Option ℕ × Ledger → Type 0 = λ r. Accounts g r.0 r.1 in
      maybe-both P (parse_addr inet_pton to_peer) _ _ (λ e. Accounts-same g)
        (λ peer e.
          maybe-both P tcp _ _ (λ n. Accounts-same g)
            (λ s n. punch_out-Accounts 3 udp peer (some s) g (gain s g) (Accounts-gain s g)))

  nat_punch-Accounts :
      (connects : Bool)
      → let r = nat_punch inet_pton to_peer tcp udp connects g in Accounts g r.0 r.1
  unfolding nat_punch
  nat_punch-Accounts connects =
      let P : Option ℕ × Ledger → Type 0 = λ r. Accounts g r.0 r.1 in
      maybe-both P (parse_addr inet_pton to_peer) _ _ (λ e. Accounts-same g)
        (λ peer e.
          maybe-both P tcp _ _ (λ n. Accounts-same g)
            (λ s n.
              let out = punch_out 5 udp peer (gain s g) in
              let held = punch_out-Accounts 5 udp peer (some s) g (gain s g) (Accounts-gain s g) in
              if-both P connects _ _ (λ c. held) (λ c. Accounts-shut s g out held)))

start_server-Accounts :
    (sock : Option ℕ) (binds : Bool) (port : ℕ) (listens : Bool) (g : Ledger)
    → let r = start_server sock binds port listens g in Accounts g r.0 r.2
unfolding start_server
start_server-Accounts sock binds port listens g =
    let P : Option ℕ × Option ℕ × Ledger → Type 0 = λ r. Accounts g r.0 r.2 in
    maybe-both P sock _ _ (λ e. Accounts-same g)
      (λ s e.
        let closed = Accounts-shut s g (gain s g) (Accounts-gain s g) in
        if-both P (not binds) _ _ (λ b. closed)
          (λ b. if-both P (not listens) _ _ (λ l. closed) (λ l. Accounts-gain s g)))

accept_one-Accounts :
    (ready : Bool) (peer : Option ℕ) (g : Ledger)
    → let r = accept_one ready peer g in Accounts g r.0 r.1
unfolding accept_one
accept_one-Accounts ready peer g =
    let P : Option ℕ × Ledger → Type 0 = λ r. Accounts g r.0 r.1 in
    if-both P ready _ _
      (λ e. maybe-both P peer _ _ (λ n. Accounts-same g) (λ s n. Accounts-gain s g))
      (λ e. Accounts-same g)

discover_public-Accounts :
    (sock : Option ℕ) (server : Option (ℕ × ℕ)) (reply : Option Bytes) (out_len : ℕ) (g : Ledger)
    → Accounts g none (discover_public sock server reply out_len g).1
unfolding discover_public Accounts
discover_public-Accounts sock server reply out_len g =
    let P : Option Bytes × Ledger → Type 0 = λ r. Accounts g none r.1 in
    maybe-both P sock _ _ (λ e. Accounts-same g)
      (λ s e.
        let closed = Accounts-shut s g (gain s g) (Accounts-gain s g) in
        maybe-both P server _ _ (λ n. closed)
          (λ to n.
            maybe-both P reply _ _ (λ r. closed)
              (λ bytes r. if-both P (length bytes == 0) _ _ (λ z. closed) (λ z. closed))))

-- Whatever `socket`, `bind`, `listen`, `poll`, `accept`, the resolver and the peer answer, and whether
-- the peer's address can be parsed or not: each of the five functions that open sockets has closed
-- every socket it opened but the one that it returns; `ft_discover_public` returns none.
pub sockets-Accounts :
    (inet_pton : Bytes → Option ℕ) (peer : Bytes) (tcp udp : Option ℕ)
    → (server : Option (ℕ × ℕ)) (reply : Option Bytes) (out_len port : ℕ) (able also : Bool)
    → (g : Ledger)
    → let listening = start_server tcp able port also g in
      let accepted = accept_one able tcp g in
      let started = nat_punch_start inet_pton peer tcp udp g in
      let punched = nat_punch inet_pton peer tcp udp able g in
      let found = discover_public udp server reply out_len g in
      Accounts g listening.0 listening.2
      × Accounts g accepted.0 accepted.1
      × Accounts g started.0 started.1
      × Accounts g punched.0 punched.1
      × Accounts g none found.1
sockets-Accounts inet_pton peer tcp udp server reply out_len port able also g = (
  start_server-Accounts tcp able port also g,
  accept_one-Accounts able tcp g,
  nat_punch_start-Accounts inet_pton peer tcp udp g,
  nat_punch-Accounts inet_pton peer tcp udp g able,
  discover_public-Accounts udp server reply out_len g,
)
