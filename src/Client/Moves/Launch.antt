-- ===== src/Client/Moves/Launch.antt =====
-- linux/main.c: the balances where a transfer is cleared and announced anew, and where a thread gets
-- its copy of the state.

use sync_clipboard.Client.Moves.{
  Balanced, Granted, Move, account, all_owned, grants, owned, receivers, requests,
}
use sync_clipboard.Client.State.{Client, Env, TransferState, as_list}
use sync_clipboard.Prelude.{
  Bool, Bool-cases, List, Option, [], ap, arith, count, count-append, false, if-both, inl, inr, leb,
  ltb, none, not, refl, sym, true, true_is_false, ℕ, ◌&&◌, ◌++◌, ◌+◌, ◌||◌, ◌∙◌, ◌∷◌, ◌≡◌, ◌≤◌,
}
use sync_clipboard.Client.Handlers.{start_thread, with_thread}

module _ (c d : Client) where
  -- A new transfer: the old listening socket is closed, and what the new one grants is asked for.
  pub renewed-Move :
      (sock : Option ℕ)
      → d.xfer.listen_fd ≡ sock
      → d.closed ≡ c.closed ++ as_list c.xfer.listen_fd
      → d.opened ≡ c.opened ++ as_list sock
      → d.threads ≡ c.threads
      → d.started ≡ c.started
      → grants d.xfer + requests c.sent ≤ requests d.sent
      → Move c d
  unfolding Balanced Granted account
  renewed-Move sock esock eclosed eopened ethreads estarted asks = (
    λ fd.
        let a = ap (λ s. count fd (as_list s)) esock in
        let b = ap (count fd) eclosed in
        let e = ap (count fd) eopened in
        let f = ap (λ ts. count fd (all_owned ts)) ethreads in
        let g = count-append fd c.closed (as_list c.xfer.listen_fd) in
        let h = count-append fd c.opened (as_list sock) in omega arith,
    let a = ap receivers estarted in omega arith,
  )

pub all_owned-append :
    (fd : ℕ) (threads : List TransferState) (st : TransferState)
    → count fd (all_owned (threads ++ st ∷ [])) ≡ count fd (all_owned threads) + count fd (owned st)
unfolding all_owned
all_owned-append fd [] st = let a = count-append fd (owned st) [] in omega arith
all_owned-append fd (t ∷ threads) st =
    let ih = all_owned-append fd threads st in
    let a = count-append fd (owned t) (all_owned (threads ++ st ∷ [])) in
    let b = count-append fd (owned t) (all_owned threads) in omega arith

pub receivers-append :
    (threads : List TransferState) (st : TransferState)
    → receivers (threads ++ st ∷ []) ≡ receivers threads + receivers (st ∷ [])
unfolding receivers
receivers-append [] st = omega arith
receivers-append (t ∷ threads) st =
    let ih = receivers-append threads st in
    elim (Bool-cases t.is_sender) [ inl e ↦ rw e ih | inr e ↦ rw e omega arith ]

pub owned_sender : (st : TransferState) → st.is_sender ≡ true → owned st ≡ []
unfolding owned
owned_sender st e = rw e refl

pub owned_receiver : (st : TransferState) → st.is_sender ≡ false → owned st ≡ as_list st.listen_fd
unfolding owned
owned_receiver st e = rw e refl

pub grants_sender : (st : TransferState) → st.is_sender ≡ true → grants st ≡ 0
unfolding grants
grants_sender st e = rw e refl

pub grants_begun : (st : TransferState) → ltb st.phase 2 ≡ false → grants st ≡ 0
unfolding grants
grants_begun st e = elim (Bool-cases st.is_sender) [ inl s ↦ rw s refl | inr s ↦ rw (s, e) refl ]

pub grants_open :
    (st : TransferState) → st.is_sender ≡ false → ltb st.phase 2 ≡ true → grants st ≡ 1
unfolding grants
grants_open st s e = rw (s, e) refl

pub grants_le : (st : TransferState) → grants st ≤ 1
unfolding grants
grants_le st =
    if-both (λ n. n ≤ 1) (not st.is_sender && ltb st.phase 2) _ _ (λ e. omega arith)
      (λ e. omega arith)

pub receivers_sender : (st : TransferState) → st.is_sender ≡ true → receivers (st ∷ []) ≡ 0
unfolding receivers
receivers_sender st e = rw e refl

pub receivers_receiver : (st : TransferState) → st.is_sender ≡ false → receivers (st ∷ []) ≡ 1
unfolding receivers
receivers_receiver st e = rw e refl

module _ (c d : Client) (st : TransferState) where
  -- A thread starts with st: its socket is taken out of the shared state or is not its own, and a
  -- receiver uses up what the state grants.
  pub launched-Move :
      d.closed ≡ c.closed
      → d.opened ≡ c.opened
      → d.sent ≡ c.sent
      → d.threads ≡ c.threads ++ st ∷ []
      → d.started ≡ c.started ++ st ∷ []
      → ((fd : ℕ)
          → count fd (owned st) + count fd (as_list d.xfer.listen_fd)
            ≡ count fd (as_list c.xfer.listen_fd))
      → receivers (st ∷ []) + grants d.xfer ≤ grants c.xfer
      → Move c d
  unfolding Balanced Granted account
  launched-Move eclosed eopened esent ethreads estarted shares uses = (
    λ fd.
        let a = shares fd in
        let b = ap (count fd) eclosed in
        let e = ap (count fd) eopened in
        let f = ap (λ ts. count fd (all_owned ts)) ethreads in
        let g = all_owned-append fd c.threads st in omega arith,
    let a = ap receivers estarted in
        let b = receivers-append c.started st in let e = ap requests esent in omega arith,
  )

-- Where the guard on a receiver lets it through, the transfer has not begun.
free_phase : (s b : Bool) (p : ℕ) → not s && (b || leb 2 p) ≡ false → s ≡ false → ltb p 2 ≡ true
free_phase true b p h e = cc
free_phase false true p h e = cc
free_phase false false p h e = ground arith

module _ (env : Env) (c : Client) (st : TransferState) where
  -- The copy of the state with the peer filled in, where a receiver may start.
  pub start_thread-Move :
      st.listen_fd ≡ c.xfer.listen_fd
      → st.is_sender ≡ c.xfer.is_sender
      → ltb st.phase 2 ≡ false
      → env.thread ≡ true
      → not c.xfer.is_sender && (ltb 0 c.active || leb 2 c.xfer.phase) ≡ false
      → Move c (start_thread env st c)
  unfolding start_thread Balanced Granted account
  start_thread-Move esock esender begun thread free =
      let same_sock : (fd : ℕ)
          → count fd (as_list st.listen_fd) ≡ count fd (as_list c.xfer.listen_fd) =
        λ fd. ap (λ l. count fd (as_list l)) esock in
      if-both (Move c) env.memory _ _
        (λ m.
          if-both (Move c) env.thread _ _
            (λ t.
              launched-Move c (with_thread st c) st refl refl refl refl refl
                (if-both
                  (λ (kept : TransferState).
                    (fd : ℕ)
                    → count fd (owned st) + count fd (as_list kept.listen_fd)
                      ≡ count fd (as_list c.xfer.listen_fd))
                  st.is_sender st (record st { listen_fd = none })
                  (λ s fd.
                    let a = ap (count fd) (owned_sender st s) in
                    let b = same_sock fd in omega arith)
                  (λ s fd.
                    let a = ap (count fd) (owned_receiver st s) in
                    let b = same_sock fd in omega arith))
                (if-both
                  (λ (kept : TransferState). receivers (st ∷ []) + grants kept ≤ grants c.xfer)
                  st.is_sender st (record st { listen_fd = none })
                  (λ s. let a = receivers_sender st s in let b = grants_sender st s in omega arith)
                  (λ s.
                    let a = receivers_receiver st s in
                    let b = grants_begun (record st { listen_fd = none }) begun in
                    let own = sym esender ∙ s in
                    let e =
                      grants_open c.xfer own
                        (free_phase c.xfer.is_sender _ c.xfer.phase free own) in
                    omega arith)))
            (λ t. absurd (true_is_false (sym thread ∙ t))))
        (λ m.
          (λ fd. let b = same_sock fd in omega arith, let a = grants_begun st begun in omega arith))
