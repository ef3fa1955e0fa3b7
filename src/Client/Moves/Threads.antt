-- ===== src/Client/Moves/Threads.antt =====
-- linux/main.c: the balances through the two transfer threads.
use sync_clipboard.Prelude.Int.{pos, leb_ℤ}
use sync_clipboard.Client.Moves.{
  Balanced, Granted, Move, Move-trans, Quiet, Quiet-Move, Quiet-of, Quiet-refl, Quiet-sends,
  Quiet-trans, account, all_owned, grants, owned, receivers, view,
}
use sync_clipboard.Client.Moves.Launch.{owned_receiver, owned_sender}
use sync_clipboard.Client.State.{Client, TransferState, as_list, open_sock, suppress_clipboard_ms}
use sync_clipboard.Client.Thread.{
  Fetch, Sending, accept_file, close_all, give_up, may_relay, place, received, receiver_thread,
  sender_loop, sender_thread,
}
use sync_clipboard.Prelude.{
  List, Option, [], ap, arith, codes, count, count-append, false, if-both, maybe-both, refl, some,
  starts_with, true, ℕ, ◌++◌, ◌+◌, ◌∷◌, ◌≡◌,
}

place-Quiet : (r : Fetch) (st : TransferState) (c d : Client) → Quiet c d → Quiet c (place r st d)
unfolding place view Quiet
place-Quiet r st c d q =
    if-both (Quiet c) (starts_with (codes "image/") st.mime_type) _ _
      (λ h. maybe-both (Quiet c) _ _ _ (λ e. q) (λ img e. q)) (λ h. q)

pub accept_file-Quiet : (r : Fetch) (st : TransferState) (c : Client) → Quiet c (accept_file r st c)
unfolding accept_file suppress_clipboard_ms view
accept_file-Quiet r st c =
    Quiet-trans c _ _ (place-Quiet r st c _ (Quiet-of c _ refl refl)) (Quiet-sends _ _ _ refl refl)

pub give_up-Quiet : (r : Fetch) (st : TransferState) (c : Client) → Quiet c (give_up r st c)
unfolding give_up view
give_up-Quiet r st c =
    if-both (Quiet c) st.success _ _ (λ h. Quiet-refl c)
      (λ h.
        if-both (Quiet c) (may_relay st) _ _ (λ m. Quiet-sends c _ _ refl refl)
          (λ m. Quiet-sends c _ _ refl refl))

-- A connection that is opened and closed, with something quiet between.
pub visit-Move : (s : Option ℕ) (c d : Client) → Quiet (open_sock s c) d → Move c (close_all s d)
unfolding Quiet view Balanced Granted account
visit-Move s c d (v, sends) = (
  λ fd.
      let a = ap (λ t. count fd (as_list t.0.listen_fd)) v in
      let b = ap (λ t. count fd t.1) v in
      let e = ap (λ t. count fd t.2) v in
      let f = ap (λ t. count fd (all_owned t.3)) v in
      let g = count-append fd c.opened (as_list s) in
      let h = count-append fd d.closed (as_list s) in omega arith,
  let a = ap (λ t. grants t.0) v in let b = ap (λ t. receivers t.4) v in omega arith,
)

received-Move : (r : Fetch) (st : TransferState) (c : Client) → Move c (received r st c)
unfolding received
received-Move r st c =
    maybe-both (Move c) _ _ _ (λ e. Quiet-Move c _ (give_up-Quiet r st c))
      (λ s e.
        maybe-both (Move c) _ _ _
          (λ n.
            let over : Client = close_all (some s) (open_sock (some s) c) in
            Move-trans c over _ (visit-Move (some s) c (open_sock (some s) c) (Quiet-refl _))
              (Quiet-Move over _ (give_up-Quiet r st over)))
          (λ size n. visit-Move (some s) c _ (accept_file-Quiet r st (open_sock (some s) c))))

-- The clients with a thread st running and without it.
abbrev pub without : List TransferState → List TransferState → Client → Client
without before after c = record c { threads = before ++ after }

pub all_owned-middle :
    (fd : ℕ) (before : List TransferState) (st : TransferState) (after : List TransferState)
    → count fd (all_owned (before ++ st ∷ after))
      ≡ count fd (owned st) + count fd (all_owned (before ++ after))
unfolding all_owned
all_owned-middle fd [] st after = count-append fd (owned st) (all_owned after)
all_owned-middle fd (t ∷ before) st after =
    let ih = all_owned-middle fd before st after in
    let a = count-append fd (owned t) (all_owned (before ++ st ∷ after)) in
    let b = count-append fd (owned t) (all_owned (before ++ after)) in omega arith

sender_loop-eq :
    (listen : Option ℕ) (peers : List Sending)
    → (sender_loop listen peers).0 ≡ (sender_loop listen peers).1
unfolding sender_loop
sender_loop-eq listen [] = refl
sender_loop-eq listen (s ∷ later) =
    maybe-both (λ (t : List ℕ × List ℕ × ℕ). t.0 ≡ t.1) listen _ _ (λ e. refl)
      (λ fd e.
        if-both (λ (t : List ℕ × List ℕ × ℕ). t.0 ≡ t.1) (leb_ℤ s.remaining (pos 0)) _ _ (λ h. refl)
          (λ h. ap (◌∷◌ s.peer) (sender_loop-eq listen later)))

module _ (c : Client) (before : List TransferState) (st : TransferState)
    (after : List TransferState) (runs : c.threads ≡ before ++ st ∷ after) where
  -- A receiver ends: its own listening socket is closed with it.
  pub receiver_thread-Move :
      (r : Fetch) → st.is_sender ≡ false → Move c (receiver_thread r st (without before after c))
  unfolding receiver_thread Balanced Granted account
  receiver_thread-Move r receives =
      let rest : Client = without before after c in
      let (p, g) = received-Move r st rest in
      (
        λ fd.
            let a = p fd in
            let b = ap (λ ts. count fd (all_owned ts)) runs in
            let e = all_owned-middle fd before st after in
            let f = ap (count fd) (owned_receiver st receives) in
            let h = count-append fd (received r st rest).closed (as_list st.listen_fd) in
            omega arith,
        omega arith,
      )

  -- A sender ends: what it closed is what it got.
  pub sender_thread-Move :
      (peers : List Sending)
      → st.is_sender ≡ true
      → Move c (sender_thread peers st (without before after c))
  unfolding sender_thread Balanced Granted account
  sender_thread-Move peers sends = (
    λ fd.
        let b = ap (λ ts. count fd (all_owned ts)) runs in
        let e = all_owned-middle fd before st after in
        let f = ap (count fd) (owned_sender st sends) in
        let g = count-append fd c.opened (sender_loop st.listen_fd peers).0 in
        let h = count-append fd c.closed (sender_loop st.listen_fd peers).1 in
        let k = ap (count fd) (sender_loop-eq st.listen_fd peers) in omega arith,
    omega arith,
  )
