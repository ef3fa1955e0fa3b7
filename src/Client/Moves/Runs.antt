-- ===== src/Client/Moves/Runs.antt =====
-- linux/main.c: the transfer threads call by call. A thread that has a connection holds its socket until
-- it closes it, and other threads, messages and polls run between its calls.
use sync_clipboard.Client.Moves.{Balanced, Granted, Move, Quiet-Move, account, all_owned}
use sync_clipboard.Client.Moves.Launch.{owned_receiver, owned_sender}
use sync_clipboard.Client.Moves.Threads.{
  accept_file-Quiet, all_owned-middle, give_up-Quiet, without,
}
use sync_clipboard.Client.Moves.Traces.{Step, Step-Move}
use sync_clipboard.Client.State.{Client, Libs, TransferState, as_list, fresh, open_sock}
use sync_clipboard.Client.Thread.{Fetch, accept_file, close_all, give_up}
use sync_clipboard.Config.{ClientConfig}
use sync_clipboard.Prelude.{
  List, [], ap, arith, count, count-append, false, some, true, ℕ, ◌++◌, ◌+◌, ◌-◌, ◌∷◌, ◌≡◌,
}

-- The balances, with the connections that threads hold in the middle of their run.
unfoldable pub Holding : List ℕ → Client → Client → Type 0
unfolding account
Holding holds c d =
    ((fd : ℕ)
      → account fd d + count fd holds + count fd c.opened ≡ account fd c + count fd d.opened)
    × Granted c d

pub Holding-refl : (c : Client) → Holding [] c c
unfolding Holding Granted
Holding-refl c = (λ fd. omega arith, omega arith)

pub Holding-Move :
    (holds : List ℕ) (c d e : Client) → Holding holds c d → Move d e → Holding holds c e
unfolding Holding Balanced Granted
Holding-Move holds c d e (p, g) (q, h) =
    (λ fd. let a = p fd in let b = q fd in omega (arith, a, b), omega (arith, g, h))

-- A connection comes about, and the thread holds it.
pub Holding-open :
    (s : ℕ) (holds : List ℕ) (c d : Client)
    → Holding holds c d
    → Holding (s ∷ holds) c (open_sock (some s) d)
unfolding Holding Granted account
Holding-open s holds c d (p, g) = (
  λ fd.
      let a = p fd in
      let b = count-append fd (s ∷ []) holds in
      let e = count-append fd d.opened (s ∷ []) in omega (arith, a, b, e),
  g,
)

-- It is closed.
pub Holding-close :
    (s : ℕ) (before after : List ℕ) (c d : Client)
    → Holding (before ++ s ∷ after) c d
    → Holding (before ++ after) c (close_all (some s) d)
unfolding Holding Granted account
Holding-close s before after c d (p, g) = (
  λ fd.
      let a = p fd in
      let b = count-append fd before (s ∷ after) in
      let e = count-append fd (s ∷ []) after in
      let f = count-append fd before after in
      let h = count-append fd d.closed (s ∷ []) in omega (arith, a, b, e, f, h),
  g,
)

-- The last lines of `receiver_thread`, and of `sender_thread`.
abbrev pub leave_receiver : TransferState → Client → Client
leave_receiver st c =
    let over = close_all st.listen_fd c in record over { active = over.active - 1 }

abbrev pub leave_sender : Client → Client
leave_sender c = record c { active = c.active - 1 }

module _ (c : Client) (before : List TransferState) (st : TransferState)
    (after : List TransferState) (runs : c.threads ≡ before ++ st ∷ after) where
  pub leave_receiver-Move :
      st.is_sender ≡ false → Move c (leave_receiver st (without before after c))
  unfolding Balanced Granted account
  leave_receiver-Move receives = (
    λ fd.
        let b = ap (λ ts. count fd (all_owned ts)) runs in
        let e = all_owned-middle fd before st after in
        let f = ap (count fd) (owned_receiver st receives) in
        let h = count-append fd c.closed (as_list st.listen_fd) in omega (arith, b, e, f, h),
    omega arith,
  )

  pub leave_sender-Move : st.is_sender ≡ true → Move c (leave_sender (without before after c))
  unfolding Balanced Granted account
  leave_sender-Move sends = (
    λ fd.
        let b = ap (λ ts. count fd (all_owned ts)) runs in
        let e = all_owned-middle fd before st after in
        let f = ap (count fd) (owned_sender st sends) in omega (arith, b, e, f),
    omega arith,
  )

-- The steps of the client, with the calls of the transfer threads one by one, and the connections that
-- threads hold. Any thread may do any of the calls, which allows more runs than there are.
pub data Run (libs : Libs) (cfg : ClientConfig) (from : Client) : Client → List ℕ → Type 0 where
  run_start : Run libs cfg from from []
  run_step :
      (c d : Client) (holds : List ℕ)
      → Run libs cfg from c holds
      → Step libs cfg c d
      → Run libs cfg from d holds
  run_open :
      (c : Client) (holds : List ℕ) (s : ℕ)
      → Run libs cfg from c holds
      → Run libs cfg from (open_sock (some s) c) (s ∷ holds)
  run_accept :
      (c : Client) (holds : List ℕ) (r : Fetch) (st : TransferState)
      → Run libs cfg from c holds
      → Run libs cfg from (accept_file r st c) holds
  run_give_up :
      (c : Client) (holds : List ℕ) (r : Fetch) (st : TransferState)
      → Run libs cfg from c holds
      → Run libs cfg from (give_up r st c) holds
  run_close :
      (c : Client) (before : List ℕ) (s : ℕ) (after : List ℕ)
      → Run libs cfg from c (before ++ s ∷ after)
      → Run libs cfg from (close_all (some s) c) (before ++ after)
  run_receiver_over :
      (c : Client) (holds : List ℕ) (before : List TransferState) (st : TransferState)
      (after : List TransferState)
      → Run libs cfg from c holds
      → c.threads ≡ before ++ st ∷ after
      → st.is_sender ≡ false
      → Run libs cfg from (leave_receiver st (without before after c)) holds
  run_sender_over :
      (c : Client) (holds : List ℕ) (before : List TransferState) (st : TransferState)
      (after : List TransferState)
      → Run libs cfg from c holds
      → c.threads ≡ before ++ st ∷ after
      → st.is_sender ≡ true
      → Run libs cfg from (leave_sender (without before after c)) holds

module _ (libs : Libs) (cfg : ClientConfig) (from : Client) where
  Run-Holding : (c : Client) (holds : List ℕ) → Run libs cfg from c holds → Holding holds from c
  Run-Holding _ _ run_start = Holding-refl from
  Run-Holding _ _ (run_step c d holds way step) =
      Holding-Move holds from c d (Run-Holding c holds way) (Step-Move libs cfg c d step)
  Run-Holding _ _ (run_open c holds s way) = Holding-open s holds from c (Run-Holding c holds way)
  Run-Holding _ _ (run_accept c holds r st way) =
      Holding-Move holds from c _ (Run-Holding c holds way)
        (Quiet-Move c _ (accept_file-Quiet r st c))
  Run-Holding _ _ (run_give_up c holds r st way) =
      Holding-Move holds from c _ (Run-Holding c holds way) (Quiet-Move c _ (give_up-Quiet r st c))
  Run-Holding _ _ (run_close c before s after way) =
      Holding-close s before after from c (Run-Holding c (before ++ s ∷ after) way)
  Run-Holding _ _ (run_receiver_over c holds before st after way runs role) =
      Holding-Move holds from c _ (Run-Holding c holds way)
        (leave_receiver-Move c before st after runs role)
  Run-Holding _ _ (run_sender_over c holds before st after way runs role) =
      Holding-Move holds from c _ (Run-Holding c holds way)
        (leave_sender-Move c before st after runs role)

module _ (libs : Libs) (cfg : ClientConfig) where
  -- From the start of the program on, whatever messages arrive and whatever the monitor sees, and however
  -- these and the calls of the transfer threads interleave, provided that each thread asked for is made:
  -- every socket that the client opened, counted with descriptor 0, which the zeroed state names, was
  -- closed as often as it was opened, or is still held: by the shared transfer state, as the listening
  -- socket of a receiver that has not ended, or as the connection of a thread in the middle of its run.
  pub Run-account :
      (c : Client) (holds : List ℕ)
      → Run libs cfg fresh c holds
      → (fd : ℕ) → account fd c + count fd holds ≡ count fd (0 ∷ c.opened)
  unfolding Holding account
  Run-account c holds way fd =
      let a = (Run-Holding libs cfg fresh c holds way).0 fd in omega (arith, a)
