-- ===== src/Client/Moves/Traces.antt =====
-- linux/main.c: what the threads of the client do, one step at a time, and what holds after any number
-- of steps. The handlers and the monitor hold `g_xfer_lock` where they change the transfer; a transfer
-- thread ends once, and the relation lets its begin come at any time, which allows more runs than
-- there are. Here a transfer thread runs in one step, from its beginning to its end; Runs takes its calls
-- one by one.
mod Tests
use sync_clipboard.Client.Handlers.{Json, handle}
use sync_clipboard.Client.Monitor.{Look, poll, poll_primary}
use sync_clipboard.Client.Moves.{
  Balanced, Granted, Move, Move-refl, Move-trans, Quiet, Quiet-Move, Quiet-of, account, grants,
  receivers, requests, view,
}
use sync_clipboard.Client.Moves.Handlers.{handle-Move}
use sync_clipboard.Client.Moves.Monitor.{poll-Move, poll_primary-Quiet}
use sync_clipboard.Client.Moves.Session.{dial-Quiet, on_established-Quiet, on_lost-Quiet}
use sync_clipboard.Client.Moves.Threads.{receiver_thread-Move, sender_thread-Move, without}
use sync_clipboard.Client.Session.{dial, on_established, on_lost}
use sync_clipboard.Client.State.{Client, Env, Libs, TransferState, fresh}
use sync_clipboard.Client.Thread.{Fetch, Sending, receiver_thread, sender_thread, thread_begin}
use sync_clipboard.Config.{ClientConfig}
use sync_clipboard.Prelude.{
  Bool, List, arith, count, false, refl, true, ℕ, ◌++◌, ◌+◌, ◌∷◌, ◌≡◌, ◌≤◌,
}

-- `pthread_create` is taken to succeed.
pub data Step (libs : Libs) (cfg : ClientConfig) : Client → Client → Type 0 where
  step_message :
      (c : Client) (env : Env) (j : Json)
      → env.thread ≡ true
      → Step libs cfg c (handle libs cfg env j c)
  step_poll : (c : Client) (env : Env) (look : Look) → Step libs cfg c (poll libs cfg env look c)
  step_primary :
      (c : Client) (env : Env) (look : Look) → Step libs cfg c (poll_primary libs cfg env look c)
  step_begin : (c : Client) → Step libs cfg c (thread_begin c)
  step_receiver :
      (c : Client) (before : List TransferState) (st : TransferState) (after : List TransferState)
      → c.threads ≡ before ++ st ∷ after
      → (r : Fetch) → st.is_sender ≡ false
      → Step libs cfg c (receiver_thread r st (without before after c))
  step_sender :
      (c : Client) (before : List TransferState) (st : TransferState) (after : List TransferState)
      → c.threads ≡ before ++ st ∷ after
      → (peers : List Sending) → st.is_sender ≡ true
      → Step libs cfg c (sender_thread peers st (without before after c))
  step_established : (c : Client) (env : Env) → Step libs cfg c (on_established cfg env c)
  step_lost : (c : Client) → Step libs cfg c (on_lost c)
  step_dial :
      (c : Client) (has_tokens started : Bool) → Step libs cfg c (dial has_tokens started c).1

pub data Reach (libs : Libs) (cfg : ClientConfig) (from : Client) : Client → Type 0 where
  here : Reach libs cfg from from
  next : (c d : Client) → Reach libs cfg from c → Step libs cfg c d → Reach libs cfg from d

pub thread_begin-Quiet : (c : Client) → Quiet c (thread_begin c)
unfolding thread_begin view
thread_begin-Quiet c = Quiet-of c _ refl refl

module _ (libs : Libs) (cfg : ClientConfig) where
  pub Step-Move : (c d : Client) → Step libs cfg c d → Move c d
  Step-Move _ _ (step_message c env j t) = handle-Move libs cfg env j c t
  Step-Move _ _ (step_poll c env look) = poll-Move libs cfg env look c
  Step-Move _ _ (step_primary c env look) = Quiet-Move c _ (poll_primary-Quiet libs cfg env look c)
  Step-Move _ _ (step_begin c) = Quiet-Move c _ (thread_begin-Quiet c)
  Step-Move _ _ (step_receiver c before st after runs r role) =
      receiver_thread-Move c before st after runs r role
  Step-Move _ _ (step_sender c before st after runs peers role) =
      sender_thread-Move c before st after runs peers role
  Step-Move _ _ (step_established c env) = Quiet-Move c _ (on_established-Quiet c cfg env)
  Step-Move _ _ (step_lost c) = Quiet-Move c _ (on_lost-Quiet c)
  Step-Move _ _ (step_dial c has_tokens started) = Quiet-Move c _ (dial-Quiet c has_tokens started)

  Reach-Move : (c d : Client) → Reach libs cfg c d → Move c d
  Reach-Move c _ here = Move-refl c
  Reach-Move c _ (next e f way step) = Move-trans c e f (Reach-Move c e way) (Step-Move e f step)

  -- From the start of the program on, whatever messages arrive, whatever the monitor sees and in whatever
  -- order the transfer threads run, each in one step, provided that each thread asked for is made: every socket that the client
  -- opened, counted with descriptor 0, which the zeroed state names, was closed as often as it was
  -- opened, or is still held, by the shared transfer state or by a receiver that has not ended.
  pub Reach-account :
      (c : Client) → Reach libs cfg fresh c → (fd : ℕ) → account fd c ≡ count fd (0 ∷ c.opened)
  unfolding Balanced account
  Reach-account c way fd = let a = (Reach-Move fresh c way).0 fd in omega arith

  -- From the start of the program on, however messages, polls and threads interleave, provided that
  -- each thread asked for is made: the client has started at most one receiver more than it has sent
  -- file_request messages, and none more if its transfer state would still let one start.
  pub Reach-receivers :
      (c : Client)
      → Reach libs cfg fresh c
      → receivers c.started + grants c.xfer ≤ requests c.sent + 1
  unfolding Granted
  Reach-receivers c way = let a = (Reach-Move fresh c way).1 in omega arith
