-- ===== src/Windows/Moves/Steps.antt =====
-- windows/main.c: the threads of the Windows client, one step at a time. `CreateThread` is taken to
-- succeed. Here a transfer thread runs in one step; Runs takes its calls one by one.

use sync_clipboard.Client.Handlers.{Json}
use sync_clipboard.Client.Moves.{
  Balanced, Granted, Move, Move-refl, Move-trans, Quiet, Quiet-Move, Quiet-of, Quiet-sends, account,
  all_owned, receivers, requests, view,
}
use sync_clipboard.Client.Moves.Launch.{owned_receiver}
use sync_clipboard.Client.Moves.Session.{dial-Quiet, on_lost-Quiet}
use sync_clipboard.Client.Moves.Threads.{all_owned-middle, sender_thread-Move, without}
use sync_clipboard.Client.Moves.Traces.{thread_begin-Quiet}
use sync_clipboard.Client.Session.{dial, on_lost}
use sync_clipboard.Client.State.{Env, Libs, TransferState, as_list}
use sync_clipboard.Client.Thread.{Sending, sender_thread, thread_begin}
use sync_clipboard.Config.{ClientConfig}
use sync_clipboard.Prelude.{
  Bool, List, ap, arith, count, count-append, false, maybe-both, refl, true, ℕ, ◌++◌, ◌+◌, ◌∷◌, ◌≡◌,
  ◌≤◌,
}
use sync_clipboard.Windows.Board.{Stb}
use sync_clipboard.Windows.Desk.{Desk, Desktop, fresh_desk, with_client}
use sync_clipboard.Windows.Handlers.{ws_established, ws_receive}
use sync_clipboard.Windows.Monitor.{View, on_clipboard_changed}
use sync_clipboard.Windows.Moves.Board.{downloaded-Move, ws_receive-Move}
use sync_clipboard.Windows.Moves.Change.{on_clipboard_changed-Move}
use sync_clipboard.Windows.Thread.{Download, downloaded, win_receiver_thread}

pub data WinStep (stb : Stb) (libs : Libs) (cfg : ClientConfig) : Desk → Desk → Type 0 where
  win_message :
      (d : Desk) (w : Desktop) (j : Json)
      → w.base.thread ≡ true
      → WinStep stb libs cfg d (ws_receive stb libs cfg w j d)
  win_change :
      (d : Desk) (env : Env) (sight : View)
      → WinStep stb libs cfg d (on_clipboard_changed stb libs cfg env sight d)
  win_begin : (d : Desk) → WinStep stb libs cfg d (with_client (thread_begin d.client) d)
  win_receiver :
      (d : Desk) (before : List TransferState) (st : TransferState) (after : List TransferState)
      → d.client.threads ≡ before ++ st ∷ after
      → (w : Desktop) (r : Download) → st.is_sender ≡ false
      → WinStep stb libs cfg d
          (win_receiver_thread stb w r st (with_client (without before after d.client) d))
  win_sender :
      (d : Desk) (before : List TransferState) (st : TransferState) (after : List TransferState)
      → d.client.threads ≡ before ++ st ∷ after
      → (peers : List Sending) → st.is_sender ≡ true
      → WinStep stb libs cfg d
          (with_client (sender_thread peers st (without before after d.client)) d)
  win_established : (d : Desk) (env : Env) → WinStep stb libs cfg d (ws_established cfg env d)
  win_lost : (d : Desk) → WinStep stb libs cfg d (with_client (on_lost d.client) d)
  win_dial :
      (d : Desk) (has_tokens connects : Bool)
      → WinStep stb libs cfg d (with_client (dial has_tokens connects d.client).1 d)

pub data WinReach (stb : Stb) (libs : Libs) (cfg : ClientConfig) (from : Desk) : Desk → Type 0 where
  win_start : WinReach stb libs cfg from from
  win_next :
      (d e : Desk)
      → WinReach stb libs cfg from d
      → WinStep stb libs cfg d e
      → WinReach stb libs cfg from e

ws_established-Quiet :
    (cfg : ClientConfig) (env : Env) (d : Desk) → Quiet d.client (ws_established cfg env d).client
unfolding ws_established view
ws_established-Quiet cfg env d =
    maybe-both (Quiet d.client) _ _ _ (λ e. Quiet-of d.client _ refl refl)
      (λ msg e. Quiet-sends d.client _ msg refl refl)

module _ (stb : Stb) (libs : Libs) (cfg : ClientConfig) where
  -- A receiver ends: its own listening socket is closed with it.
  win_receiver_thread-Move :
      (d : Desk) (before : List TransferState) (st : TransferState) (after : List TransferState)
      → d.client.threads ≡ before ++ st ∷ after
      → (w : Desktop) (r : Download) → st.is_sender ≡ false
      → Move d.client
          (win_receiver_thread stb w r st (with_client (without before after d.client) d)).client
  unfolding win_receiver_thread Balanced Granted account
  win_receiver_thread-Move d before st after runs w r receives =
      let c = d.client in
      let rest : Desk = with_client (without before after c) d in
      let (p, g) = downloaded-Move stb w r st rest in
      (
        λ fd.
            let a = p fd in
            let b = ap (λ ts. count fd (all_owned ts)) runs in
            let e = all_owned-middle fd before st after in
            let f = ap (count fd) (owned_receiver st receives) in
            let h =
              count-append fd (downloaded stb w r st rest).client.closed (as_list st.listen_fd) in
            omega arith,
        omega arith,
      )

  pub WinStep-Move : (d e : Desk) → WinStep stb libs cfg d e → Move d.client e.client
  WinStep-Move _ _ (win_message d w j t) = ws_receive-Move stb libs cfg w j d t
  WinStep-Move _ _ (win_change d env sight) = on_clipboard_changed-Move stb libs cfg env sight d
  WinStep-Move _ _ (win_begin d) = Quiet-Move d.client _ (thread_begin-Quiet d.client)
  WinStep-Move _ _ (win_receiver d before st after runs w r role) =
      win_receiver_thread-Move d before st after runs w r role
  WinStep-Move _ _ (win_sender d before st after runs peers role) =
      sender_thread-Move d.client before st after runs peers role
  WinStep-Move _ _ (win_established d env) = Quiet-Move d.client _ (ws_established-Quiet cfg env d)
  WinStep-Move _ _ (win_lost d) = Quiet-Move d.client _ (on_lost-Quiet d.client)
  WinStep-Move _ _ (win_dial d has_tokens connects) =
      Quiet-Move d.client _ (dial-Quiet d.client has_tokens connects)

  WinReach-Move : (d e : Desk) → WinReach stb libs cfg d e → Move d.client e.client
  WinReach-Move d _ win_start = Move-refl d.client
  WinReach-Move d _ (win_next e f way step) =
      Move-trans d.client e.client f.client (WinReach-Move d e way) (WinStep-Move e f step)

  -- From the start of the Windows client on, whatever messages arrive, however the clipboard changes
  -- and in whatever order the transfer threads run, each in one step, provided that each thread asked for is made: every socket that the
  -- client opened, counted with descriptor 0, which the zeroed state names, was closed as often as it
  -- was opened, or is still held, by the shared transfer state or by a receiver that has not ended; and
  -- the client has started at most one receiver more than it has sent file_request messages.
  pub WinReach-account :
      (d : Desk)
      → WinReach stb libs cfg fresh_desk d
      → (fd : ℕ)
      → (account fd d.client ≡ count fd (0 ∷ d.client.opened))
        × (receivers d.client.started ≤ requests d.client.sent + 1)
  unfolding Balanced Granted account
  WinReach-account d way fd =
      let (p, g) = WinReach-Move fresh_desk d way in let a = p fd in (omega arith, omega arith)
