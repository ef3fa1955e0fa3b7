-- ===== src/Windows/Moves/Runs.antt =====
-- windows/main.c: the transfer threads call by call, between which other threads and messages run.
use sync_clipboard.Client.Moves.{Granted, Quiet-Move, account, receivers, requests}
use sync_clipboard.Client.Moves.Runs.{
  Holding, Holding-Move, Holding-close, Holding-open, Holding-refl, leave_receiver,
  leave_receiver-Move, leave_sender, leave_sender-Move,
}
use sync_clipboard.Client.Moves.Threads.{without}
use sync_clipboard.Client.State.{Libs, TransferState, open_sock}
use sync_clipboard.Client.Thread.{close_all}
use sync_clipboard.Config.{ClientConfig}
use sync_clipboard.Prelude.{
  ◌≤◌, ◌++◌, ℕ, true, [], false, ◌+◌, ◌∷◌, count, arith, Bytes, some, List, ◌≡◌,
}
use sync_clipboard.Windows.Board.{Stb}
use sync_clipboard.Windows.Desk.{with_client, Desk, fresh_desk, Desktop}
use sync_clipboard.Windows.Moves.Board.{take_file-Quiet, report_loss-Quiet}
use sync_clipboard.Windows.Moves.Steps.{WinStep, WinStep-Move}
use sync_clipboard.Windows.Thread.{take_file, Download, report_loss}

-- The steps of the Windows client, with the calls of the transfer threads one by one, and the connections
-- that threads hold. Any thread may do any of the calls, which allows more runs than there are.
pub data WinRun (stb : Stb) (libs : Libs) (cfg : ClientConfig) (from : Desk)
    : Desk → List ℕ → Type 0 where
  win_run_start : WinRun stb libs cfg from from []
  win_run_step :
      (d e : Desk) (holds : List ℕ)
      → WinRun stb libs cfg from d holds
      → WinStep stb libs cfg d e
      → WinRun stb libs cfg from e holds
  win_run_open :
      (d : Desk) (holds : List ℕ) (s : ℕ)
      → WinRun stb libs cfg from d holds
      → WinRun stb libs cfg from (with_client (open_sock (some s) d.client) d) (s ∷ holds)
  win_run_take :
      (d : Desk) (holds : List ℕ) (w : Desktop) (r : Download) (st : TransferState) (bytes : Bytes)
      → WinRun stb libs cfg from d holds
      → WinRun stb libs cfg from (take_file stb w r st bytes d) holds
  win_run_loss :
      (d : Desk) (holds : List ℕ) (w : Desktop) (r : Download) (st : TransferState)
      → WinRun stb libs cfg from d holds
      → WinRun stb libs cfg from (with_client (report_loss r st d.client) d) holds
  win_run_close :
      (d : Desk) (before : List ℕ) (s : ℕ) (after : List ℕ)
      → WinRun stb libs cfg from d (before ++ s ∷ after)
      → WinRun stb libs cfg from (with_client (close_all (some s) d.client) d) (before ++ after)
  win_run_receiver_over :
      (d : Desk) (holds : List ℕ) (before : List TransferState) (st : TransferState)
      (after : List TransferState)
      → WinRun stb libs cfg from d holds
      → d.client.threads ≡ before ++ st ∷ after
      → st.is_sender ≡ false
      → WinRun stb libs cfg from
          (with_client (leave_receiver st (without before after d.client)) d)
          holds
  win_run_sender_over :
      (d : Desk) (holds : List ℕ) (before : List TransferState) (st : TransferState)
      (after : List TransferState)
      → WinRun stb libs cfg from d holds
      → d.client.threads ≡ before ++ st ∷ after
      → st.is_sender ≡ true
      → WinRun stb libs cfg from
          (with_client (leave_sender (without before after d.client)) d)
          holds

module _ (stb : Stb) (libs : Libs) (cfg : ClientConfig) (from : Desk) where
  WinRun-Holding :
      (d : Desk) (holds : List ℕ)
      → WinRun stb libs cfg from d holds
      → Holding holds from.client d.client
  WinRun-Holding _ _ win_run_start = Holding-refl from.client
  WinRun-Holding _ _ (win_run_step d e holds way step) =
      Holding-Move holds from.client d.client e.client (WinRun-Holding d holds way)
        (WinStep-Move stb libs cfg d e step)
  WinRun-Holding _ _ (win_run_open d holds s way) =
      Holding-open s holds from.client d.client (WinRun-Holding d holds way)
  WinRun-Holding _ _ (win_run_take d holds w r st bytes way) =
      Holding-Move holds from.client d.client _ (WinRun-Holding d holds way)
        (Quiet-Move d.client _ (take_file-Quiet stb w r st bytes d))
  WinRun-Holding _ _ (win_run_loss d holds w r st way) =
      Holding-Move holds from.client d.client _ (WinRun-Holding d holds way)
        (Quiet-Move d.client _ (report_loss-Quiet stb w r st d.client))
  WinRun-Holding _ _ (win_run_close d before s after way) =
      Holding-close s before after from.client d.client (WinRun-Holding d (before ++ s ∷ after) way)
  WinRun-Holding _ _ (win_run_receiver_over d holds before st after way runs role) =
      Holding-Move holds from.client d.client _ (WinRun-Holding d holds way)
        (leave_receiver-Move d.client before st after runs role)
  WinRun-Holding _ _ (win_run_sender_over d holds before st after way runs role) =
      Holding-Move holds from.client d.client _ (WinRun-Holding d holds way)
        (leave_sender-Move d.client before st after runs role)

module _ (stb : Stb) (libs : Libs) (cfg : ClientConfig) where
  -- From the start of the Windows client on, whatever messages arrive and however the clipboard changes,
  -- and however these and the calls of the transfer threads interleave, provided that each thread asked
  -- for is made: every socket that the client opened, counted with descriptor 0, which the zeroed state
  -- names, was closed as often as it was opened, or is still held: by the shared transfer state, as the
  -- listening socket of a receiver that has not ended, or as the connection of a thread in the middle of
  -- its run; and the client has started at most one receiver more than the file_request messages that it
  -- has given to `queue_send`.
  pub WinRun-account :
      (d : Desk) (holds : List ℕ)
      → WinRun stb libs cfg fresh_desk d holds
      → (fd : ℕ)
      → (account fd d.client + count fd holds ≡ count fd (0 ∷ d.client.opened))
        × (receivers d.client.started ≤ requests d.client.sent + 1)
  unfolding Holding account Granted
  WinRun-account d holds way fd =
      let (p, g) = WinRun-Holding stb libs cfg fresh_desk d holds way in
      let a = p fd in (omega (arith, a), omega (arith, g))
