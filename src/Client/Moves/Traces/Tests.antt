-- ===== src/Client/Moves/Traces/Tests.antt =====
-- A run of the client, and the witnesses of the balances: a file is announced, a peer is named twice,
use sync_clipboard.Prelude.Int.{pos}
use sync_clipboard.Client.Handlers.{
  announced, fill_slots, handle, on_file_notify, on_file_peer_info, start_thread, with_peer,
}
use sync_clipboard.Client.Moves.{account, grants, receivers, requests}
use sync_clipboard.Client.Moves.Threads.{without}
use sync_clipboard.Client.Moves.Traces.{
  Reach, Reach-account, Reach-receivers, here, next, step_begin, step_message, step_receiver,
}
use sync_clipboard.Client.Samples.{fetch, notify, peer_info, sample_env, sample_libs}
use sync_clipboard.Client.State.{
  Client, TransferState, effective_file_level, fresh, open_sock, renew,
}
use sync_clipboard.Client.Thread.{accept_file, place, received, receiver_thread, thread_begin}
use sync_clipboard.Config.{defaults}
use sync_clipboard.Prelude.{
  [], codes, count, maybe, refl, replicate, same, some, true, ◌++◌, ◌+◌, ◌∷◌, ◌≡◌, ◌≤◌,
}
use sync_clipboard.Client.Moves.Runs.{run_start, Run-account, run_open, Run, run_step}

-- and the receiver begins and ends.

abbrev notified : Client
notified = handle sample_libs defaults sample_env notify fresh

abbrev peered : Client
peered = handle sample_libs defaults sample_env peer_info notified

abbrev again : Client
again = handle sample_libs defaults sample_env peer_info peered

abbrev begun : Client
begun = thread_begin again

abbrev receiver : TransferState
receiver = record (announced sample_env notify) {
  peer_addrs = codes "10.0.0.3:9" ∷ replicate 7 [];
  peer_addr_count = 1;
  eff_file_level = pos 3;
  same_lan = true;
  phase = 2;
}

-- The second message about the peer starts no second receiver.
begun_threads : begun.threads ≡ [] ++ receiver ∷ []
unfolding same maybe handle on_file_notify on_file_peer_info with_peer start_thread fill_slots
    announced renew effective_file_level thread_begin
begun_threads = refl

abbrev ended : Client
ended = receiver_thread fetch receiver (without [] [] begun)

run : Reach sample_libs defaults fresh ended
unfolding announced
run =
    next begun ended
      (next again begun
        (next peered again
          (next notified peered
            (next fresh notified here (step_message fresh sample_env notify refl))
            (step_message notified sample_env peer_info refl))
          (step_message peered sample_env peer_info refl))
        (step_begin again))
      (step_receiver begun [] receiver [] begun_threads fetch refl)

Reach-account_run : account 5 ended ≡ count 5 (0 ∷ ended.opened)
Reach-account_run = Reach-account sample_libs defaults ended run 5

Reach-receivers_example : receivers ended.started + grants ended.xfer ≤ requests ended.sent + 1
Reach-receivers_example = Reach-receivers sample_libs defaults ended run

-- A message comes while the receiver has its connection 6.
abbrev connected : Client
connected = open_sock (some 6) begun

abbrev interrupted : Client
interrupted = handle sample_libs defaults sample_env peer_info connected

interrupted-Run : Run sample_libs defaults fresh interrupted (6 ∷ [])
unfolding announced
interrupted-Run =
    run_step connected interrupted (6 ∷ [])
      (run_open begun [] 6 (
        run_step again begun []
          (run_step peered again []
            (run_step notified peered []
              (run_step fresh notified [] run_start (step_message fresh sample_env notify refl))
              (step_message notified sample_env peer_info refl))
            (step_message peered sample_env peer_info refl))
          (step_begin again)))
      (step_message connected sample_env peer_info refl)

Run-account_example : account 6 interrupted + count 6 (6 ∷ []) ≡ count 6 (0 ∷ interrupted.opened)
Run-account_example = Run-account sample_libs defaults interrupted (6 ∷ []) interrupted-Run 6

-- Descriptor 0, which the program never opened, is closed at the first announcement.
closes_zero :
    (notified.closed ≡ 0 ∷ []) × (ended.closed ≡ 0 ∷ 6 ∷ 5 ∷ []) × (ended.opened ≡ 5 ∷ 6 ∷ [])
unfolding same maybe handle on_file_notify on_file_peer_info with_peer start_thread fill_slots
    announced renew effective_file_level thread_begin receiver_thread received accept_file place
closes_zero = (refl, refl, refl)
