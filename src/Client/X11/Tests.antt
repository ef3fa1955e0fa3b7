-- ===== src/Client/X11/Tests.antt =====
-- Runs of the reads of X11 and of the monitor loop, and the witnesses of their theorems.
use sync_clipboard.Client.Monitor.{Look, poll_primary}
use sync_clipboard.Client.Moves.Traces.{Reach, here}
use sync_clipboard.Client.Samples.{sample_env, sample_libs, text_look}
use sync_clipboard.Client.State.{Client, Env, fresh}
use sync_clipboard.Client.X11.{
  Part, Seen, XEvent, add_part, clipboard_event, incr_loop, monitor_turn, names_loop, new_value,
  other_event, primary_event, refresh_types, selected, wait_selected, wait_value,
}
use sync_clipboard.Client.X11.Reads.{refresh_types-fits}
use sync_clipboard.Client.X11.Turns.{
  Restless, WatchTurn, changed, monitor_turn-Reach, monitor_turns, monitor_turns-poll_primary,
  no_events, passed, rested, went_on,
}
use sync_clipboard.Config.{defaults}
use sync_clipboard.Prelude.{
  Bytes, List, Option, [], arith, codes, length, maybe, none, refl, replicate, some, true, ℕ, ◌++◌,
  ◌+◌, ◌∷◌, ◌≡◌, ◌≤◌,
}
use sync_clipboard.Windows.Board.{DynBuf, grow}

-- Twenty rounds find nothing, then the next part is there.
abbrev after_a_while : List (Option XEvent)
after_a_while = replicate 20 none ++ some other_event ∷ some new_value ∷ []

abbrev two_parts : List Part
two_parts =
    record { rounds = after_a_while; bytes = some (codes "copied ") }
    ∷ record { rounds = some new_value ∷ []; bytes = some (codes "text") }
    ∷ record { rounds = some new_value ∷ []; bytes = some [] }
    ∷ record { rounds = some new_value ∷ []; bytes = some (codes "late") }
    ∷ []

-- A buffer of four bytes grows as the parts come.
abbrev small : DynBuf
small = record { bytes = []; cap = 4 }

incr_loop-two_parts : incr_loop two_parts small ≡ record { bytes = codes "copied text"; cap = 16 }
unfolding incr_loop wait_value add_part grow maybe
incr_loop-two_parts = refl

-- The notice of a newer copy, which comes while the read waits, is dropped with the event.
wait_selected-dropped :
    wait_selected 100 (some clipboard_event ∷ some (selected true) ∷ none ∷ [])
    ≡ (some true, none ∷ [])
unfolding wait_selected
wait_selected-dropped = refl

abbrev two_names : Option (List (Option Bytes))
two_names = some (some (codes "TARGETS") ∷ none ∷ some (codes "text/html") ∷ [])

refresh_types-two_names : refresh_types 80 two_names ≡ codes "TARGETS\ntext/html\n"
unfolding refresh_types names_loop maybe
refresh_types-two_names = refl

refresh_types-fits_example : length (refresh_types 80 two_names) + 1 ≤ 80
refresh_types-fits_example = refresh_types-fits 80 two_names (omega arith) (omega arith)

abbrev at : ℕ → Env
at t = record sample_env { now = t }

abbrev marked : Look
marked = record (text_look (codes "hi")) { utf8 = some (codes "marked") }

abbrev logged_in : Client
logged_in = record fresh { logged_in = true }

monitor_turn-Reach_example :
    let w =
      monitor_turn sample_libs defaults
        (record { event = clipboard_event; env = at 2000; look = marked }
          ∷ record { event = primary_event; env = at 2001; look = marked }
          ∷ [])
        (at 2002)
        marked
        (logged_in, 0) in
    Reach sample_libs defaults logged_in w.0
monitor_turn-Reach_example =
    monitor_turn-Reach sample_libs defaults logged_in
      (record { event = clipboard_event; env = at 2000; look = marked }
        ∷ record { event = primary_event; env = at 2001; look = marked }
        ∷ [])
      (at 2002) marked logged_in 0 here

-- PRIMARY changes at 2000 and twice in the next turn, with another event between; a turn at 2500 finds
-- no event.
abbrev primary_at : ℕ → Seen
primary_at t = record { event = primary_event; env = at t; look = marked }

abbrev dragged_further : List Seen
dragged_further =
    primary_at 2250
    ∷ record { event = other_event; env = at 2260; look = marked }
    ∷ primary_at 2300
    ∷ []

abbrev dragged : List WatchTurn
dragged =
    record { events = primary_at 2000 ∷ []; env = at 2001; look = marked }
    ∷ record { events = dragged_further; env = at 2301; look = marked }
    ∷ record { events = []; env = at 2500; look = marked }
    ∷ []

dragged-Restless : Restless 1800 dragged 2300
dragged-Restless =
    went_on (primary_at 2000 ∷ []) (at 2001) marked
      (changed (at 2000) marked (omega arith) no_events) (omega arith)
      (went_on dragged_further (at 2301) marked
        (changed (at 2250) marked (omega arith) (
          passed other_event (at 2260) marked tt
            (changed (at 2300) marked (omega arith) no_events)))
        (omega arith) (went_on [] (at 2500) marked no_events (omega arith) rested))

monitor_turns-poll_primary_example :
    let w = monitor_turns sample_libs defaults dragged (logged_in, 1800) in
    let settled = monitor_turn sample_libs defaults [] (at 2801) marked w in
    (w ≡ (logged_in, 2300))
    × (settled ≡ (poll_primary sample_libs defaults (at 2801) marked logged_in, 0))
    × (monitor_turn sample_libs defaults [] (at 3400) marked settled ≡ settled)
monitor_turns-poll_primary_example =
    monitor_turns-poll_primary sample_libs defaults dragged logged_in 1800 2300 (at 2801) (at 3400)
      marked marked (omega arith) dragged-Restless (omega arith)
