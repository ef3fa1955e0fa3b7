-- ===== src/Client/Queue/Tests.antt =====
-- A run of the queue, and the witness of its theorem.
use sync_clipboard.Prelude.{List, [], codes, false, none, refl, some, true, ◌∷◌, ◌≡◌}
use sync_clipboard.Client.Queue.{Call, empty_queue, queue_send, run, send, wake, writeable}
use sync_clipboard.Client.Queue.Chain.{Cell, Holds}
use sync_clipboard.Client.Queue.Fifo.{AllFresh, fifo, run-fifo, texts}

-- The second message goes in between two turns, and one turn has no memory; block 5 is used twice.
abbrev calls : List Call
calls =
    send (some 5) (codes "a")
    ∷ send (some 9) (codes "b")
    ∷ wake true
    ∷ send none (codes "c")
    ∷ send (some 5) (codes "d")
    ∷ wake false
    ∷ wake true
    ∷ wake true
    ∷ []

calls-AllFresh : AllFresh calls empty_queue
unfolding queue_send writeable
calls-AllFresh = (refl, (refl, (refl, tt)))

run-fifo_example :
    ((run calls empty_queue).0 ≡ (fifo calls []).0)
    × ((cells : List Cell) × Holds (run calls empty_queue).1 cells
        × (texts cells ≡ (fifo calls []).1))
run-fifo_example = run-fifo calls calls-AllFresh

calls_written :
    (run calls empty_queue).0
    ≡ record { written = some (codes "a"); has_more = true }
      ∷ record { written = none; has_more = true }
      ∷ record { written = some (codes "d"); has_more = false }
      ∷ record { written = none; has_more = false }
      ∷ []
unfolding run
calls_written = refl
