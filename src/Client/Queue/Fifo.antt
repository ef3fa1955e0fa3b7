-- ===== src/Client/Queue/Fifo.antt =====
-- The queue as a list of messages, and that the linked list implements it over any run.
use sync_clipboard.Prelude.{
  Bool, Bytes, List, [], ap, false, if◌then◌else◌, none, not, refl, some, true, ◌++◌, ◌∙◌, ◌∷◌, ◌≡◌,
}
use sync_clipboard.Client.Queue.{
  Call, SendQueue, Turn, empty_queue, is_null, queue_send, run, send, wake, writeable,
}
use sync_clipboard.Client.Queue.Chain.{Cell, Holds, first}
use sync_clipboard.Client.Queue.Refine.{queue_send-Holds, writeable-Holds, writeable-empty}

abbrev pub no_message : List Bytes → Bool
no_message [] = true
no_message (m ∷ ms) = false

-- First in, first out: a message that has got a node waits behind the others, and a turn takes the
-- one that has waited longest. It is lost if there is no memory for the buffer.
abbrev pub fifo : List Call → List Bytes → List Turn × List Bytes
fifo [] ms = ([], ms)
fifo (send none msg ∷ calls) ms = fifo calls ms
fifo (send (some a) msg ∷ calls) ms = fifo calls (ms ++ msg ∷ [])
fifo (wake granted ∷ calls) [] =
    let rest = fifo calls [] in (record { written = none; has_more = false } ∷ rest.0, rest.1)
fifo (wake granted ∷ calls) (m ∷ ms) =
    let rest = fifo calls ms in
    let turn : Turn = record {
      written = if granted then some m else none;
      has_more = not (no_message ms);
    } in
    (turn ∷ rest.0, rest.1)

-- `malloc` returns blocks that are not in use.
abbrev pub AllFresh : List Call → SendQueue → Type 0
AllFresh [] q = Unit
AllFresh (send none msg ∷ calls) q = AllFresh calls q
AllFresh (send (some a) msg ∷ calls) q =
    (q.heap a ≡ none) × AllFresh calls (queue_send (some a) msg q)
AllFresh (wake granted ∷ calls) q = AllFresh calls (writeable granted q).1

abbrev pub texts : List Cell → List Bytes
texts [] = []
texts (c ∷ cs) = c.text ∷ texts cs

texts-append : (cs : List Cell) (d : Cell) → texts (cs ++ d ∷ []) ≡ texts cs ++ d.text ∷ []
texts-append [] d = refl
texts-append (c ∷ cs) d = ap (◌∷◌ c.text) (texts-append cs d)

is_null-first : (cs : List Cell) → is_null (first cs) ≡ no_message (texts cs)
is_null-first [] = refl
is_null-first (c ∷ cs) = refl

-- A run of the list, and of the queue that it stands for.
pub record Refines (calls : List Call) (q : SendQueue) (ms : List Bytes) : Type 0 where
  pub turns : (run calls q).0 ≡ (fifo calls ms).0
  pub cells : List Cell
  pub holds : Holds (run calls q).1 cells
  pub left : texts cells ≡ (fifo calls ms).1

run-Refines :
    (calls : List Call) (q : SendQueue) (cells : List Cell)
    → Holds q cells
    → AllFresh calls q
    → Refines calls q (texts cells)
unfolding run
run-Refines [] q cells h f = record { turns = refl; cells = cells; holds = h; left = refl }
run-Refines (send none msg ∷ calls) q cells h f =
    let r = run-Refines calls q cells h f in
    record { turns = r.turns; cells = r.cells; holds = r.holds; left = r.left }
run-Refines (send (some a) msg ∷ calls) q cells h (new, f) =
    let d : Cell = record { at = a; text = msg } in
    let r : Refines calls (queue_send (some a) msg q) (texts (cells ++ d ∷ [])) =
      run-Refines calls (queue_send (some a) msg q) (cells ++ d ∷ [])
        (queue_send-Holds a msg q cells new h) f in
    let e : texts (cells ++ d ∷ []) ≡ texts cells ++ msg ∷ [] = texts-append cells d in
    record {
      turns = r.turns ∙ ap (λ ms. (fifo calls ms).0) e;
      cells = r.cells;
      holds = r.holds;
      left = r.left ∙ ap (λ ms. (fifo calls ms).1) e;
    }
run-Refines (wake granted ∷ calls) q [] h f =
    let w = writeable-empty granted q h in
    let r = run-Refines calls (writeable granted q).1 [] w.1 f in
    record { turns = λ i. w.0 i ∷ r.turns i; cells = r.cells; holds = r.holds; left = r.left }
run-Refines (wake granted ∷ calls) q (c ∷ cs) h f =
    let w = writeable-Holds granted q c cs h in
    let r = run-Refines calls (writeable granted q).1 cs w.1 f in
    record {
      turns = λ i.
          (w.0 ∙ (λ j. record {
            written = if granted then some c.text else none;
            has_more = not (is_null-first cs j);
          }))
            i
          ∷ r.turns i;
      cells = r.cells;
      holds = r.holds;
      left = r.left;
    }

-- Whatever calls come, and in whatever order, the messages are written in the order of `queue_send`,
-- each at most once, and a further turn is asked for exactly while there are more: the linked list
-- behind `g_send_head` and `g_send_tail` does what a list of messages does. A message without a node
-- is not queued, and one without a buffer is dropped.
pub run-fifo :
    (calls : List Call)
    → AllFresh calls empty_queue
    → ((run calls empty_queue).0 ≡ (fifo calls []).0)
      × ((cells : List Cell) × Holds (run calls empty_queue).1 cells
          × (texts cells ≡ (fifo calls []).1))
run-fifo calls f =
    let r : Refines calls empty_queue [] =
      run-Refines calls empty_queue [] (record { head = refl; tail = refl; stored = tt }) f in
    (r.turns, (r.cells, r.holds, r.left))
