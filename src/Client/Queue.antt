-- ===== src/Client/Queue.antt =====
-- linux/main.c: the linked list behind `g_send_head` and `g_send_tail`, `queue_send`, and the
-- LWS_CALLBACK_CLIENT_WRITEABLE case of `ws_callback`. The heap is a function from addresses to
-- nodes; each call runs under the lock, so that the calls come one after another.
pub mod Chain
pub mod Refine
pub mod Fifo
mod Tests
use sync_clipboard.Prelude.{
  Bool, Bytes, List, Option, [], false, if◌then◌else◌, none, not, some, true, ℕ, ◌==◌, ◌∷◌,
}

pub record SendNode : Type 0 where
  pub msg : Bytes
  pub next : Option ℕ

abbrev pub Heap : Type 0
Heap = ℕ → Option SendNode

pub record SendQueue : Type 0 where
  pub heap : Heap
  pub head : Option ℕ
  pub tail : Option ℕ

abbrev pub set : Heap → ℕ → Option SendNode → Heap
set heap a v b = if a == b then v else heap b

-- `t->next = node`
unfoldable pub set_next : Heap → ℕ → ℕ → Heap
set_next heap t node = elim (heap t) [
  | none ↦ heap
  | some n ↦ set heap t (some (record n { next = some node }))
]

-- `queue_send`, with what `malloc` returns for the node; `strdup` is taken to succeed.
unfoldable pub queue_send : Option ℕ → Bytes → SendQueue → SendQueue
unfolding set_next
queue_send none msg q = q
queue_send (some node) msg q =
    let made = set q.heap node (some (record { msg = msg; next = none })) in
    elim q.tail [
      | some t ↦ record q { heap = set_next made t node; tail = some node }
      | none ↦ record { heap = made; head = some node; tail = some node }
    ]

abbrev pub is_null : Option ℕ → Bool
is_null none = true
is_null (some a) = false

-- What a turn does to the outside: the text given to `lws_write`, and if it asks for another turn.
pub record Turn : Type 0 where
  pub written : Option Bytes
  pub has_more : Bool

-- The node is taken off and freed; the text is written if there is memory for the buffer.
unfoldable pub take_node : Bool → ℕ → SendNode → SendQueue → Turn × SendQueue
take_node granted a node q = (
  record { written = if granted then some node.msg else none; has_more = not (is_null node.next) },
  record {
    heap = set q.heap a none;
    head = node.next;
    tail = if is_null node.next then none else q.tail;
  },
)

-- The case LWS_CALLBACK_CLIENT_WRITEABLE; the inner `none` is a dangling head, which is not reached.
unfoldable pub writeable : Bool → SendQueue → Turn × SendQueue
unfolding take_node
writeable granted q = elim q.head [
  | none ↦ (record { written = none; has_more = false }, q)
  | some a ↦ elim (q.heap a) [
    | none ↦ (record { written = none; has_more = false }, q)
    | some node ↦ take_node granted a node q
  ]
]

-- What can happen to the queue.
pub data Call : Type 0 where
  send : Option ℕ → Bytes → Call
  wake : Bool → Call

unfoldable pub run : List Call → SendQueue → List Turn × SendQueue
unfolding queue_send writeable
run [] q = ([], q)
run (send node msg ∷ calls) q = run calls (queue_send node msg q)
run (wake granted ∷ calls) q =
    let turn = writeable granted q in let rest = run calls turn.1 in (turn.0 ∷ rest.0, rest.1)

abbrev pub empty_queue : SendQueue
empty_queue = record { heap = λ a. none; head = none; tail = none }
