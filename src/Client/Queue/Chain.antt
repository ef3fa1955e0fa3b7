-- ===== src/Client/Queue/Chain.antt =====
-- The nodes that hang together from the head of the queue, and that they survive other writes.
use sync_clipboard.Prelude.{
  All, Bytes, List, Option, [], ap, arith, false, none, refl, some, sym, true, ℕ, ◌==◌, ◌∙◌, ◌∷◌,
  ◌≡◌, ◌≢◌,
}
use sync_clipboard.Client.Queue.{Heap, SendNode, SendQueue, set}

-- An address and the message in its node.
pub record Cell : Type 0 where
  pub at : ℕ
  pub text : Bytes

abbrev pub first : List Cell → Option ℕ
first [] = none
first (c ∷ cs) = some c.at

abbrev pub last : List Cell → Option ℕ
last [] = none
last (c ∷ []) = some c.at
last (c ∷ d ∷ cs) = last (d ∷ cs)

-- Each node has its message and points to the next; no address comes twice.
abbrev pub Linked : Heap → List Cell → Type 0
Linked heap [] = Unit
Linked heap (c ∷ cs) =
    (heap c.at ≡ some (record { msg = c.text; next = first cs }))
    × All (λ d. d.at ≢ c.at) cs
    × Linked heap cs

pub record Holds (q : SendQueue) (cells : List Cell) : Type 0 where
  pub head : q.head ≡ first cells
  pub tail : q.tail ≡ last cells
  pub stored : Linked q.heap cells

pub set-same : (heap : Heap) (a : ℕ) (v : Option SendNode) → set heap a v a ≡ v
set-same heap a v = let yes : (a == a) ≡ true = ground arith in rw yes refl

pub set-other : (heap : Heap) (a b : ℕ) (v : Option SendNode) → b ≢ a → set heap a v b ≡ heap b
set-other heap a b v h = let differ : (a == b) ≡ false = ground arith in rw differ refl

pub Linked-set :
    (heap : Heap) (a : ℕ) (v : Option SendNode) (cs : List Cell)
    → All (λ d. d.at ≢ a) cs
    → Linked heap cs
    → Linked (set heap a v) cs
Linked-set heap a v [] h s = tt
Linked-set heap a v (c ∷ cs) (n, h) (e, d, s) =
    (set-other heap a c.at v n ∙ e, d, Linked-set heap a v cs h s)

-- A block that `malloc` has just returned is not among the nodes.
pub fresh_all :
    (heap : Heap) (a : ℕ) (cs : List Cell) → heap a ≡ none → Linked heap cs → All (λ d. d.at ≢ a) cs
fresh_all heap a [] h s = tt
fresh_all heap a (c ∷ cs) h (e, d, s) =
    (λ p. none_is_some (sym h ∙ ap heap (sym p) ∙ e), fresh_all heap a cs h s)
  where
    none_is_some : {n : SendNode} → none ≢ some n
    none_is_some p = cc
