-- ===== src/Client/Queue/Refine.antt =====
-- The linked list is a queue: what goes in comes out in order.
use sync_clipboard.Prelude.{
  All, All-append, Bool, Bytes, List, Option-cases, [], ap, false, if◌then◌else◌, inl, inr, none,
  not, refl, some, subst, sym, ℕ, ◌++◌, ◌∙◌, ◌∷◌, ◌≡◌, ◌≢◌,
}
use sync_clipboard.Client.Queue.{
  Heap, SendNode, SendQueue, is_null, queue_send, set, set_next, writeable,
}
use sync_clipboard.Client.Queue.Chain.{
  Cell, Holds, Linked, Linked-set, first, fresh_all, last, set-other, set-same,
}

last-All :
    (P : ℕ → Type 0) (c : Cell) (cs : List Cell) {t : ℕ}
    → All (λ d. P d.at) (c ∷ cs)
    → last (c ∷ cs) ≡ some t
    → P t
last-All P c [] (p, h) e = subst P (some_inj e) p
  where
    some_inj : {a b : ℕ} → some a ≡ some b → a ≡ b
    some_inj p = cc
last-All P c (d ∷ ds) (p, h) e = last-All P d ds h e

set_next-other : (heap : Heap) (t a b : ℕ) → b ≢ t → set_next heap t a b ≡ heap b
unfolding set_next
set_next-other heap t a b h = elim (Option-cases (heap t)) [
  | inl e ↦ rw (e, set_next) refl
  | inr (n, e) ↦ rw (e, set_next) (set-other heap t b (some (record n { next = some a })) h)
]

set_next-some :
    (heap : Heap) (t a : ℕ) {n : SendNode}
    → heap t ≡ some n
    → set_next heap t a ≡ set heap t (some (record n { next = some a }))
unfolding set_next
set_next-some heap t a e = rw (e, set_next) refl

-- The last node of the chain is made to point to the new one.
Linked-set_next :
    (heap : Heap) (c : Cell) (cs : List Cell) (t a : ℕ) (text : Bytes)
    → Linked heap (c ∷ cs)
    → All (λ d. d.at ≢ a) (c ∷ cs)
    → heap a ≡ some (record { msg = text; next = none })
    → last (c ∷ cs) ≡ some t
    → Linked (set_next heap t a) ((c ∷ cs) ++ record { at = a; text = text } ∷ [])
Linked-set_next heap c [] t a text (e, d, s) (n, m) new l =
    subst (λ t. Linked (set_next heap t a) (c ∷ record { at = a; text = text } ∷ [])) (some_inj l)
      (
        here ∙ set-same heap c.at _,
        ((λ p. n (sym p)), tt),
        (set_next-other heap c.at a a (λ p. n (sym p)) ∙ new, tt, tt),
      )
  where
    some_inj : {a b : ℕ} → some a ≡ some b → a ≡ b
    some_inj p = cc

    here :
        set_next heap c.at a c.at
        ≡ set heap c.at (some (record { msg = c.text; next = some a })) c.at
    here = ap (λ g. g c.at) (set_next-some heap c.at a e)
Linked-set_next heap c (d ∷ ds) t a text (e, far, s) (n, m) new l = (
  set_next-other heap t a c.at (λ p. last-All (λ x. x ≢ c.at) d ds far l (sym p)) ∙ e,
  All-append (λ x. x.at ≢ c.at) (d ∷ ds) (record { at = a; text = text } ∷ []) far
      ((λ p. n (sym p)), tt),
  Linked-set_next heap d ds t a text s m new l,
)

last-append : (cs : List Cell) (d : Cell) → last (cs ++ d ∷ []) ≡ some d.at
last-append [] d = refl
last-append (c ∷ []) d = refl
last-append (c ∷ c' ∷ cs) d = last-append (c' ∷ cs) d

-- `queue_send` puts its message at the end.
pub queue_send-Holds :
    (a : ℕ) (text : Bytes) (q : SendQueue) (cells : List Cell)
    → q.heap a ≡ none
    → Holds q cells
    → Holds (queue_send (some a) text q) (cells ++ record { at = a; text = text } ∷ [])
unfolding queue_send
queue_send-Holds a text q [] new h =
    rw (h.tail, queue_send)
      (record {
        head = refl;
        tail = refl;
        stored = (set-same q.heap a (some (record { msg = text; next = none })), tt, tt);
      })
queue_send-Holds a text q (c ∷ cs) new h = linked (last_is c cs)
  where
    last_is : (c : Cell) (cs : List Cell) → (t : ℕ) × (last (c ∷ cs) ≡ some t)
    last_is c [] = (c.at, refl)
    last_is c (d ∷ ds) = last_is d ds

    linked :
        (t : ℕ) × (last (c ∷ cs) ≡ some t)
        → Holds (queue_send (some a) text q) ((c ∷ cs) ++ record { at = a; text = text } ∷ [])
    linked (t, l) =
        let made : Heap = set q.heap a (some (record { msg = text; next = none })) in
        let others : All (λ d. d.at ≢ a) (c ∷ cs) = fresh_all q.heap a (c ∷ cs) new h.stored in
        rw (h.tail ∙ l, queue_send)
          (record {
            head = h.head;
            tail = sym (last-append (c ∷ cs) (record { at = a; text = text }));
            stored =
                Linked-set_next made c cs t a text
                  (Linked-set q.heap a (some (record { msg = text; next = none })) (c ∷ cs) others
                    h.stored)
                  others (set-same q.heap a (some (record { msg = text; next = none }))) l;
          })

-- A turn takes the first message off, writes it if there is memory, and asks for another turn exactly
-- if there are more.
pub writeable-Holds :
    (granted : Bool) (q : SendQueue) (c : Cell) (cs : List Cell)
    → Holds q (c ∷ cs)
    → ((writeable granted q).0 ≡ record {
      written = if granted then some c.text else none;
      has_more = not (is_null (first cs));
    })
      × Holds (writeable granted q).1 cs
unfolding writeable
writeable-Holds granted q c cs h =
    rw (h.head, h.stored.0, writeable)
      (
        refl,
        record {
          head = refl;
          tail = last_of cs h.tail;
          stored = Linked-set q.heap c.at none cs h.stored.1 h.stored.2;
        },
      )
  where
    last_of :
        (cs : List Cell)
        → q.tail ≡ last (c ∷ cs)
        → (if is_null (first cs) then none else q.tail) ≡ last cs
    last_of [] e = refl
    last_of (d ∷ ds) e = e

pub writeable-empty :
    (granted : Bool) (q : SendQueue)
    → Holds q []
    → ((writeable granted q).0 ≡ record { written = none; has_more = false })
      × Holds (writeable granted q).1 []
unfolding writeable
writeable-empty granted q h = rw (h.head, writeable) (refl, h)
