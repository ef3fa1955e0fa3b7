-- ===== src/Client/Moves.antt =====
-- linux/main.c: the two balances that every operation of the Linux client keeps. One is of sockets:
-- what was opened, with descriptor 0 that the zeroed state names, is closed or held. The other is of
-- receivers: each announcement that is answered with a file_request lets one receiver start.
pub mod Handlers
pub mod Launch
pub mod Monitor
pub mod Runs
pub mod Session
pub mod Threads
pub mod Traces
use sync_clipboard.Client.Message.{string, Object, field}
use sync_clipboard.Client.State.{TransferState, Client, as_list}
use sync_clipboard.Prelude.{
  false, ◌≤◌, some, arith, ◌++◌, count, ℕ, ◌∙◌, ◌+◌, not, ltb, ◌≡◌, inl, suc, same, ◌&&◌,
  Bool-cases, ◌∷◌, refl, Bool, List, if◌then◌else◌, codes, ap, inr, [],
}

-- A receiver has taken its listening socket over; a sender uses the one of the shared state.
unfoldable pub owned : TransferState → List ℕ
owned st = if st.is_sender then [] else as_list st.listen_fd

unfoldable pub all_owned : List TransferState → List ℕ
unfolding owned
all_owned [] = []
all_owned (st ∷ threads) = owned st ++ all_owned threads

-- The sockets that are closed or held: by the shared state, or by a receiver.
unfoldable pub account : ℕ → Client → ℕ
unfolding all_owned
account fd c =
    count fd c.closed + (count fd (as_list c.xfer.listen_fd) + count fd (all_owned c.threads))

abbrev pub is_request : Object → Bool
is_request msg = elim (field (codes "type") msg) [
  | some (string s) ↦ same s (codes "file_request")
  | _ ↦ false
]

-- How many file_request messages were sent.
unfoldable pub requests : List Object → ℕ
unfolding field same
requests [] = 0
requests (msg ∷ sent) = let rest = requests sent in if is_request msg then suc rest else rest

-- How many of the threads are receivers.
unfoldable pub receivers : List TransferState → ℕ
receivers [] = 0
receivers (st ∷ threads) = let rest = receivers threads in if st.is_sender then rest else suc rest

-- If the state would still let a receiver start.
unfoldable pub grants : TransferState → ℕ
grants st = if not st.is_sender && ltb st.phase 2 then 1 else 0

unfoldable pub Balanced : Client → Client → Type 0
unfolding account
Balanced c d = (fd : ℕ) → account fd d + count fd c.opened ≡ account fd c + count fd d.opened

unfoldable pub Granted : Client → Client → Type 0
unfolding receivers grants requests
Granted c d =
    receivers d.started + grants d.xfer + requests c.sent
    ≤ receivers c.started + grants c.xfer + requests d.sent

abbrev pub Move : Client → Client → Type 0
Move c d = Balanced c d × Granted c d

module _ (fd : ℕ) where
  pub account_eq :
      (c d : Client)
      → d.xfer ≡ c.xfer
      → d.closed ≡ c.closed
      → d.threads ≡ c.threads
      → account fd d ≡ account fd c
  unfolding account
  account_eq c d exfer eclosed ethreads =
      let a : count fd d.closed ≡ count fd c.closed = ap (count fd) eclosed in
      let b : count fd (as_list d.xfer.listen_fd) ≡ count fd (as_list c.xfer.listen_fd) =
        ap (λ st. count fd (as_list st.listen_fd)) exfer in
      let e : count fd (all_owned d.threads) ≡ count fd (all_owned c.threads) =
        ap (λ ts. count fd (all_owned ts)) ethreads in
      omega (arith, a, b, e)

-- What the balances read of a client, but for the messages sent.
unfoldable pub view :
    Client → TransferState × List ℕ × List ℕ × List TransferState × List TransferState
view c = (c.xfer, c.closed, c.opened, c.threads, c.started)

-- An operation that leaves transfers, sockets and threads alone, and sends whatever it sends.
unfoldable pub Quiet : Client → Client → Type 0
unfolding view requests
Quiet c d = (view d ≡ view c) × (requests c.sent ≤ requests d.sent)

pub Quiet-Move : (c d : Client) → Quiet c d → Move c d
unfolding Balanced Granted Quiet view
Quiet-Move c d (v, s) = (
  λ fd.
      let a : account fd d ≡ account fd c =
        account_eq fd c d (ap (λ t. t.0) v) (ap (λ t. t.1) v) (ap (λ t. t.3) v) in
      let b : count fd d.opened ≡ count fd c.opened = ap (λ t. count fd t.2) v in
      omega (arith, a, b),
  let a : receivers d.started ≡ receivers c.started = ap (λ t. receivers t.4) v in
      let b : grants d.xfer ≡ grants c.xfer = ap (λ t. grants t.0) v in omega (arith, a, b, s),
)

pub requests-append :
    (sent : List Object) (msg : Object)
    → requests (sent ++ msg ∷ []) ≡ requests sent + (if is_request msg then 1 else 0)
unfolding requests
requests-append [] msg = elim (Bool-cases (is_request msg)) [
  | inl e ↦ rw e refl
  | inr e ↦ rw e refl
]
requests-append (m ∷ sent) msg =
    let ih = requests-append sent msg in
    elim (Bool-cases (is_request m)) [
      | inl e ↦ rw e omega (arith, ih)
      | inr e ↦ rw e omega (arith, ih)
    ]

pub requests-queue :
    (sent : List Object) (msg : Object) → requests sent ≤ requests (sent ++ msg ∷ [])
requests-queue sent msg = let e = requests-append sent msg in omega arith

-- Where the fields evaluate, both equations hold by evaluation.
pub Quiet-of : (c d : Client) → view d ≡ view c → d.sent ≡ c.sent → Quiet c d
unfolding Quiet
Quiet-of c d v e = (v, let a = ap requests e in omega (arith, a))

pub Quiet-sends :
    (c d : Client) (msg : Object) → view d ≡ view c → d.sent ≡ c.sent ++ msg ∷ [] → Quiet c d
unfolding Quiet
Quiet-sends c d msg v e =
    (v, let a = ap requests e in let b = requests-queue c.sent msg in omega (arith, a, b))

pub Quiet-refl : (c : Client) → Quiet c c
Quiet-refl c = Quiet-of c c refl refl

pub Quiet-trans : (c d e : Client) → Quiet c d → Quiet d e → Quiet c e
unfolding Quiet
Quiet-trans c d e (v, p) (w, q) = (w ∙ v, omega arith)

pub Move-refl : (c : Client) → Move c c
Move-refl c = Quiet-Move c c (Quiet-refl c)

pub Move-trans : (c d e : Client) → Move c d → Move d e → Move c e
unfolding Balanced Granted
Move-trans c d e (p, g) (q, h) = (λ fd. let a = p fd in let b = q fd in omega arith, omega arith)
