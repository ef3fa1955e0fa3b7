-- ===== src/Net.antt =====
-- common/ft/ft_socket.c: `ft_send_all` and `ft_recv_all`, over the world that they act on.
--
-- A `World` holds what one end of a connection can see and touch: the bytes that wait to be
-- received, the bytes handed over to the peer, the files, and the choices of the operating system.
-- `answers` says, call by call, how many bytes a `send` or `recv` is willing to move, 0 standing
-- for every answer `n <= 0` (error, time-out, end of stream); a list that has run out is a time-out.
-- `grants` says, call by call, if `fopen`, `malloc`, `fread` or `fwrite` succeeds; past its end
-- they do.
pub mod Send
pub mod Recv
pub mod Moves
pub mod Sound
use sync_clipboard.Prelude.{
  All, Bool, Bytes, List, Option, [], drop, false, if◌then◌else◌, length, ltb, min, none, some, suc,
  take, true, zero, ℕ, ◌%◌, ◌++◌, ◌-◌, ◌<◌, ◌==◌, ◌^◌, ◌∷◌, ◌≤◌,
}

abbrev pub Files : Type 0
Files = Bytes → Option Bytes

pub record World : Type 0 where
  pub inbox : Bytes
  pub outbox : Bytes
  pub answers : List ℕ
  pub grants : List Bool
  pub files : Files

-- `fail` is a return of -1. `undefined` is reached where the code hands the kernel a length that
-- does not fit an `int`.
pub data Ret {ℓ} (A : Type ℓ) : Type ℓ where
  done : A → Ret A
  fail undefined : Ret A

abbrev pub Io {ℓ} : Type ℓ → Type ℓ
Io A = World → Ret A × World

abbrev pub pure {ℓ} : {A : Type ℓ} → A → Io A
pure a w = (done a, w)

abbrev pub refuse {ℓ} : {A : Type ℓ} → Io A
refuse w = (fail, w)

-- The continuation runs only after a success.
abbrev pub bind {ℓ κ} : {A : Type ℓ} {B : Type κ} → Ret A × World → (A → Io B) → Ret B × World
bind (done a, w) f = f a w
bind (fail, w) f = (fail, w)
bind (undefined, w) f = (undefined, w)

infixl 5 ◌>>=◌ ◌>>◌
abbrev pub ◌>>=◌ {ℓ κ} : {A : Type ℓ} {B : Type κ} → Io A → (A → Io B) → Io B
◌>>=◌ m f w = bind (m w) f

abbrev pub ◌>>◌ {ℓ} : {B : Type ℓ} → Io (Unit {0}) → Io B → Io B
m >> k = m >>= λ _. k

-- `if (!test) return -1;`
abbrev pub require : Bool → Io (Unit {0})
require true = pure tt
require false = refuse

-- `(int)(len - sent)`, as the length that the kernel is asked for: `none` where the cast is
-- negative, which the kernel would read as a length near 2^64.
abbrev pub request : ℕ → Option ℕ
request left = if ltb (left % 2 ^ 32) (2 ^ 31) then some (left % 2 ^ 32) else none

-- The loop of `ft_send_all`; the list is `p[sent..len)`. Each round takes one answer.
unfoldable pub send_loop : List ℕ → Bytes → World → Ret (Unit {0}) × World
send_loop ks [] w = (done tt, record w { answers = ks })
send_loop [] (b ∷ bs) w = (fail, record w { answers = [] })
send_loop (k ∷ ks) (b ∷ bs) w = elim (request (length (b ∷ bs))) [
  | none ↦ (undefined, record w { answers = ks })
  | some q ↦
      let n = min k q in
      let rest =
        send_loop ks (drop n (b ∷ bs)) (record w { outbox = w.outbox ++ take n (b ∷ bs) }) in
      if n == 0 then (fail, record w { answers = ks }) else rest
]

-- `ft_send_all(sock, buf, len)`, where `buf` has at least `len` bytes.
unfoldable pub send_all : Bytes → ℕ → Io (Unit {0})
unfolding send_loop
send_all buf len w = send_loop w.answers (take len buf) w

-- The loop of `ft_recv_all`, with `len - got` and the bytes read so far.
unfoldable pub recv_loop : List ℕ → ℕ → Bytes → World → Ret Bytes × World
recv_loop ks zero got w = (done got, record w { answers = ks })
recv_loop [] (suc m) got w = (fail, record w { answers = [] })
recv_loop (k ∷ ks) (suc m) got w = elim (request (suc m)) [
  | none ↦ (undefined, record w { answers = ks })
  | some q ↦
      let n = min k (min q (length w.inbox)) in
      let rest =
        recv_loop ks (suc m - n) (got ++ take n w.inbox) (record w { inbox = drop n w.inbox }) in
      if n == 0 then (fail, record w { answers = ks }) else rest
]

-- `ft_recv_all(sock, buf, len)`: the bytes that it fills `buf` with.
unfoldable pub recv_all : ℕ → Io Bytes
unfolding recv_loop
recv_all len w = recv_loop w.answers len [] w

-- The operating system's next yes or no.
unfoldable pub next_grant : List Bool → Io Bool
next_grant [] w = (done true, w)
next_grant (g ∷ gs) w = (done g, record w { grants = gs })

unfoldable pub ask : Io Bool
unfolding next_grant
ask w = next_grant w.grants w

-- A network that moves at least `n` bytes before it stops: every call makes progress.
abbrev pub Plenty : ℕ → List ℕ → Type 0
Plenty n ks = All (λ k. 0 < k) ks × (n ≤ length ks)
