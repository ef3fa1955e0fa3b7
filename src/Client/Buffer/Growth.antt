-- ===== src/Client/Buffer/Growth.antt =====
-- The buffer grows enough, and where the closing NUL goes.
use sync_clipboard.Prelude.{
  ==_iff, Bool, Bool-cases, Bytes, arith, false, inl, inr, length, length-append, ltb, ltb→le,
  ltb→lt, refl, some, suc, true, zero, ℕ, ◌*◌, ◌++◌, ◌+◌, ◌<◌, ◌==◌, ◌↔◌, ◌≡◌, ◌≢◌, ◌≤◌,
}
use sync_clipboard.Client.Buffer.{
  Arrival, RecvBuf, grow_loop, message, more, new_size, no_memory, receive, store,
}

grow_loop-done :
    (fuel needed new_cap : ℕ)
    → 0 < new_cap
    → 0 < fuel
    → needed + 1 < fuel + new_cap
    → (cap : ℕ) × (grow_loop fuel needed new_cap ≡ some cap) × (needed + 1 ≤ cap) × (new_cap ≤ cap)
unfolding grow_loop
grow_loop-done zero needed new_cap pos wider h = absurd (omega arith)
grow_loop-done (suc fuel) needed new_cap pos some_fuel h =
    elim (Bool-cases (ltb new_cap (needed + 1))) [
      | inr e ↦ rw (e, grow_loop) (new_cap, refl, ltb→le new_cap (needed + 1) e, omega arith)
      | inl e ↦
          let lt : new_cap < needed + 1 = ltb→lt new_cap (needed + 1) e in
          let (cap, found, enough, wider) =
            grow_loop-done fuel needed (new_cap * 2) (omega arith) (omega arith) (omega arith) in
          rw (e, grow_loop) (cap, found, enough, omega (arith, wider))
    ]

pub new_size-done :
    (cap needed : ℕ)
    → (cap' : ℕ) × (new_size cap needed ≡ some cap') × (needed + 1 ≤ cap') × (cap ≤ cap')
unfolding new_size
new_size-done cap needed = elim (Bool-cases (cap == 0)) [
  | inl e ↦
      let zero_cap : cap ≡ 0 = (==_iff cap 0).0 e in
      let (c, found, enough, wider) =
        grow_loop-done (needed + 2) needed 4096 (omega arith) (omega arith) (omega arith) in
      rw (e, new_size) (c, found, enough, omega arith)
  | inr e ↦
      let pos : 0 < cap = ground arith in
      let (c, found, enough, wider) =
        grow_loop-done (needed + 2) needed cap pos (omega arith) (omega arith) in
      rw (e, new_size) (c, found, enough, wider)
]

-- The bytes received so far lie inside the buffer.
abbrev pub InBounds : RecvBuf → Type 0
InBounds buf = length buf.text ≤ buf.cap

-- The text stands in the buffer before the NUL is written, and where it is written.
abbrev pub Placed : Arrival → RecvBuf → Type 0
Placed no_memory buf = Unit
Placed more buf = Unit
Placed (message text end) buf = (length text ≡ end) × (end ≤ buf.cap)

store-InBounds :
    (final : Bool) (fragment : Bytes) (buf : RecvBuf)
    → length buf.text + length fragment ≤ buf.cap
    → let r = store final fragment buf in InBounds r.1 × Placed r.0 r.1 × (r.1.cap ≡ buf.cap)
store-InBounds true fragment buf h =
    (omega arith, (refl, omega (arith, length-append buf.text fragment)), refl)
store-InBounds false fragment buf h = (omega (arith, length-append buf.text fragment), tt, refl)

-- A fragment, whether it is the last or not and whether memory is there or not, is copied inside the
-- buffer, so that the bytes received so far always lie in it, and so does a whole message, before
-- its NUL.
pub receive-InBounds :
    (granted final : Bool) (fragment : Bytes) (buf : RecvBuf)
    → InBounds buf
    → let r = receive granted final fragment buf in InBounds r.1 × Placed r.0 r.1
unfolding receive
receive-InBounds granted final fragment buf h =
    elim (Bool-cases (ltb buf.cap (length buf.text + length fragment))) [
      | inr e ↦
          let fits : length buf.text + length fragment ≤ buf.cap = ltb→le _ _ e in
          let s = store-InBounds final fragment buf fits in rw (e, receive) (s.0, s.1)
      | inl e ↦ elim (Bool-cases granted) [
        | inr no_room ↦ rw (e, no_room, receive) (omega arith, tt)
        | inl room ↦
            let (c, found, enough, wider) =
              new_size-done buf.cap (length buf.text + length fragment) in
            let s = store-InBounds final fragment (record buf { cap = c }) (omega arith) in
            rw (e, room, found, receive) (s.0, s.1)
      ]
    ]

-- The NUL behind a whole message is written past the end of the buffer exactly if the message fills
-- the buffer as it was before the last fragment: only then is it not grown.
pub receive-nul_iff :
    (granted : Bool) (fragment : Bytes) (buf : RecvBuf) (text : Bytes) (end : ℕ)
    → (receive granted true fragment buf).0 ≡ message text end
    → ((receive granted true fragment buf).1.cap ≤ end)
      ↔ (length buf.text + length fragment ≡ buf.cap)
unfolding receive
receive-nul_iff granted fragment buf text end h =
    elim (Bool-cases (ltb buf.cap (length buf.text + length fragment))) [
      | inr e ↦
          let fits : length buf.text + length fragment ≤ buf.cap = ltb→le _ _ e in
          let m : message (buf.text ++ fragment) (length (buf.text ++ fragment))
              ≡ message text end =
            rw (e, receive) at h in
          let ends : length (buf.text ++ fragment) ≡ end = cc in
          rw (e, receive)
            (
              (λ k. omega (arith, length-append buf.text fragment)),
              (λ k. omega (arith, length-append buf.text fragment)),
            )
      | inl e ↦ elim (Bool-cases granted) [
        | inr no_room ↦ absurd (no_message text end (rw (e, no_room, receive) at h))
        | inl room ↦
            let lt : buf.cap < length buf.text + length fragment = ltb→lt _ _ e in
            let (c, found, enough, wider) =
              new_size-done buf.cap (length buf.text + length fragment) in
            let m : message (buf.text ++ fragment) (length (buf.text ++ fragment))
                ≡ message text end =
              rw (e, room, found, receive) at h in
            let ends : length (buf.text ++ fragment) ≡ end = cc in
            rw (e, room, found, receive)
              (
                (λ k. absurd (omega (arith, length-append buf.text fragment))),
                (λ k. absurd (omega arith)),
              )
      ]
    ]
  where
    no_message : (text : Bytes) (end : ℕ) → no_memory ≢ message text end
    no_message text end p = cc
