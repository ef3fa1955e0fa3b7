-- ===== src/Client/Buffer.antt =====
-- linux/main.c: the LWS_CALLBACK_CLIENT_RECEIVE case of `ws_callback` up to the parsing: the fragments
-- of a message are put together in `g_recv_buf`.
pub mod Growth
pub mod Messages
mod Tests
use sync_clipboard.Prelude.{
  Bool, Bytes, Option, [], if◌then◌else◌, length, ltb, none, some, suc, zero, ℕ, ◌*◌, ◌++◌, ◌+◌,
  ◌==◌,
}

-- `text` is the first `g_recv_len` bytes of the buffer, `cap` is `g_recv_cap`.
pub record RecvBuf : Type 0 where
  pub text : Bytes
  pub cap : ℕ

-- `while (new_cap < needed + 1) new_cap *= 2;`, on fuel; `none` for want of it.
unfoldable pub grow_loop : ℕ → ℕ → ℕ → Option ℕ
grow_loop zero needed new_cap = none
grow_loop (suc fuel) needed new_cap =
    let next = grow_loop fuel needed (new_cap * 2) in
    if ltb new_cap (needed + 1) then next else some new_cap

-- The new size; a size of 0 stands for no buffer. Each turn doubles it, so that `needed + 1` turns
-- are more than enough.
unfoldable pub new_size : ℕ → ℕ → Option ℕ
unfolding grow_loop
new_size cap needed = grow_loop (needed + 2) needed (if cap == 0 then 4096 else cap)

-- What a fragment leads to: no memory, more to come, or a whole message. With a whole message the
-- NUL is written at the index `end`.
pub data Arrival : Type 0 where
  no_memory more : Arrival
  message : (text : Bytes) (end : ℕ) → Arrival

abbrev pub store : Bool → Bytes → RecvBuf → Arrival × RecvBuf
store final fragment buf =
    let whole = buf.text ++ fragment in
    if final
    then (message whole (length whole), record buf { text = [] })
    else (more, record buf { text = whole })

-- A fragment arrives: `granted` says if `realloc` succeeds, `final` if the fragment is the last.
unfoldable pub receive : Bool → Bool → Bytes → RecvBuf → Arrival × RecvBuf
unfolding new_size
receive granted final fragment buf =
    let needed = length buf.text + length fragment in
    let grown : Arrival × RecvBuf = elim (new_size buf.cap needed) [
      | none ↦ (no_memory, buf)
      | some cap ↦ store final fragment (record buf { cap = cap })
    ] in
    if ltb buf.cap needed
    then (if granted then grown else (no_memory, record buf { text = [] }))
    else store final fragment buf

-- The buffer before the first fragment.
abbrev pub no_buffer : RecvBuf
no_buffer = record { text = []; cap = 0 }
