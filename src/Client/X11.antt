-- ===== src/Client/X11.antt =====
-- linux/main.c: the selections of X11. What the server sends and gives is an argument: the events, round
-- by round, and the properties. The display and the window are there, as they are while the monitor runs.
-- `now_ms` is the time of a turn.
pub mod Reads
pub mod Turns
mod Tests
use sync_clipboard.Client.Monitor.{Look, poll, poll_primary}
use sync_clipboard.Client.State.{Client, Env, Libs}
use sync_clipboard.Config.{ClientConfig}
use sync_clipboard.Prelude.{
  Bool, Bytes, List, Option, [], false, if◌then◌else◌, leb, length, ltb, maybe, none, some, suc,
  take, true, zero, ℕ, ◌%◌, ◌&&◌, ◌++◌, ◌+◌, ◌-◌, ◌==◌, ◌^◌, ◌∷◌,
}
use sync_clipboard.Windows.Board.{DynBuf, grow}

-- SelectionNotify, with its property or None; PropertyNotify of the own property with a new value; a
-- change of CLIPBOARD or of PRIMARY, as XFIXES tells it; any other.
pub data XEvent : Type 0 where
  selected : Bool → XEvent
  new_value : XEvent
  clipboard_event : XEvent
  primary_event : XEvent
  other_event : XEvent

-- The wait for SelectionNotify: the rounds that are left, and what each finds; a round that finds
-- another event drops it. The result is the property, if the event came, and what was not looked at.
unfoldable pub wait_selected : ℕ → List (Option XEvent) → Option Bool × List (Option XEvent)
wait_selected zero rounds = (none, rounds)
wait_selected (suc n) [] = (none, [])
wait_selected (suc n) (some (selected has) ∷ rounds) = (some has, rounds)
wait_selected (suc n) (_ ∷ rounds) = wait_selected n rounds

-- The wait for the next part.
unfoldable pub wait_value : ℕ → List (Option XEvent) → Bool
wait_value zero rounds = false
wait_value (suc n) [] = false
wait_value (suc n) (some new_value ∷ rounds) = true
wait_value (suc n) (_ ∷ rounds) = wait_value n rounds

-- A part of an incremental transfer: what the rounds before it find, and its bytes, if the property is
-- there.
pub record Part : Type 0 where
  pub rounds : List (Option XEvent)
  pub bytes : Option Bytes

-- `buf`, `total` and `cap`; `realloc` is taken to succeed, as the code takes it.
unfoldable pub add_part : Bytes → DynBuf → DynBuf
unfolding grow
add_part chunk b =
    let needed = length b.bytes + length chunk in
    record {
      bytes = b.bytes ++ chunk;
      cap = if ltb b.cap needed then grow needed needed b.cap else b.cap;
    }

-- The loop over the parts: it ends when none comes in time, or at one that is empty.
unfoldable pub incr_loop : List Part → DynBuf → DynBuf
unfolding wait_value add_part
incr_loop [] b = b
incr_loop (p ∷ parts) b =
    let next_part : DynBuf = maybe p.bytes b (λ chunk.
      let rest = incr_loop parts (add_part chunk b) in if length chunk == 0 then b else rest) in
    if wait_value 200 p.rounds then next_part else b

-- What the conversion of a selection meets: the rounds of the wait, if the property is of type INCR, the
-- property, if there is memory, and the parts.
pub record Reading : Type 0 where
  pub rounds : List (Option XEvent)
  pub is_incr : Bool
  pub property : Option Bytes
  pub memory : Bool
  pub parts : List Part

abbrev pub not_empty : Bytes → Option Bytes
not_empty bytes = if length bytes == 0 then none else some bytes

unfoldable pub x11_read_selection_ex : Reading → Option Bytes
unfolding wait_selected incr_loop
x11_read_selection_ex r =
    let unread : DynBuf = record { bytes = []; cap = 65536 } in
    let whole = not_empty (incr_loop r.parts unread).bytes in
    let single : Option Bytes =
      maybe r.property none
        (λ bytes. if length bytes == 0 then none else if r.memory then some bytes else none) in
    let found : Option Bytes = if r.is_incr then if r.memory then whole else none else single in
    maybe (wait_selected 100 r.rounds).0 none (λ has. if has then found else none)

-- UTF8_STRING, or else STRING.
unfoldable pub x11_clipboard_get_text : Reading → Reading → Option Bytes
unfolding x11_read_selection_ex
x11_clipboard_get_text utf8 latin =
    let latin_text = x11_read_selection_ex latin in
    maybe (x11_read_selection_ex utf8) latin_text (λ text. some text)

-- `a - b` on size_t.
abbrev pub size_minus : ℕ → ℕ → ℕ
size_minus a b = (a + 2 ^ 64 - b % 2 ^ 64) % 2 ^ 64

-- The loop of `x11_clipboard_refresh_types` over the names of the targets, with what is in the buffer:
-- a name is cut where the buffer ends, and `pos` counts it whole.
unfoldable pub names_loop : ℕ → ℕ → Bytes → List (Option Bytes) → Bytes
names_loop size at buf [] = buf
names_loop size at buf (name ∷ names) =
    let skipped = names_loop size at buf names in
    let added : Bytes = maybe name skipped (λ s.
      names_loop size (at + length s + 1) (buf ++ take (size_minus size at - 1) (s ++ b'\n' ∷ []))
        names) in
    if ltb at (size_minus size 64) then added else buf

unfoldable pub refresh_types : ℕ → Option (List (Option Bytes)) → Bytes
unfolding names_loop
refresh_types size targets = maybe targets [] (λ names. names_loop size 0 [] names)

-- What the monitor loop carries from turn to turn: the client and `primary_pending_ms`.
abbrev pub Watch : Type 0
Watch = Client × ℕ

-- An event that the loop takes from the queue, with the time and what is seen then.
pub record Seen : Type 0 where
  pub event : XEvent
  pub env : Env
  pub look : Look

unfoldable pub on_event : Libs → ClientConfig → Seen → Watch → Watch
unfolding poll
on_event libs cfg s (c, pending) = elim s.event [
  | clipboard_event ↦ (poll libs cfg s.env s.look c, pending)
  | primary_event ↦ (c, s.env.now)
  | _ ↦ (c, pending)
]

unfoldable pub drain : Libs → ClientConfig → List Seen → Watch → Watch
unfolding on_event
drain libs cfg [] w = w
drain libs cfg (s ∷ events) w = drain libs cfg events (on_event libs cfg s w)

-- PRIMARY, 500 ms after its last change.
unfoldable pub settle_primary : Libs → ClientConfig → Env → Look → Watch → Watch
unfolding poll_primary
settle_primary libs cfg env look (c, pending) =
    let settled : Watch = (poll_primary libs cfg env look c, 0) in
    if ltb 0 pending && leb (pending + 500) env.now then settled else (c, pending)

-- A turn of the loop: the events that wait, then PRIMARY.
unfoldable pub monitor_turn : Libs → ClientConfig → List Seen → Env → Look → Watch → Watch
unfolding drain settle_primary
monitor_turn libs cfg events env look w = settle_primary libs cfg env look (drain libs cfg events w)
