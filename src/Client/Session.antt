-- ===== src/Client/Session.antt =====
-- linux/main.c: the connection to the server. The loop of `main` acquires tokens and connects, with a
-- delay that grows at each failure; `ws_callback` hears that the connection is there or lost.
pub mod Backoff
use sync_clipboard.Client.Message.{sc_msg_hello}
use sync_clipboard.Client.State.{Client, Env, queue}
use sync_clipboard.Config.{ClientConfig}
use sync_clipboard.Prelude.{
  Bool, Option, codes, false, if◌then◌else◌, ltb, maybe, none, not, some, true, ℕ, ◌*◌, ◌||◌,
}

-- LWS_CALLBACK_CLIENT_ESTABLISHED; a message that could not be built is not sent.
unfoldable pub on_established : ClientConfig → Env → Client → Client
on_established cfg env c =
    let up = record c {
      connected = true;
      authenticated = true;
      logged_in = true;
      reconnect_delay = 1;
    } in
    let hello =
      sc_msg_hello env.memory (some (codes "linux")) (some cfg.device_id) (some (codes "2.0.0")) in
    maybe hello up (λ msg. queue msg up)

-- LWS_CALLBACK_CLIENT_CONNECTION_ERROR and LWS_CALLBACK_CLIENT_CLOSED.
unfoldable pub on_lost : Client → Client
on_lost c = record c {
  connected = false;
  authenticated = false;
  logged_in = false;
  has_wsi = false;
}

-- `if (g_reconnect_delay < 60) g_reconnect_delay *= 2;`
abbrev pub doubled : ℕ → ℕ
doubled d = if ltb d 60 then d * 2 else d

-- `if (g_reconnect_delay > 60) g_reconnect_delay = 60;`
abbrev pub capped : ℕ → ℕ
capped d = if ltb 60 d then 60 else d

-- One turn of the loop, with the answers of `ws_acquire_tokens` and of the connecting: the seconds
-- that it sleeps, if it does, and what follows.
unfoldable pub dial : Bool → Bool → Client → Option ℕ × Client
dial has_tokens connects c =
    let delay = c.reconnect_delay in
    if c.connected || c.has_wsi
    then (none, c)
    else if not has_tokens
    then (some delay, record c { reconnect_delay = doubled delay })
    else if connects
    then (none, record c { has_wsi = true })
    else (some delay, record c { reconnect_delay = capped (doubled delay) })
