-- ===== src/Windows/Handlers.antt =====
-- windows/main.c: the branches of `ws_callback` for a message that has arrived whole. Those that Linux
-- has word for word are its handlers, on the client that the desk holds.
use sync_clipboard.Prelude.Int.{pos}
use sync_clipboard.Client.Handlers.{
  Json, decrypt, on_file_notify, on_file_peer_info, on_hello_ack, on_relay_request,
}
use sync_clipboard.Client.Message.{build_transfer_result, sc_msg_hello}
use sync_clipboard.Client.State.{Env, Libs, queue}
use sync_clipboard.Config.{ClientConfig}
use sync_clipboard.Digest.{block_decode, sha256_hex}
use sync_clipboard.Prelude.{Bytes, [], codes, if◌then◌else◌, maybe, same, some, true, ◌||◌}
use sync_clipboard.Windows.Board.{Stb}
use sync_clipboard.Windows.Desk.{Desk, Desktop, clipboard_set, place_bytes, suppress, with_client}
use sync_clipboard.Wire.{c_string}

-- A text that arrived: the next change of the clipboard is to be ignored, and its hash is kept.
unfoldable pub paste_text : Libs → Desktop → Bytes → Desk → Desk
unfolding clipboard_set
paste_text libs w dec d =
    let seen = record d.client { clip_hash = sha256_hex libs.digest (c_string dec) } in
    with_client (clipboard_set w (c_string dec) seen) (suppress d)

unfoldable pub paste : Libs → ClientConfig → Desktop → Json → Desk → Desk
unfolding paste_text
paste libs cfg w j d =
    maybe (j.text (codes "content")) d
      (λ content. maybe (decrypt libs cfg w.base content) d (λ dec. paste_text libs w dec d))

unfoldable pub take_relay : Stb → Libs → Desktop → Json → Desk → Desk
unfolding place_bytes
take_relay stb libs w j d = maybe (j.text (codes "data")) d (λ b64.
    maybe (block_decode libs.coder w.base.memory b64) d (λ dec.
      let mime : Bytes = maybe (j.text (codes "mimeType")) [] (λ s. s) in
      let name : Bytes = maybe (j.text (codes "fileName")) (codes "file") (λ s. s) in
      let result = build_transfer_result (j.text (codes "fileId")) "relay" true (pos 0) (pos 0) in
      with_client (queue result (place_bytes stb w mime name dec d.client)) (suppress d)))

-- The comparisons of the type, in the code's order; the results of the first protocol are ignored.
unfoldable pub ws_receive : Stb → Libs → ClientConfig → Desktop → Json → Desk → Desk
unfolding paste take_relay
ws_receive stb libs cfg w j d = maybe (j.text (codes "type")) d (λ type.
    let relayed = take_relay stb libs w j d in
    let asked = with_client (on_relay_request libs w.base j d.client) d in
    let peered = with_client (on_file_peer_info cfg w.base j d.client) d in
    let notified = with_client (on_file_notify cfg w.base j d.client) d in
    let pasted = paste libs cfg w j d in
    let welcomed = with_client (on_hello_ack j d.client) d in
    if same type (codes "hello_ack")
    then welcomed
    else if same type (codes "auth_result") || same type (codes "login_result")
    then d
    else if same type (codes "clipboard")
    then pasted
    else if same type (codes "file_notify")
    then notified
    else if same type (codes "file_peer_info")
    then peered
    else if same type (codes "file_relay_request")
    then asked
    else if same type (codes "file_relay_data")
    then relayed
    else d)

-- LWS_CALLBACK_CLIENT_ESTABLISHED; a message that could not be built is not sent.
unfoldable pub ws_established : ClientConfig → Env → Desk → Desk
ws_established cfg env d =
    let up = record d.client {
      connected = true;
      authenticated = true;
      logged_in = true;
      reconnect_delay = 1;
    } in
    let hello =
      sc_msg_hello env.memory (some (codes "windows")) (some cfg.device_id)
        (some (codes "2.0.0")) in
    with_client (maybe hello up (λ msg. queue msg up)) d
