-- ===== src/Client/Handlers.antt =====
-- linux/main.c: the branches of `ws_callback` for a message that has arrived whole.
use sync_clipboard.Prelude.Int.{ℤ, pos, min_ℤ}
use sync_clipboard.Client.Message.{build_file_relay_data, build_file_request, build_transfer_result}
use sync_clipboard.Client.State.{
  Client, Env, Libs, TransferState, copy_in, effective_file_level, file_set, image_set, is_disabled,
  open_sock, put, queue, renew, suppress_clipboard_ms, text_set, zero_state,
}
use sync_clipboard.Config.{ClientConfig}
use sync_clipboard.Crypto.{gcm_decrypt}
use sync_clipboard.Crypto.Cbc.{aes_decrypt}
use sync_clipboard.Digest.{block_decode, block_encode, sha256_hex}
use sync_clipboard.Prelude.{
  Bool, Bytes, List, Option, [], codes, false, if◌then◌else◌, leb, length, ltb, maybe, none, not,
  same, some, starts_with, suc, take, true, ℕ, ◌&&◌, ◌++◌, ◌||◌, ◌∷◌,
}
use sync_clipboard.Wire.{c_string}

-- What the handlers ask cJSON about a message: the string of a field, if it is present, its number
-- cast to the type that the code wants, if it is true, and the strings of an array.
pub record Json : Type 0 where
  pub text : Bytes → Option Bytes
  pub present : Bytes → Bool
  pub number_int : Bytes → ℤ
  pub number_long : Bytes → ℤ
  pub number_u64 : Bytes → ℕ
  pub is_true : Bytes → Bool
  pub array : Bytes → Option (List (Option Bytes))

unfoldable pub on_hello_ack : Json → Client → Client
on_hello_ack j c = record c {
  server_level =
      if j.present (codes "serverFileLevel") then j.number_int (codes "serverFileLevel") else pos 3;
}

-- The two decryptions, the newer format first.
unfoldable pub decrypt : Libs → ClientConfig → Env → Bytes → Option Bytes
decrypt libs cfg env content =
    maybe (gcm_decrypt libs.ssl env.memory content cfg.aes_key)
      (aes_decrypt libs.cbc env.memory env.garbage content cfg.aes_key) (λ dec. some dec)

-- A text that arrived is remembered by its hash before it is put on the clipboard.
unfoldable pub take_text : Libs → Env → Bytes → Client → Client
unfolding suppress_clipboard_ms
take_text libs env dec c =
    let seen = record c { clip_hash = sha256_hex libs.digest (c_string dec) } in
    put (text_set (c_string dec)) (suppress_clipboard_ms env.now 2000 seen)

unfoldable pub on_clipboard : Libs → ClientConfig → Env → Json → Client → Client
unfolding decrypt take_text
on_clipboard libs cfg env j c =
    maybe (j.text (codes "content")) c
      (λ content. maybe (decrypt libs cfg env content) c (λ dec. take_text libs env dec c))

-- The fields of a new transfer that the message announces, with the socket that was opened.
unfoldable pub announced : Env → Json → TransferState
announced env j = record zero_state {
  file_id = copy_in 64 (j.text (codes "fileId")) [];
  file_name = copy_in 256 (j.text (codes "fileName")) [];
  mime_type = copy_in 64 (j.text (codes "mimeType")) [];
  checksum = copy_in 65 (j.text (codes "checksum")) [];
  from_device = copy_in 128 (j.text (codes "from")) [];
  file_size = j.number_u64 (codes "fileSize");
  max_relay_size = j.number_long (codes "maxRelaySize");
  udp_port = j.number_int (codes "udpPort");
  listen_fd = env.server;
  listen_port = env.port;
  phase = 1;
}

unfoldable pub on_file_notify : ClientConfig → Env → Json → Client → Client
unfolding renew announced effective_file_level
on_file_notify cfg env j c =
    let begun = record (open_sock env.server (renew c)) { xfer = announced env j } in
    let asked = build_file_request (j.text (codes "fileId")) (env.addresses env.port) in
    if is_disabled cfg c then c else queue asked begun

-- The array of slots from the first on: a NULL string leaves what the slot had.
unfoldable pub fill_slots : List Bytes → List (Option Bytes) → List Bytes × ℕ
fill_slots [] items = ([], 0)
fill_slots (slot ∷ slots) [] = (slot ∷ slots, 0)
fill_slots (slot ∷ slots) (item ∷ items) =
    let rest = fill_slots slots items in (copy_in 64 item slot ∷ rest.0, suc rest.1)

abbrev pub peer_slots : TransferState → Option (List (Option Bytes)) → List Bytes × ℕ
peer_slots st none = (st.peer_addrs, 0)
peer_slots st (some items) = fill_slots st.peer_addrs items

-- `fid && strcmp(fid, g_xfer.file_id) != 0`
abbrev pub is_stale : Option Bytes → TransferState → Bool
is_stale none st = false
is_stale (some fid) st = not (same fid st.file_id)

-- What the message says of the peer.
unfoldable pub with_peer : ClientConfig → Json → Client → TransferState
unfolding fill_slots
with_peer cfg j c =
    let slots = peer_slots c.xfer (j.array (codes "peerLocalAddresses")) in
    let said = j.number_int (codes "fileTransferLevel") in
    let srv_level = if j.present (codes "fileTransferLevel") then said else c.server_level in
    record c.xfer {
      peer_public_addr = copy_in 64 (j.text (codes "peerPublicAddress")) c.xfer.peer_public_addr;
      peer_addrs = slots.0;
      peer_addr_count = slots.1;
      eff_file_level = min_ℤ cfg.file_transfer_level srv_level;
      same_lan = j.is_true (codes "sameLan");
      phase = 2;
    }

-- What stays behind when a copy is handed to a thread: a receiver takes the listening socket over, a
-- sender shares it.
abbrev pub left_behind : TransferState → TransferState
left_behind st = if st.is_sender then st else record st { listen_fd = none }

abbrev pub with_thread : TransferState → Client → Client
with_thread st c = record c {
  xfer = left_behind st;
  threads = c.threads ++ st ∷ [];
  started = c.started ++ st ∷ [];
}

-- `malloc` of the copy, and `pthread_create`.
unfoldable pub start_thread : Env → TransferState → Client → Client
start_thread env st c =
    let copied = record c { xfer = left_behind st } in
    if env.memory then if env.thread then with_thread st c else copied else record c { xfer = st }

unfoldable pub on_file_peer_info : ClientConfig → Env → Json → Client → Client
unfolding same with_peer start_thread
on_file_peer_info cfg env j c =
    let next = start_thread env (with_peer cfg j c) c in
    if is_stale (j.text (codes "fileId")) c.xfer
    then c
    else if not c.xfer.is_sender && (ltb 0 c.active || leb 2 c.xfer.phase)
    then c
    else next

-- `g_xfer.data && g_xfer.data_len > 0 && requester`
unfoldable pub on_relay_request : Libs → Env → Json → Client → Client
unfolding block_encode
on_relay_request libs env j c = maybe c.xfer.block c (λ b.
    maybe (j.text (codes "requesterId")) c (λ target.
      let coded = block_encode libs.coder env.memory b.bytes in
      let answer = build_file_relay_data c.xfer.file_id coded c.xfer.file_size target in
      if ltb 0 (length b.bytes) then queue answer c else c))

-- `snprintf(tmp, sizeof(tmp), "/tmp/syncclip_%s", fn ? fn : "file")`
abbrev pub tmp_name : Option Bytes → Bytes
tmp_name fn = take 511 (codes "/tmp/syncclip_" ++ maybe fn (codes "file") (λ s. s))

-- The relayed bytes as an image, if the type starts with "image/", or as a file.
unfoldable pub take_relayed : Env → Option Bytes → Option Bytes → Bytes → Client → Client
take_relayed env mt fn dec c =
    let path = tmp_name fn in
    let wrote = if env.can_write then record c { files = c.files ++ (path, dec) ∷ [] } else c in
    let mime : Bytes = maybe mt [] (λ s. s) in
    if starts_with (codes "image/") mime
    then put (image_set dec mime) c
    else put (file_set path) wrote

unfoldable pub on_relay_data : Libs → Env → Json → Client → Client
unfolding take_relayed suppress_clipboard_ms block_decode
on_relay_data libs env j c = maybe (j.text (codes "data")) c (λ b64.
    maybe (block_decode libs.coder env.memory b64) c (λ dec.
      let seen = record c { img_hash = sha256_hex libs.digest dec } in
      let quiet = suppress_clipboard_ms env.now 2000 seen in
      let taken =
        take_relayed env (j.text (codes "mimeType")) (j.text (codes "fileName")) dec quiet in
      queue (build_transfer_result (j.text (codes "fileId")) "relay" true (pos 0) (pos 0)) taken))

-- The comparisons of the type, in the code's order.
unfoldable pub handle : Libs → ClientConfig → Env → Json → Client → Client
handle libs cfg env j c = maybe (j.text (codes "type")) c (λ type.
    let relayed = on_relay_data libs env j c in
    let asked = on_relay_request libs env j c in
    let peered = on_file_peer_info cfg env j c in
    let notified = on_file_notify cfg env j c in
    let pasted = on_clipboard libs cfg env j c in
    let welcomed = on_hello_ack j c in
    if same type (codes "hello_ack")
    then welcomed
    else if same type (codes "clipboard")
    then pasted
    else if same type (codes "file_notify")
    then notified
    else if same type (codes "file_peer_info")
    then peered
    else if same type (codes "file_relay_request")
    then asked
    else if same type (codes "file_relay_data")
    then relayed
    else c)
