-- ===== src/Client/Monitor.antt =====
-- linux/main.c: what the monitor does with a changed clipboard, `process_clipboard_change`, and with a
-- changed PRIMARY selection, `process_primary_change`.
pub mod Echo
pub mod Turns
use sync_clipboard.Prelude.Int.{ℤ, pos, negsuc, leb_ℤ}
use sync_clipboard.Client.Message.{build_clipboard_msg, build_file_offer}
use sync_clipboard.Client.Shell.{
  clipboard_get_file_uri, clipboard_get_image, clipboard_has_file, clipboard_has_image,
  mime_from_extension,
}
use sync_clipboard.Client.State.{
  Client, Env, Libs, TransferState, copy_in, is_disabled, is_suppressed, open_sock, queue, renew,
  zero_state,
}
use sync_clipboard.Config.{ClientConfig}
use sync_clipboard.Crypto.{gcm_encrypt}
use sync_clipboard.Digest.{sha256_hex}
use sync_clipboard.Prelude.{
  Bool, Bytes, Option, [], behind_last, codes, contains, if◌then◌else◌, length, ltb, maybe, not,
  same, some, true, ℕ, ◌&&◌, ◌*◌, ◌+◌, ◌-◌, ◌==◌, ◌||◌,
}
use sync_clipboard.Wire.{c_string}

-- What the monitor sees: the list of types, the content in each type and what the
-- memory holds behind it, the text, the size of a regular
-- file, the SHA-256 of a file in digits, what `fhash` holds before it is written, the number of active
-- transfers after the wait of 500 ms, and PRIMARY as UTF8_STRING and as STRING.
pub record Look : Type 0 where
  pub types : Bytes
  pub read : Bytes → Option Bytes
  pub after : Bytes → Bytes
  pub text : Option Bytes
  pub stat : Bytes → Option ℕ
  pub hash_file : Bytes → Option Bytes
  pub stack : Bytes
  pub active_after : ℕ
  pub utf8 : Option Bytes
  pub latin : Option Bytes

-- `1024LL*1024*g_config.max_transfer_size`
abbrev pub megabytes : ℤ → ℤ
megabytes (pos n) = pos (1024 * 1024 * n)
megabytes (negsuc n) = negsuc (1024 * 1024 * (n + 1) - 1)

-- The transfer of something copied here, offered to the others.
unfoldable pub offer : Env → TransferState → Client → Client
unfolding renew
offer env st c =
    let ready = record st { listen_fd = env.server; listen_port = env.port; phase = 1 } in
    let msg =
      build_file_offer st.file_id st.file_name st.mime_type st.file_size st.checksum
        (env.addresses env.port) in
    queue msg (record (open_sock env.server (renew c)) { xfer = ready })

abbrev pub image_name : Bytes → Bytes
image_name mime =
    if contains (codes "jpeg") mime then codes "clipboard.jpg" else codes "clipboard.png"

unfoldable pub image_transfer : Libs → Env → Bytes → Bytes → TransferState
unfolding contains
image_transfer libs env img mime = record zero_state {
  is_sender = true;
  file_id = env.uuid;
  file_name = copy_in 256 (some (image_name mime)) [];
  mime_type = copy_in 64 (some mime) [];
  file_size = length img;
  block = some (record { at = env.block; bytes = img });
  checksum = sha256_hex libs.digest img;
}

-- A transfer is active before the wait and after it.
abbrev pub is_busy : Look → Client → Bool
is_busy look c = ltb 0 c.active && ltb 0 look.active_after

unfoldable pub offer_image : Libs → Env → Look → Bytes → Bytes → Client → Client
unfolding same image_transfer offer
offer_image libs env look img mime c =
    let hash = sha256_hex libs.digest img in
    let seen = record c { img_hash = hash } in
    let offered = offer env (image_transfer libs env img mime) seen in
    if same hash c.img_hash then c else if is_busy look c then seen else offered

abbrev pub base_name : Bytes → Bytes
base_name path = maybe (behind_last b'/' path) path (λ name. name)

unfoldable pub file_transfer : Env → Bytes → ℕ → Bytes → TransferState
unfolding behind_last mime_from_extension
file_transfer env path fsize hash = record zero_state {
  is_sender = true;
  file_id = env.uuid;
  file_name = copy_in 256 (some (base_name path)) [];
  mime_type = copy_in 64 (some (mime_from_extension (base_name path))) [];
  file_size = fsize;
  source_path = copy_in 512 (some path) [];
  checksum = hash;
}

-- The result of `ft_sha256_file` is not looked at: if it fails, `fhash` is what it was.
unfoldable pub offer_file : ClientConfig → Env → Look → Bytes → Client → Client
unfolding file_transfer offer
offer_file cfg env look path c = maybe (look.stat path) c (λ fsize.
    let hash : Bytes = maybe (look.hash_file path) look.stack (λ h. h) in
    let seen = record c { img_hash = hash } in
    let offered = offer env (file_transfer env path fsize hash) seen in
    if fsize == 0 || leb_ℤ (megabytes cfg.max_transfer_size) (pos fsize)
    then c
    else if is_busy look c
    then c
    else offered)

-- A text that is not the last one seen is encrypted and sent; its hash is kept whatever comes of it.
unfoldable pub offer_text : Libs → ClientConfig → Env → Bytes → Client → Client
offer_text libs cfg env clip c =
    let text = c_string clip in
    let hash = sha256_hex libs.digest text in
    let seen = record c { clip_hash = hash } in
    let tried : Client =
      maybe (gcm_encrypt libs.ssl env.memory env.nonce text cfg.aes_key) seen
        (λ enc. queue (build_clipboard_msg enc) seen) in
    if same hash c.clip_hash then c else tried

unfoldable pub process_text : Libs → ClientConfig → Env → Look → Client → Client
unfolding offer_text
process_text libs cfg env look c = maybe look.text c (λ clip. offer_text libs cfg env clip c)

unfoldable pub process_file : Libs → ClientConfig → Env → Look → Client → Client
unfolding process_text offer_file clipboard_has_file
process_file libs cfg env look c =
    let text = process_text libs cfg env look c in
    let found : Client =
      maybe (clipboard_get_file_uri look.read look.after) text
        (λ path. offer_file cfg env look path c) in
    if not (is_disabled cfg c) && clipboard_has_file look.types then found else text

unfoldable pub process_clipboard_change : Libs → ClientConfig → Env → Look → Client → Client
unfolding process_file offer_image clipboard_has_image
process_clipboard_change libs cfg env look c =
    let file = process_file libs cfg env look c in
    let found : Client = maybe (clipboard_get_image look.read) file (λ p.
      let img = p.0 in
      let mime = p.1 in
      if ltb 0 (length img) then offer_image libs env look img mime c else file) in
    if not (is_disabled cfg c) && clipboard_has_image look.types then found else file

-- The bytes of PRIMARY: STRING is asked for where there is no UTF8_STRING.
abbrev pub primary_bytes : Look → Option Bytes
primary_bytes look = maybe look.utf8 look.latin (λ t. some t)

-- With an open display.
unfoldable pub process_primary_change : Libs → ClientConfig → Env → Look → Client → Client
unfolding offer_text
process_primary_change libs cfg env look c =
    maybe (primary_bytes look) c
      (λ t. if length (c_string t) == 0 then c else offer_text libs cfg env t c)

-- The poll of the monitor loop, and its turn at an event of XFIXES: nothing before the login, and
-- nothing while it is suppressed.
unfoldable pub poll : Libs → ClientConfig → Env → Look → Client → Client
unfolding is_suppressed process_clipboard_change
poll libs cfg env look c =
    let changed = process_clipboard_change libs cfg env look c in
    if not c.logged_in then c else if is_suppressed env.now c then c else changed

-- The turn for PRIMARY, 500 ms after its last change.
unfoldable pub poll_primary : Libs → ClientConfig → Env → Look → Client → Client
unfolding is_suppressed process_primary_change
poll_primary libs cfg env look c =
    let changed = process_primary_change libs cfg env look c in
    if c.logged_in && not (is_suppressed env.now c) then changed else c

-- What `clipboard_monitor` does first: the text that is there counts as seen.
unfoldable pub monitor_start : Libs → Look → Client → Client
monitor_start libs look c =
    maybe look.text c (λ clip. record c { clip_hash = sha256_hex libs.digest (c_string clip) })
