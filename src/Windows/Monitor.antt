-- ===== src/Windows/Monitor.antt =====
-- windows/main.c: `on_clipboard_changed`, which the window calls at WM_DRAWCLIPBOARD.
use sync_clipboard.Prelude.Int.{pos, leb_ℤ}
use sync_clipboard.Client.Monitor.{megabytes, offer, offer_text}
use sync_clipboard.Client.Shell.{same_case}
use sync_clipboard.Client.State.{
  Client, Env, Libs, TransferState, copy_in, is_disabled, renew, zero_state,
}
use sync_clipboard.Config.{ClientConfig}
use sync_clipboard.Digest.{sha256_hex}
use sync_clipboard.Prelude.{
  Bool, Bytes, Option, [], behind_last, codes, false, if◌then◌else◌, length, ltb, maybe, none, not,
  replicate, same, some, true, ℕ, ◌%◌, ◌&&◌, ◌++◌, ◌-◌, ◌==◌, ◌^◌, ◌||◌,
}
use sync_clipboard.Windows.Board.{Stb, bmp_to_png, get_bitmap}
use sync_clipboard.Windows.Desk.{Desk, with_client}
use sync_clipboard.Wire.{c_string}

-- What the clipboard and the disk show: if there is a bitmap, and the bitmap; if there are files, and
-- the path of the first; if a path is a regular file, its size if it can be opened, the SHA-256 in
-- digits, what `fhash` holds before it is written, and what reading a number of bytes gives; the number
-- of active transfers after the wait; the text in UTF-8; what new memory holds.
pub record View : Type 0 where
  pub has_image : Bool
  pub dib : Option Bytes
  pub has_drop : Bool
  pub path : Option Bytes
  pub regular : Bytes → Bool
  pub size : Bytes → Option ℕ
  pub hash_file : Bytes → Option Bytes
  pub stack : Bytes
  pub read_file : Bytes → ℕ → Option Bytes
  pub active_after : ℕ
  pub text : Option Bytes

unfoldable pub win_mime_from_ext : Bytes → Bytes
unfolding behind_last same_case
win_mime_from_ext filename =
    maybe (behind_last b'.' filename) (codes "application/octet-stream") (λ ext.
      if same_case ext (codes "png")
      then codes "image/png"
      else if same_case ext (codes "jpg") || same_case ext (codes "jpeg")
      then codes "image/jpeg"
      else if same_case ext (codes "gif")
      then codes "image/gif"
      else if same_case ext (codes "bmp")
      then codes "image/bmp"
      else if same_case ext (codes "pdf")
      then codes "application/pdf"
      else if same_case ext (codes "txt")
      then codes "text/plain"
      else codes "application/octet-stream")

-- The name behind the last backslash, or else behind the last slash.
abbrev pub win_base_name : Bytes → Bytes
win_base_name path =
    maybe (behind_last b'\\' path) (maybe (behind_last b'/' path) path (λ name. name))
      (λ name. name)

-- A transfer is active before the wait and after it.
abbrev pub still_busy : View → Client → Bool
still_busy sight c = ltb 0 c.active && ltb 0 sight.active_after

unfoldable pub png_transfer : Libs → Env → Bytes → TransferState
png_transfer libs env png = record zero_state {
  is_sender = true;
  file_id = env.uuid;
  file_name = codes "clipboard.png";
  mime_type = codes "image/png";
  file_size = length png;
  block = some (record { at = env.block; bytes = png });
  checksum = sha256_hex libs.digest png;
}

-- The state of a transfer of which nothing is known but its identifier.
unfoldable pub begun_anew : Env → Client → Client
unfolding renew
begun_anew env c = record (renew c) {
  xfer = record zero_state { listen_fd = none; is_sender = true; file_id = env.uuid };
}

-- A bitmap that cannot be made into a PNG leaves the state cleared.
unfoldable pub share_image : Stb → Libs → Env → View → Bytes → Client → Client
unfolding png_transfer begun_anew bmp_to_png offer
share_image stb libs env sight img c =
    let hash = sha256_hex libs.digest img in
    let seen = record c { img_hash = hash } in
    let offered : Client =
      maybe (bmp_to_png stb img) (begun_anew env seen)
        (λ png. offer env (png_transfer libs env png) seen) in
    if same hash c.img_hash then c else if still_busy sight c then seen else offered

-- The bytes of the file as they are in memory: what was read, and what the memory held behind it.
abbrev pub in_memory : Env → ℕ → Bytes → Bytes
in_memory env fsize got = got ++ replicate (fsize - length got) env.garbage

unfoldable pub read_transfer : Env → Bytes → ℕ → Bytes → Bytes → TransferState
unfolding win_mime_from_ext behind_last
read_transfer env path fsize hash bytes = record zero_state {
  is_sender = true;
  file_id = env.uuid;
  file_name = copy_in 256 (some (win_base_name path)) [];
  mime_type = copy_in 64 (some (win_mime_from_ext (win_base_name path))) [];
  file_size = fsize;
  block = some (record { at = env.block; bytes = bytes });
  checksum = hash;
}

-- A file that is not too large and not the last one. Its hash is kept before it is read: `(DWORD)fsize`
-- bytes are asked for and must come.
unfoldable pub share_sized : Env → View → Bytes → ℕ → Desk → Desk
unfolding read_transfer offer
share_sized env sight path fsize d =
    let hash : Bytes = maybe (sight.hash_file path) sight.stack (λ h. h) in
    let seen = record d { file_hash = hash } in
    let asked = fsize % 2 ^ 32 in
    let read : Desk = maybe (sight.read_file path asked) seen (λ got.
      let st = read_transfer env path fsize hash (in_memory env fsize got) in
      let offered = with_client (offer env st d.client) seen in
      if length got == asked then if still_busy sight d.client then seen else offered else seen) in
    if same hash d.file_hash then d else if env.memory then read else seen

unfoldable pub share_file : ClientConfig → Env → View → Bytes → Desk → Desk
unfolding share_sized
share_file cfg env sight path d =
    let opened : Desk = maybe (sight.size path) d (λ fsize.
      let sized = share_sized env sight path fsize d in
      if fsize == 0 || leb_ℤ (megabytes cfg.max_transfer_size) (pos fsize) then d else sized) in
    if sight.regular path then opened else d

unfoldable pub share_text : Libs → ClientConfig → Env → View → Client → Client
unfolding offer_text
share_text libs cfg env sight c = maybe sight.text c (λ clip.
    let tried = offer_text libs cfg env clip c in if length (c_string clip) == 0 then c else tried)

unfoldable pub look_for_file : Libs → ClientConfig → Env → View → Desk → Desk
unfolding share_file share_text
look_for_file libs cfg env sight d =
    let text = with_client (share_text libs cfg env sight d.client) d in
    let found : Desk = maybe sight.path text (λ path. share_file cfg env sight path d) in
    if not (is_disabled cfg d.client) && sight.has_drop then found else text

unfoldable pub look_for_image : Stb → Libs → ClientConfig → Env → View → Desk → Desk
unfolding look_for_file share_image get_bitmap
look_for_image stb libs cfg env sight d =
    let file = look_for_file libs cfg env sight d in
    let found : Desk = maybe (get_bitmap env.memory sight.dib) file (λ img.
      let shared = with_client (share_image stb libs env sight img d.client) d in
      if ltb 0 (length img) then shared else file) in
    if not (is_disabled cfg d.client) && sight.has_image then found else file

unfoldable pub on_clipboard_changed : Stb → Libs → ClientConfig → Env → View → Desk → Desk
unfolding look_for_image
on_clipboard_changed stb libs cfg env sight d =
    let found = look_for_image stb libs cfg env sight d in
    if not d.client.logged_in
    then d
    else if d.suppress_next
    then record d { suppress_next = false }
    else found
