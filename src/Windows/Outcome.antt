-- ===== src/Windows/Outcome.antt =====
-- windows/main.c: everything that a change of the clipboard can come to.
use sync_clipboard.Prelude.Int.{pos, leb_ℤ}
use sync_clipboard.Client.Message.{build_clipboard_msg, build_file_offer}
use sync_clipboard.Client.Monitor.{megabytes}
use sync_clipboard.Client.State.{Block, Client, Env, Libs, is_disabled}
use sync_clipboard.Config.{ClientConfig}
use sync_clipboard.Digest.{sha256_hex}
use sync_clipboard.Prelude.{
  Bytes, [], false, length, maybe, none, same, some, true, ℕ, ◌%◌, ◌++◌, ◌==◌, ◌^◌, ◌||◌, ◌∷◌, ◌≡◌,
  ◌⊎◌,
}
use sync_clipboard.Windows.Board.{Stb, bmp_to_png, get_bitmap}
use sync_clipboard.Windows.Desk.{Desk}
use sync_clipboard.Windows.Monitor.{View, in_memory, still_busy}
use sync_clipboard.Wire.{c_string}
use sync_clipboard.Crypto.{gcm_encrypt}

-- Why nothing is sent after the login and without the flag.
pub data Unsent (stb : Stb) (libs : Libs) (cfg : ClientConfig) (env : Env) (sight : View) (d : Desk)
    : Type 0 where
  image_seen :
      (img : Bytes)
      → get_bitmap env.memory sight.dib ≡ some img
      → same (sha256_hex libs.digest img) d.client.img_hash ≡ true
      → Unsent stb libs cfg env sight d
  busy : still_busy sight d.client ≡ true → Unsent stb libs cfg env sight d
  no_file :
      (path : Bytes)
      → sight.path ≡ some path
      → (sight.regular path ≡ false) ⊎ (sight.size path ≡ none)
      → Unsent stb libs cfg env sight d
  bad_size :
      (path : Bytes) (fsize : ℕ)
      → sight.path ≡ some path
      → sight.size path ≡ some fsize
      → fsize == 0 || leb_ℤ (megabytes cfg.max_transfer_size) (pos fsize) ≡ true
      → Unsent stb libs cfg env sight d
  file_seen :
      (path : Bytes)
      → sight.path ≡ some path
      → same (maybe (sight.hash_file path) sight.stack (λ h. h)) d.file_hash ≡ true
      → Unsent stb libs cfg env sight d
  no_memory : env.memory ≡ false → Unsent stb libs cfg env sight d
  not_read :
      (path : Bytes) (fsize : ℕ)
      → sight.path ≡ some path
      → sight.size path ≡ some fsize
      → (sight.read_file path (fsize % 2 ^ 32) ≡ none)
        ⊎ ((got : Bytes) × (sight.read_file path (fsize % 2 ^ 32) ≡ some got)
            × ((length got == fsize % 2 ^ 32) ≡ false))
      → Unsent stb libs cfg env sight d
  no_text : sight.text ≡ none → Unsent stb libs cfg env sight d
  empty_text :
      (clip : Bytes)
      → sight.text ≡ some clip
      → (length (c_string clip) == 0) ≡ true
      → Unsent stb libs cfg env sight d
  text_seen :
      (clip : Bytes)
      → sight.text ≡ some clip
      → same (sha256_hex libs.digest (c_string clip)) d.client.clip_hash ≡ true
      → Unsent stb libs cfg env sight d
  not_sealed :
      (clip : Bytes)
      → sight.text ≡ some clip
      → gcm_encrypt libs.ssl env.memory env.nonce (c_string clip) cfg.aes_key ≡ none
      → Unsent stb libs cfg env sight d

-- The bytes of a transfer: the PNG of the bitmap, or the file as it was read.
abbrev pub Source : Stb → Env → View → Bytes → Type 0
Source stb env sight bytes =
    ((img : Bytes) × (get_bitmap env.memory sight.dib ≡ some img)
      × (bmp_to_png stb img ≡ some bytes))
    ⊎ ((path : Bytes) × ((fsize : ℕ) × ((got : Bytes) × (sight.path ≡ some path)
            × (sight.size path ≡ some fsize)
            × (sight.read_file path (fsize % 2 ^ 32) ≡ some got)
            × (length got ≡ fsize % 2 ^ 32)
            × (bytes ≡ in_memory env fsize got))))

-- Nothing was sent, and why; or the text was; or a bitmap that no PNG can be made of has cleared the
-- transfer; or a transfer was offered, whose bytes are all in memory.
pub data Outcome (stb : Stb) (libs : Libs) (cfg : ClientConfig) (env : Env) (sight : View)
    (from : Desk) (d : Client) : Type 0 where
  not_sent :
      Unsent stb libs cfg env sight from
      → d.sent ≡ from.client.sent
      → d.xfer ≡ from.client.xfer
      → Outcome stb libs cfg env sight from d
  text_sent :
      (clip enc : Bytes)
      → sight.text ≡ some clip
      → gcm_encrypt libs.ssl env.memory env.nonce (c_string clip) cfg.aes_key ≡ some enc
      → d.sent ≡ from.client.sent ++ build_clipboard_msg enc ∷ []
      → d.xfer ≡ from.client.xfer
      → Outcome stb libs cfg env sight from d
  wiped :
      (img : Bytes)
      → get_bitmap env.memory sight.dib ≡ some img
      → bmp_to_png stb img ≡ none
      → d.sent ≡ from.client.sent
      → d.xfer.listen_fd ≡ none
      → d.xfer.block ≡ none
      → Outcome stb libs cfg env sight from d
  shared :
      (name mime cksum : Bytes) (b : Block)
      → Source stb env sight b.bytes
      → is_disabled cfg from.client ≡ false
      → still_busy sight from.client ≡ false
      → d.sent
        ≡ from.client.sent
          ++ build_file_offer env.uuid name mime (length b.bytes) cksum (env.addresses env.port)
            ∷ []
      → (d.xfer.file_id ≡ env.uuid)
        × (d.xfer.file_size ≡ length b.bytes)
        × (d.xfer.block ≡ some b)
        × (d.xfer.is_sender ≡ true)
        × (d.xfer.listen_fd ≡ env.server)
      → Outcome stb libs cfg env sight from d
