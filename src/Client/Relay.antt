-- ===== src/Client/Relay.antt =====
-- linux/main.c: an image from one client to another over the relay.
use sync_clipboard.Prelude.Int.{pos}
use sync_clipboard.Client.Handlers.{Json, handle, on_relay_data, on_relay_request, take_relayed}
use sync_clipboard.Client.Message.{Object, build_file_relay_data, field, number, string, typed}
use sync_clipboard.Client.State.{Block, Client, Env, Libs, image_set, queue, suppress_clipboard_ms}
use sync_clipboard.Config.{ClientConfig}
use sync_clipboard.Digest.{block_decode, block_encode, sha256_hex}
use sync_clipboard.Digest.Block.{IsBlockCoder, block_decode-block_encode}
use sync_clipboard.Prelude.{
  Bytes, [], ap, codes, if-at, length, ltb, maybe, maybe-at, refl, same, some, starts_with, true, ℕ,
  ◌++◌, ◌^◌, ◌∙◌, ◌∷◌, ◌≡◌, ◌≤◌,
}

-- A message that the server relays: a file_relay with a target, of a file no larger than the server's
-- limit.
pub record IsRelayed (limit : ℕ) (msg : Object) : Type 0 where
  pub is_file_relay : field (codes "type") msg ≡ some (string (codes "file_relay"))
  pub target : Bytes
  pub has_target : field (codes "targetDevice") msg ≡ some (string target)
  pub size : ℕ
  pub has_size : field (codes "fileSize") msg ≡ some (number (pos size))
  pub in_limit : size ≤ limit

-- `handleFileRelay` of the server, at a level that allows the relay and for an offer that it has: such a
-- message reaches the target as file_relay_data, with the data unchanged and the MIME type of the offer.
pub record IsRelay (limit : ℕ) (mime : Bytes) (relay : Object → Json) : Type 0 where
  pub typed :
      (msg : Object)
      → IsRelayed limit msg
      → (relay msg).text (codes "type") ≡ some (codes "file_relay_data")
  pub carries_data :
      (msg : Object) (s : Bytes)
      → IsRelayed limit msg
      → field (codes "data") msg ≡ some (string s)
      → (relay msg).text (codes "data") ≡ some s
  pub tells_mime :
      (msg : Object) → IsRelayed limit msg → (relay msg).text (codes "mimeType") ≡ some mime

built-IsRelayed :
    (limit : ℕ) (fid b64 target : Bytes) (fsize : ℕ)
    → fsize ≤ limit
    → IsRelayed limit (build_file_relay_data fid (some b64) fsize target)
unfolding field build_file_relay_data same
built-IsRelayed limit fid b64 target fsize fits = record {
  is_file_relay = refl;
  target = target;
  has_target = refl;
  size = fsize;
  has_size = refl;
  in_limit = fits;
}

relay_field :
    (fid b64 target : Bytes) (fsize : ℕ)
    → field (codes "data") (build_file_relay_data fid (some b64) fsize target) ≡ some (string b64)
unfolding field build_file_relay_data same
relay_field fid b64 target fsize = refl

module _ (libs : Libs) (cfg : ClientConfig) (env : Env) (j : Json) (c : Client) where
  relay_request_sent :
      (b : Block) (target b64 : Bytes)
      → j.text (codes "requesterId") ≡ some target
      → c.xfer.block ≡ some b
      → ltb 0 (length b.bytes) ≡ true
      → block_encode libs.coder env.memory b.bytes ≡ some b64
      → (on_relay_request libs env j c).sent
        ≡ c.sent ++ build_file_relay_data c.xfer.file_id (some b64) c.xfer.file_size target ∷ []
  unfolding on_relay_request
  relay_request_sent b target b64 asks has some_bytes coded =
      ap (λ (d : Client). d.sent)
        (maybe-at c.xfer.block b _ _ has
          ∙ maybe-at (j.text (codes "requesterId")) target _ _ asks
          ∙ if-at (ltb 0 (length b.bytes)) _ _ some_bytes
          ∙ ap (λ o. queue (build_file_relay_data c.xfer.file_id o c.xfer.file_size target) c)
              coded)

  -- The sender's answer to a request for the relay.
  handle-relay_request :
      (b : Block) (target b64 : Bytes)
      → j.text (codes "type") ≡ some (codes "file_relay_request")
      → j.text (codes "requesterId") ≡ some target
      → c.xfer.block ≡ some b
      → ltb 0 (length b.bytes) ≡ true
      → block_encode libs.coder env.memory b.bytes ≡ some b64
      → (handle libs cfg env j c).sent
        ≡ c.sent ++ build_file_relay_data c.xfer.file_id (some b64) c.xfer.file_size target ∷ []
  unfolding handle same maybe
  handle-relay_request b target b64 typed asks has some_bytes codes_b =
      rw typed (relay_request_sent b target b64 asks has some_bytes codes_b)

  -- Relayed bytes of an image.
  handle-relay_data :
      (b64 dec mime : Bytes)
      → j.text (codes "type") ≡ some (codes "file_relay_data")
      → j.text (codes "data") ≡ some b64
      → j.text (codes "mimeType") ≡ some mime
      → starts_with (codes "image/") mime ≡ true
      → block_decode libs.coder env.memory b64 ≡ some dec
      → ((handle libs cfg env j c).board ≡ c.board ++ image_set dec mime ∷ [])
        × ((handle libs cfg env j c).img_hash ≡ sha256_hex libs.digest dec)
  unfolding handle same on_relay_data take_relayed suppress_clipboard_ms maybe
  handle-relay_data b64 dec mime typed has named image opens =
      (rw (typed, has, opens, named, image) refl, rw (typed, has, opens, named, image) refl)

module _ (libs : Libs) (cfg cfg' : ClientConfig) (limit : ℕ) (mime : Bytes) (relay : Object → Json)
    (relays : IsRelay limit mime relay) where
  -- The block functions of OpenSSL do what is documented, there is memory, and the server relays what has
  -- a target and a file size within its limit, with the MIME type of the offer, which starts with
  -- "image/". A client that holds the bytes of an image, at least one and at most 2^30, of a transfer
  -- whose file size is within the limit, is asked to relay them. Then it gives one message to
  -- `queue_send`, and another client that gets it from the server gives just those bytes to the
  -- `set_image` of its clipboard, and remembers their hash, whatever either did before.
  pub handle-relay :
      IsBlockCoder libs.coder
      → (env env' : Env) (ask : Json) (a b : Client) (image : Block) (target : Bytes)
      → env.memory ≡ true
      → env'.memory ≡ true
      → ask.text (codes "type") ≡ some (codes "file_relay_request")
      → ask.text (codes "requesterId") ≡ some target
      → a.xfer.block ≡ some image
      → ltb 0 (length image.bytes) ≡ true
      → length image.bytes ≤ 2 ^ 30
      → a.xfer.file_size ≤ limit
      → starts_with (codes "image/") mime ≡ true
      → (msg : Object) × ((handle libs cfg env ask a).sent ≡ a.sent ++ msg ∷ [])
        × ((handle libs cfg' env' (relay msg) b).board ≡ b.board ++ image_set image.bytes mime ∷ [])
        × ((handle libs cfg' env' (relay msg) b).img_hash ≡ sha256_hex libs.digest image.bytes)
  handle-relay coder env env' ask a b image target memory memory' typed asks has some_bytes short
        fits is_image =
      let (b64, encodes, decodes) = block_decode-block_encode libs.coder image.bytes coder short in
      let coded = ap (λ m. block_encode libs.coder m image.bytes) memory ∙ encodes in
      let opened = ap (λ m. block_decode libs.coder m b64) memory' ∙ decodes in
      let msg = build_file_relay_data a.xfer.file_id (some b64) a.xfer.file_size target in
      let relayed = built-IsRelayed limit a.xfer.file_id b64 target a.xfer.file_size fits in
      let data_field = relay_field a.xfer.file_id b64 target a.xfer.file_size in
      let (board, hash) =
        handle-relay_data libs cfg' env' (relay msg) b b64 image.bytes mime
          (relays.typed msg relayed) (relays.carries_data msg b64 relayed data_field)
          (relays.tells_mime msg relayed) is_image opened in
      (
        msg,
        handle-relay_request libs cfg env ask a image target b64 typed asks has some_bytes coded,
        board,
        hash,
      )
