-- ===== src/Client/Monitor/Turns.antt =====
-- linux/main.c: everything that a turn of the monitor can come to.
use sync_clipboard.Prelude.Int.{pos, leb_ℤ}
use sync_clipboard.Client.Message.{build_clipboard_msg, build_file_offer}
use sync_clipboard.Client.Monitor.{
  Look, base_name, file_transfer, image_name, image_transfer, is_busy, megabytes, offer, offer_file,
  offer_image, offer_text, poll, process_clipboard_change, process_file, process_text,
}
use sync_clipboard.Client.Shell.{clipboard_has_file, clipboard_has_image, mime_from_extension}
use sync_clipboard.Client.State.{Client, Env, Libs, copy_in, is_disabled, is_suppressed}
use sync_clipboard.Config.{ClientConfig}
use sync_clipboard.Digest.{sha256_hex}
use sync_clipboard.Prelude.{
  Bool, Bytes, [], arith, false, if-both, inl, inr, length, ltb, ltb→lt, maybe, maybe-both, not,
  refl, same, some, sym, true, true_is_false, ℕ, ◌&&◌, ◌++◌, ◌<◌, ◌==◌, ◌||◌, ◌∷◌, ◌≡◌, ◌⊎◌,
}
use sync_clipboard.Wire.{c_string}

-- A change was looked at: nothing was sent; or the text was; or a transfer was offered.
pub data Turned (cfg : ClientConfig) (env : Env) (look : Look) (c d : Client) : Type 0 where
  unsent : d.sent ≡ c.sent → d.xfer ≡ c.xfer → Turned cfg env look c d
  texted :
      (enc : Bytes)
      → d.sent ≡ c.sent ++ build_clipboard_msg enc ∷ []
      → d.xfer ≡ c.xfer
      → Turned cfg env look c d
  offered :
      (name mime cksum : Bytes) (size : ℕ)
      → is_disabled cfg c ≡ false
      → is_busy look c ≡ false
      → 0 < size
      → d.sent
        ≡ c.sent ++ build_file_offer env.uuid name mime size cksum (env.addresses env.port) ∷ []
      → (d.xfer.file_id ≡ env.uuid)
        × (d.xfer.file_size ≡ size)
        × (d.xfer.checksum ≡ cksum)
        × (d.xfer.is_sender ≡ true)
        × (d.xfer.listen_fd ≡ env.server)
      → Turned cfg env look c d

not_zero : (n : ℕ) (large : Bool) → (n == 0 || large) ≡ false → 0 < n
not_zero n true h = ground arith
not_zero n false h = ground arith

pub is_on : (off has : Bool) → (not off && has) ≡ true → off ≡ false
is_on true has h = absurd (true_is_false (sym h))
is_on false has h = refl

pub not-not : (b : Bool) → not b ≡ false → b ≡ true
not-not true h = refl
not-not false h = absurd (true_is_false h)

module _ (libs : Libs) (cfg : ClientConfig) (env : Env) (look : Look) (c : Client) where
  offer_image-Turned :
      (img mime : Bytes)
      → is_disabled cfg c ≡ false
      → ltb 0 (length img) ≡ true
      → Turned cfg env look c (offer_image libs env look img mime c)
  unfolding offer_image image_transfer offer
  offer_image-Turned img mime on some_bytes =
      if-both (Turned cfg env look c) (same (sha256_hex libs.digest img) c.img_hash) _ _
        (λ h. unsent refl refl)
        (λ h.
          if-both (Turned cfg env look c) (is_busy look c) _ _ (λ b. unsent refl refl)
            (λ b.
              offered (copy_in 256 (some (image_name mime)) []) (copy_in 64 (some mime) [])
                (sha256_hex libs.digest img) (length img) on b (ltb→lt 0 (length img) some_bytes)
                refl (refl, refl, refl, refl, refl)))

  offer_file-Turned :
      (path : Bytes)
      → is_disabled cfg c ≡ false
      → Turned cfg env look c (offer_file cfg env look path c)
  unfolding offer_file file_transfer offer
  offer_file-Turned path on =
      maybe-both (Turned cfg env look c) _ _ _ (λ e. unsent refl refl)
        (λ fsize e.
          let large = leb_ℤ (megabytes cfg.max_transfer_size) (pos fsize) in
          if-both (Turned cfg env look c) (fsize == 0 || large) _ _ (λ h. unsent refl refl)
            (λ h.
              if-both (Turned cfg env look c) (is_busy look c) _ _ (λ b. unsent refl refl)
                (λ b.
                  offered (copy_in 256 (some (base_name path)) [])
                    (copy_in 64 (some (mime_from_extension (base_name path))) [])
                    (maybe (look.hash_file path) look.stack (λ h. h)) fsize on b
                    (not_zero fsize large h) refl (refl, refl, refl, refl, refl))))

  process_text-Turned : Turned cfg env look c (process_text libs cfg env look c)
  unfolding process_text offer_text
  process_text-Turned =
      maybe-both (Turned cfg env look c) _ _ _ (λ e. unsent refl refl)
        (λ clip e.
          if-both (Turned cfg env look c)
            (same (sha256_hex libs.digest (c_string clip)) c.clip_hash) _ _ (λ h. unsent refl refl)
            (λ h.
              maybe-both (Turned cfg env look c) _ _ _ (λ n. unsent refl refl)
                (λ enc n. texted enc refl refl)))

  process_file-Turned : Turned cfg env look c (process_file libs cfg env look c)
  unfolding process_file
  process_file-Turned =
      if-both (Turned cfg env look c) (not (is_disabled cfg c) && clipboard_has_file look.types) _ _
        (λ h.
          maybe-both (Turned cfg env look c) _ _ _ (λ e. process_text-Turned)
            (λ path e. offer_file-Turned path (is_on (is_disabled cfg c) _ h)))
        (λ h. process_text-Turned)

  process_clipboard_change-Turned :
      Turned cfg env look c (process_clipboard_change libs cfg env look c)
  unfolding process_clipboard_change
  process_clipboard_change-Turned =
      if-both (Turned cfg env look c) (not (is_disabled cfg c) && clipboard_has_image look.types) _
        _
        (λ h.
          maybe-both (Turned cfg env look c) _ _ _ (λ e. process_file-Turned)
            (λ p e.
              if-both (Turned cfg env look c) (ltb 0 (length p.0)) _ _
                (λ l. offer_image-Turned p.0 p.1 (is_on (is_disabled cfg c) _ h) l)
                (λ l. process_file-Turned)))
        (λ h. process_file-Turned)

  -- A turn of the monitor before the login or during a suppression changes nothing. Any other sends
  -- nothing and leaves the transfer alone; or sends one clipboard message and leaves the transfer
  -- alone; or, where transfers are on and none is active before the wait, or none after it, sends one
  -- file_offer of at least one byte, with the new identifier, and makes this client the sender of just
  -- that size and checksum, on the new socket.
  pub poll-Turned :
      (poll libs cfg env look c ≡ c)
      ⊎ ((c.logged_in ≡ true)
          × (is_suppressed env.now c ≡ false)
          × Turned cfg env look c (poll libs cfg env look c))
  unfolding poll
  poll-Turned =
      let P : Client → Type 0 = λ d.
        (d ≡ c)
        ⊎ ((c.logged_in ≡ true) × (is_suppressed env.now c ≡ false) × Turned cfg env look c d) in
      if-both P (not c.logged_in) _ _ (λ h. inl refl)
        (λ h.
          if-both P (is_suppressed env.now c) _ _ (λ s. inl refl)
            (λ s. inr (not-not c.logged_in h, s, process_clipboard_change-Turned)))
