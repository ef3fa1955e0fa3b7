-- ===== src/Client/Moves/Monitor.antt =====
-- linux/main.c: the balances through the monitor.
use sync_clipboard.Prelude.Int.{pos, leb_ℤ}
use sync_clipboard.Client.Message.{build_file_offer}
use sync_clipboard.Client.Monitor.{
  Look, file_transfer, image_transfer, is_busy, megabytes, offer, offer_file, offer_image,
  offer_text, poll, poll_primary, process_clipboard_change, process_file, process_primary_change,
  process_text,
}
use sync_clipboard.Client.Moves.{
  Move, Move-refl, Move-trans, Quiet, Quiet-Move, Quiet-of, Quiet-refl, Quiet-sends, requests-queue,
  view,
}
use sync_clipboard.Client.Moves.Launch.{grants_sender, renewed-Move}
use sync_clipboard.Client.Shell.{clipboard_has_file, clipboard_has_image}
use sync_clipboard.Client.State.{
  Client, Env, Libs, TransferState, is_disabled, is_suppressed, renew,
}
use sync_clipboard.Config.{ClientConfig}
use sync_clipboard.Digest.{sha256_hex}
use sync_clipboard.Prelude.{
  Bytes, arith, if-both, length, ltb, maybe, maybe-both, not, refl, same, true, ◌&&◌, ◌==◌, ◌||◌,
  ◌≡◌,
}
use sync_clipboard.Wire.{c_string}

pub seen_image-Quiet : (c : Client) (hash : Bytes) → Quiet c (record c { img_hash = hash })
unfolding view
seen_image-Quiet c hash = Quiet-of c _ refl refl

pub offer-Move :
    (env : Env) (st : TransferState) (c : Client) → st.is_sender ≡ true → Move c (offer env st c)
unfolding offer renew
offer-Move env st c sends = renewed-Move c _ env.server refl refl refl refl refl (
    let ready = record st { listen_fd = env.server; listen_port = env.port; phase = 1 } in
    let a = grants_sender ready sends in
    let msg =
      build_file_offer st.file_id st.file_name st.mime_type st.file_size st.checksum
        (env.addresses env.port) in
    let b = requests-queue c.sent msg in omega (arith, a, b))

pub offer_text-Quiet :
    (libs : Libs) (cfg : ClientConfig) (env : Env) (c : Client) (clip : Bytes)
    → Quiet c (offer_text libs cfg env clip c)
unfolding offer_text view
offer_text-Quiet libs cfg env c clip =
    if-both (Quiet c) (same (sha256_hex libs.digest (c_string clip)) c.clip_hash) _ _
      (λ h. Quiet-refl c)
      (λ h.
        maybe-both (Quiet c) _ _ _ (λ e. Quiet-of c _ refl refl)
          (λ enc e. Quiet-sends c _ _ refl refl))

module _ (libs : Libs) (cfg : ClientConfig) (env : Env) (look : Look) (c : Client) where
  offer_image-Move : (img mime : Bytes) → Move c (offer_image libs env look img mime c)
  unfolding offer_image image_transfer
  offer_image-Move img mime =
      let seen : Client = record c { img_hash = sha256_hex libs.digest img } in
      let glance : Move c seen = Quiet-Move c seen (seen_image-Quiet c _) in
      if-both (Move c) (same (sha256_hex libs.digest img) c.img_hash) _ _ (λ h. Move-refl c)
        (λ h.
          if-both (Move c) (is_busy look c) _ _ (λ b. glance)
            (λ b.
              Move-trans c seen _ glance
                (offer-Move env (image_transfer libs env img mime) seen refl)))

  offer_file-Move : (path : Bytes) → Move c (offer_file cfg env look path c)
  unfolding offer_file file_transfer
  offer_file-Move path =
      maybe-both (Move c) _ _ _ (λ e. Move-refl c)
        (λ fsize e.
          let hash : Bytes = maybe (look.hash_file path) look.stack (λ h. h) in
          let seen : Client = record c { img_hash = hash } in
          if-both (Move c) (fsize == 0 || leb_ℤ (megabytes cfg.max_transfer_size) (pos fsize)) _ _
            (λ h. Move-refl c)
            (λ h.
              if-both (Move c) (is_busy look c) _ _ (λ b. Move-refl c)
                (λ b.
                  Move-trans c seen _ (Quiet-Move c seen (seen_image-Quiet c hash))
                    (offer-Move env (file_transfer env path fsize hash) seen refl))))

  process_text-Quiet : Quiet c (process_text libs cfg env look c)
  unfolding process_text
  process_text-Quiet =
      maybe-both (Quiet c) _ _ _ (λ e. Quiet-refl c)
        (λ clip e. offer_text-Quiet libs cfg env c clip)

  process_file-Move : Move c (process_file libs cfg env look c)
  unfolding process_file
  process_file-Move =
      let text = Quiet-Move c _ process_text-Quiet in
      if-both (Move c) (not (is_disabled cfg c) && clipboard_has_file look.types) _ _
        (λ h. maybe-both (Move c) _ _ _ (λ e. text) (λ path e. offer_file-Move path)) (λ h. text)

  process_clipboard_change-Move : Move c (process_clipboard_change libs cfg env look c)
  unfolding process_clipboard_change
  process_clipboard_change-Move =
      if-both (Move c) (not (is_disabled cfg c) && clipboard_has_image look.types) _ _
        (λ h.
          maybe-both (Move c) _ _ _ (λ e. process_file-Move)
            (λ p e.
              if-both (Move c) (ltb 0 (length p.0)) _ _ (λ l. offer_image-Move p.0 p.1)
                (λ l. process_file-Move)))
        (λ h. process_file-Move)

  pub poll-Move : Move c (poll libs cfg env look c)
  unfolding poll
  poll-Move =
      if-both (Move c) (not c.logged_in) _ _ (λ h. Move-refl c)
        (λ h.
          if-both (Move c) (is_suppressed env.now c) _ _ (λ s. Move-refl c)
            (λ s. process_clipboard_change-Move))

  pub poll_primary-Quiet : Quiet c (poll_primary libs cfg env look c)
  unfolding poll_primary process_primary_change
  poll_primary-Quiet =
      if-both (Quiet c) (c.logged_in && not (is_suppressed env.now c)) _ _
        (λ h.
          maybe-both (Quiet c) _ _ _ (λ e. Quiet-refl c)
            (λ t e.
              if-both (Quiet c) (length (c_string t) == 0) _ _ (λ z. Quiet-refl c)
                (λ z. offer_text-Quiet libs cfg env c t)))
        (λ h. Quiet-refl c)
