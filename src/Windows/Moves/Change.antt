-- ===== src/Windows/Moves/Change.antt =====
-- windows/main.c: the balances through `on_clipboard_changed`.

use sync_clipboard.Prelude.Int.{pos, leb_ℤ}
use sync_clipboard.Client.Monitor.{megabytes}
use sync_clipboard.Client.Moves.{
  Move, Move-refl, Move-trans, Quiet, Quiet-Move, Quiet-refl, grants, requests,
}
use sync_clipboard.Client.Moves.Launch.{renewed-Move}
use sync_clipboard.Client.Moves.Monitor.{offer-Move, offer_text-Quiet, seen_image-Quiet}
use sync_clipboard.Client.State.{Client, Env, Libs, is_disabled, renew}
use sync_clipboard.Config.{ClientConfig}
use sync_clipboard.Digest.{sha256_hex}
use sync_clipboard.Prelude.{
  Bytes, append-nil, arith, if-both, length, ltb, maybe, maybe-both, none, not, refl, same, sym, ℕ,
  ◌%◌, ◌&&◌, ◌==◌, ◌^◌, ◌||◌,
}
use sync_clipboard.Windows.Board.{Stb}
use sync_clipboard.Windows.Desk.{Desk}
use sync_clipboard.Windows.Monitor.{
  View, begun_anew, in_memory, look_for_file, look_for_image, on_clipboard_changed, png_transfer,
  read_transfer, share_file, share_image, share_sized, share_text, still_busy,
}
use sync_clipboard.Wire.{c_string}

module _ (stb : Stb) (libs : Libs) (cfg : ClientConfig) (env : Env) (sight : View) where
  begun_anew-Move : (c : Client) → Move c (begun_anew env c)
  unfolding begun_anew renew requests grants
  begun_anew-Move c =
      renewed-Move c _ none refl refl (sym (append-nil c.opened)) refl refl (omega arith)

  share_image-Move : (img : Bytes) (c : Client) → Move c (share_image stb libs env sight img c)
  unfolding share_image png_transfer
  share_image-Move img c =
      let seen : Client = record c { img_hash = sha256_hex libs.digest img } in
      let glance : Move c seen = Quiet-Move c seen (seen_image-Quiet c _) in
      if-both (Move c) (same (sha256_hex libs.digest img) c.img_hash) _ _ (λ h. Move-refl c)
        (λ h.
          if-both (Move c) (still_busy sight c) _ _ (λ b. glance)
            (λ b.
              maybe-both (Move c) _ _ _ (λ e. Move-trans c seen _ glance (begun_anew-Move seen))
                (λ png e.
                  Move-trans c seen _ glance
                    (offer-Move env (png_transfer libs env png) seen refl))))

  share_sized-Move :
      (path : Bytes) (fsize : ℕ) (d : Desk)
      → Move d.client (share_sized env sight path fsize d).client
  unfolding share_sized read_transfer
  share_sized-Move path fsize d =
      let c = d.client in
      let P : Desk → Type 0 = λ x. Move c x.client in
      let hash : Bytes = maybe (sight.hash_file path) sight.stack (λ h. h) in
      if-both P (same hash d.file_hash) _ _ (λ h. Move-refl c)
        (λ h.
          if-both P env.memory _ _
            (λ m.
              maybe-both P _ _ _ (λ e. Move-refl c)
                (λ got e.
                  if-both P (length got == fsize % 2 ^ 32) _ _
                    (λ g.
                      if-both P (still_busy sight c) _ _ (λ b. Move-refl c)
                        (λ b.
                          offer-Move env
                            (read_transfer env path fsize hash (in_memory env fsize got)) c refl))
                    (λ g. Move-refl c)))
            (λ m. Move-refl c))

  share_file-Move :
      (path : Bytes) (d : Desk) → Move d.client (share_file cfg env sight path d).client
  unfolding share_file
  share_file-Move path d =
      let P : Desk → Type 0 = λ x. Move d.client x.client in
      if-both P (sight.regular path) _ _
        (λ h.
          maybe-both P _ _ _ (λ e. Move-refl d.client)
            (λ fsize e.
              if-both P (fsize == 0 || leb_ℤ (megabytes cfg.max_transfer_size) (pos fsize)) _ _
                (λ l. Move-refl d.client) (λ l. share_sized-Move path fsize d)))
        (λ h. Move-refl d.client)

  share_text-Quiet : (c : Client) → Quiet c (share_text libs cfg env sight c)
  unfolding share_text
  share_text-Quiet c =
      maybe-both (Quiet c) _ _ _ (λ e. Quiet-refl c)
        (λ clip e.
          if-both (Quiet c) (length (c_string clip) == 0) _ _ (λ z. Quiet-refl c)
            (λ z. offer_text-Quiet libs cfg env c clip))

  look_for_file-Move : (d : Desk) → Move d.client (look_for_file libs cfg env sight d).client
  unfolding look_for_file
  look_for_file-Move d =
      let P : Desk → Type 0 = λ x. Move d.client x.client in
      let text = Quiet-Move d.client _ (share_text-Quiet d.client) in
      if-both P (not (is_disabled cfg d.client) && sight.has_drop) _ _
        (λ h. maybe-both P _ _ _ (λ e. text) (λ path e. share_file-Move path d)) (λ h. text)

  look_for_image-Move : (d : Desk) → Move d.client (look_for_image stb libs cfg env sight d).client
  unfolding look_for_image
  look_for_image-Move d =
      let P : Desk → Type 0 = λ x. Move d.client x.client in
      if-both P (not (is_disabled cfg d.client) && sight.has_image) _ _
        (λ h.
          maybe-both P _ _ _ (λ e. look_for_file-Move d)
            (λ img e.
              if-both P (ltb 0 (length img)) _ _ (λ l. share_image-Move img d.client)
                (λ l. look_for_file-Move d)))
        (λ h. look_for_file-Move d)

  pub on_clipboard_changed-Move :
      (d : Desk) → Move d.client (on_clipboard_changed stb libs cfg env sight d).client
  unfolding on_clipboard_changed
  on_clipboard_changed-Move d =
      let P : Desk → Type 0 = λ x. Move d.client x.client in
      if-both P (not d.client.logged_in) _ _ (λ h. Move-refl d.client)
        (λ h. if-both P d.suppress_next _ _ (λ s. Move-refl d.client) (λ s. look_for_image-Move d))
