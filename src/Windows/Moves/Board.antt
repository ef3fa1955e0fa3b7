-- ===== src/Windows/Moves/Board.antt =====
-- windows/main.c: the balances through the handlers, and through `receiver_thread`.

use sync_clipboard.Client.Handlers.{Json}
use sync_clipboard.Client.Moves.{
  Move, Move-refl, Move-trans, Quiet, Quiet-Move, Quiet-of, Quiet-refl, Quiet-sends, Quiet-trans,
  view,
}
use sync_clipboard.Client.Moves.Handlers.{
  on_file_notify-Move, on_file_peer_info-Move, on_hello_ack-Quiet, on_relay_request-Quiet,
}
use sync_clipboard.Client.Moves.Threads.{visit-Move}
use sync_clipboard.Client.State.{Client, Libs, TransferState, open_sock}
use sync_clipboard.Client.Thread.{close_all, may_relay}
use sync_clipboard.Config.{ClientConfig}
use sync_clipboard.Prelude.{
  Bytes, [], codes, if-both, maybe, maybe-both, refl, same, some, starts_with, true, ◌||◌, ◌≡◌,
}
use sync_clipboard.Windows.Board.{Stb}
use sync_clipboard.Windows.Desk.{
  Desk, Desktop, clipboard_set, clipboard_set_file, clipboard_set_file_path, clipboard_set_image,
  place_bytes, with_client,
}
use sync_clipboard.Windows.Handlers.{paste, paste_text, take_relay, ws_receive}
use sync_clipboard.Windows.Thread.{Download, downloaded, report_loss, take_file}

module _ (stb : Stb) (w : Desktop) (c d : Client) (q : Quiet c d) where
  clipboard_set_image-Quiet : (bytes : Bytes) → Quiet c (clipboard_set_image stb w bytes d)
  unfolding clipboard_set_image view Quiet
  clipboard_set_image-Quiet bytes =
      maybe-both (Quiet c) _ _ _ (λ e. q) (λ dib e. if-both (Quiet c) w.opens _ _ (λ o. q) (λ o. q))

  clipboard_set_file-Quiet : (bytes name : Bytes) → Quiet c (clipboard_set_file w bytes name d)
  unfolding clipboard_set_file clipboard_set_file_path view Quiet
  clipboard_set_file-Quiet bytes name =
      if-both (Quiet c) w.base.can_write _ _ (λ h. if-both (Quiet c) w.opens _ _ (λ o. q) (λ o. q))
        (λ h. q)

  pub place_bytes-Quiet : (mime name bytes : Bytes) → Quiet c (place_bytes stb w mime name bytes d)
  unfolding place_bytes
  place_bytes-Quiet mime name bytes =
      if-both (Quiet c) (starts_with (codes "image/") mime) _ _
        (λ h. clipboard_set_image-Quiet bytes) (λ h. clipboard_set_file-Quiet bytes name)

module _ (stb : Stb) (libs : Libs) (cfg : ClientConfig) (w : Desktop) (j : Json) (d : Desk) where
  paste-Quiet : Quiet d.client (paste libs cfg w j d).client
  unfolding paste paste_text clipboard_set view
  paste-Quiet =
      let P : Desk → Type 0 = λ x. Quiet d.client x.client in
      maybe-both P _ _ _ (λ e. Quiet-refl d.client)
        (λ content e.
          maybe-both P _ _ _ (λ n. Quiet-refl d.client)
            (λ dec n.
              if-both (Quiet d.client) w.opens _ _ (λ o. Quiet-of d.client _ refl refl)
                (λ o. Quiet-of d.client _ refl refl)))

  take_relay-Quiet : Quiet d.client (take_relay stb libs w j d).client
  unfolding take_relay view
  take_relay-Quiet =
      let P : Desk → Type 0 = λ x. Quiet d.client x.client in
      maybe-both P _ _ _ (λ e. Quiet-refl d.client)
        (λ b64 e.
          maybe-both P _ _ _ (λ n. Quiet-refl d.client)
            (λ dec n.
              Quiet-trans d.client _ _
                (place_bytes-Quiet stb w d.client d.client (Quiet-refl d.client)
                  (maybe (j.text (codes "mimeType")) [] (λ s. s))
                  (maybe (j.text (codes "fileName")) (codes "file") (λ s. s)) dec)
                (Quiet-sends _ _ _ refl refl)))

  pub ws_receive-Move : w.base.thread ≡ true → Move d.client (ws_receive stb libs cfg w j d).client
  unfolding ws_receive
  ws_receive-Move t =
      let c = d.client in
      let P : Desk → Type 0 = λ x. Move c x.client in
      maybe-both P _ _ _ (λ e. Move-refl c)
        (λ type e.
          if-both P (same type (codes "hello_ack")) _ _
            (λ h. Quiet-Move c _ (on_hello_ack-Quiet j c))
            (λ h.
              if-both P (same type (codes "auth_result") || same type (codes "login_result")) _ _
                (λ h. Move-refl c)
                (λ h.
                  if-both P (same type (codes "clipboard")) _ _ (λ h. Quiet-Move c _ paste-Quiet)
                    (λ h.
                      if-both P (same type (codes "file_notify")) _ _
                        (λ h. on_file_notify-Move libs cfg w.base j c)
                        (λ h.
                          if-both P (same type (codes "file_peer_info")) _ _
                            (λ h. on_file_peer_info-Move libs cfg w.base j c t)
                            (λ h.
                              if-both P (same type (codes "file_relay_request")) _ _
                                (λ h. Quiet-Move c _ (on_relay_request-Quiet libs cfg w.base j c))
                                (λ h.
                                  if-both P (same type (codes "file_relay_data")) _ _
                                    (λ h. Quiet-Move c _ take_relay-Quiet) (λ h. Move-refl c))))))))

module _ (stb : Stb) (w : Desktop) (r : Download) (st : TransferState) where
  pub report_loss-Quiet : (c : Client) → Quiet c (report_loss r st c)
  unfolding report_loss view
  report_loss-Quiet c =
      if-both (Quiet c) st.success _ _ (λ h. Quiet-refl c)
        (λ h.
          if-both (Quiet c) (may_relay st) _ _ (λ m. Quiet-sends c _ _ refl refl)
            (λ m. Quiet-sends c _ _ refl refl))

  pub take_file-Quiet :
      (bytes : Bytes) (d : Desk) → Quiet d.client (take_file stb w r st bytes d).client
  unfolding take_file view
  take_file-Quiet bytes d =
      Quiet-trans d.client _ _
        (place_bytes-Quiet stb w d.client d.client (Quiet-refl d.client) st.mime_type st.file_name
          bytes)
        (Quiet-sends _ _ _ refl refl)

  pub downloaded-Move : (d : Desk) → Move d.client (downloaded stb w r st d).client
  unfolding downloaded
  downloaded-Move d =
      let c = d.client in
      let P : Desk → Type 0 = λ x. Move c x.client in
      maybe-both P _ _ _ (λ e. Quiet-Move c _ (report_loss-Quiet c))
        (λ s e.
          let held : Client = open_sock (some s) c in
          maybe-both P _ _ _
            (λ n.
              let over : Client = close_all (some s) held in
              Move-trans c over _ (visit-Move (some s) c held (Quiet-refl held))
                (Quiet-Move over _ (report_loss-Quiet over)))
            (λ bytes n. visit-Move (some s) c _ (take_file-Quiet bytes (with_client held d))))
