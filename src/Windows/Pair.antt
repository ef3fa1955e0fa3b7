-- ===== src/Windows/Pair.antt =====
-- linux/main.c and windows/main.c: a text between a Linux client and a Windows client with one key.

use sync_clipboard.Auth.Handshake.{IsKey}
use sync_clipboard.Client.Handlers.{Json, decrypt, handle}
use sync_clipboard.Client.Message.{Object, build_clipboard_msg, typed}
use sync_clipboard.Client.Monitor.{Look, offer_text, poll}
use sync_clipboard.Client.Monitor.Echo.{c_string_idem, not_both}
use sync_clipboard.Client.Shell.{clipboard_has_file, clipboard_has_image}
use sync_clipboard.Client.State.{Client, Env, Libs, is_disabled, is_suppressed, text_set}
use sync_clipboard.Client.Sync.{
  IsFaithful, decrypt-gcm_encrypt, handle-board, msg_content, msg_type, not-true, offer_text-sent,
  poll_text,
}
use sync_clipboard.Config.{ClientConfig}
use sync_clipboard.Crypto.Laws.{IsSound, IsWorking}
use sync_clipboard.Digest.{sha256_hex}
use sync_clipboard.Prelude.{
  Bytes, [], ap, codes, false, if-both, length, maybe, not, refl, same, some, sym, true,
  true_is_false, ◌&&◌, ◌++◌, ◌+◌, ◌==◌, ◌^◌, ◌∙◌, ◌∷◌, ◌≡◌, ◌≤◌,
}
use sync_clipboard.Windows.Board.{Stb}
use sync_clipboard.Windows.Desk.{Desk, Desktop, clipboard_set}
use sync_clipboard.Windows.Handlers.{paste, paste_text, ws_receive}
use sync_clipboard.Windows.Monitor.{
  View, look_for_file, look_for_image, on_clipboard_changed, share_text,
}
use sync_clipboard.Wire.{c_string}

module _ (libs : Libs) (cfg : ClientConfig) (j : Json) (b : Desk) (w : Desktop) where
  -- A clipboard message that can be opened, where the clipboard can be.
  ws_receive-board :
      (stb : Stb) (content text : Bytes)
      → j.text (codes "type") ≡ some (codes "clipboard")
      → j.text (codes "content") ≡ some content
      → decrypt libs cfg w.base content ≡ some text
      → w.opens ≡ true
      → ((ws_receive stb libs cfg w j b).client.board
          ≡ b.client.board ++ text_set (w.to_wide (c_string text)) ∷ [])
        × ((ws_receive stb libs cfg w j b).client.clip_hash
            ≡ sha256_hex libs.digest (c_string text))
  unfolding ws_receive same paste paste_text clipboard_set maybe
  ws_receive-board stb content text typed has opens up =
      (rw (typed, has, opens, up) refl, rw (typed, has, opens, up) refl)

module _ (stb : Stb) (libs : Libs) (cfg : ClientConfig) (env : Env) (sight : View) (d : Desk) where
  -- A change that comes to the text.
  changed_text :
      (clip : Bytes)
      → d.client.logged_in ≡ true
      → d.suppress_next ≡ false
      → sight.has_image ≡ false
      → sight.has_drop ≡ false
      → sight.text ≡ some clip
      → (length (c_string clip) == 0) ≡ false
      → (on_clipboard_changed stb libs cfg env sight d).client
        ≡ offer_text libs cfg env clip d.client
  unfolding on_clipboard_changed look_for_image look_for_file share_text maybe
  changed_text clip logged clear no_image no_drop shows nonempty =
      let target = offer_text libs cfg env clip d.client in
      let P : Desk → Type 0 = λ x. x.client ≡ target in
      let text : share_text libs cfg env sight d.client ≡ target = rw (shows, nonempty) refl in
      if-both P (not d.client.logged_in) _ _ (λ h. absurd (not-true d.client.logged_in logged h))
        (λ h.
          if-both P d.suppress_next _ _ (λ s. absurd (true_is_false (sym s ∙ clear)))
            (λ s.
              if-both P (not (is_disabled cfg d.client) && sight.has_image) _ _
                (λ i. absurd (not_both _ _ no_image i))
                (λ i.
                  if-both P (not (is_disabled cfg d.client) && sight.has_drop) _ _
                    (λ f. absurd (not_both _ _ no_drop f)) (λ f. text))))

module _ (libs : Libs) (cfg cfg' : ClientConfig) (deliver : Object → Json)
    (faithful : IsFaithful deliver) where
  -- A Linux and a Windows client have the same key of 64 hexadecimal digits, OpenSSL's calls succeed and
  -- do what is documented, there is memory, the random nonces have 12 bytes, and what lies between the
  -- clients delivers the strings of a message. If the Windows client, logged in and with no flag, sees a
  -- text that is not empty, no image and no file, and not with the hash it remembers, it sends one
  -- message, and the Linux client that gets it puts the text on its clipboard, up to the first NUL.
  pub handle-on_clipboard_changed :
      IsSound libs.ssl
      → IsWorking libs.ssl
      → IsKey cfg.aes_key
      → cfg'.aes_key ≡ cfg.aes_key
      → (stb : Stb) (env env' : Env) (sight : View) (d : Desk) (b : Client) (clip nonce : Bytes)
      → env.memory ≡ true
      → env'.memory ≡ true
      → env.nonce ≡ some nonce
      → length nonce ≡ 12
      → d.client.logged_in ≡ true
      → d.suppress_next ≡ false
      → sight.has_image ≡ false
      → sight.has_drop ≡ false
      → sight.text ≡ some clip
      → (length (c_string clip) == 0) ≡ false
      → length (c_string clip) + 29 ≤ 2 ^ 30
      → same (sha256_hex libs.digest (c_string clip)) d.client.clip_hash ≡ false
      → (msg : Object) × ((on_clipboard_changed stb libs cfg env sight d).client.sent
          ≡ d.client.sent ++ msg ∷ [])
        × ((handle libs cfg' env' (deliver msg) b).board ≡ b.board ++ text_set (c_string clip) ∷ [])
  handle-on_clipboard_changed sound works key keys stb env env' sight d b clip nonce memory memory'
        draws twelve logged clear no_image no_drop shows nonempty short new =
      let text = c_string clip in
      let (sealed, seals, opens) =
        decrypt-gcm_encrypt libs cfg cfg' sound works key keys env env' text nonce memory memory'
          draws twelve short in
      let msg = build_clipboard_msg sealed in
      let turn =
        changed_text stb libs cfg env sight d clip logged clear no_image no_drop shows nonempty in
      let (sent, hash) = offer_text-sent libs cfg env d.client clip sealed new seals in
      let (board, hash') =
        handle-board libs cfg' env' (deliver msg) b sealed text
          (faithful.carries msg (codes "type") (codes "clipboard") (msg_type sealed))
          (faithful.carries msg (codes "content") sealed (msg_content sealed)) opens in
      (
        msg,
        ap (λ (c : Client). c.sent) turn ∙ sent,
        board ∙ ap (λ s. b.board ++ text_set s ∷ []) (c_string_idem clip),
      )

  -- Under the same conditions, and if the Windows client can open its clipboard: the monitor of the
  -- Linux client, logged in and not suppressed, sees a text, no image and no file, and not with the hash
  -- it remembers. Then it gives one message to `queue_send`, and the Windows client that gets it gives its clipboard the
  -- text, up to the first NUL, in the clipboard's form; both remember the same hash of it.
  pub ws_receive-poll :
      IsSound libs.ssl
      → IsWorking libs.ssl
      → IsKey cfg.aes_key
      → cfg'.aes_key ≡ cfg.aes_key
      → (stb : Stb) (env : Env) (w : Desktop) (look : Look) (a : Client) (b : Desk)
      → (clip nonce : Bytes) → env.memory ≡ true
      → w.base.memory ≡ true
      → w.opens ≡ true
      → env.nonce ≡ some nonce
      → length nonce ≡ 12
      → a.logged_in ≡ true
      → is_suppressed env.now a ≡ false
      → clipboard_has_image look.types ≡ false
      → clipboard_has_file look.types ≡ false
      → look.text ≡ some clip
      → length (c_string clip) + 29 ≤ 2 ^ 30
      → same (sha256_hex libs.digest (c_string clip)) a.clip_hash ≡ false
      → (msg : Object) × ((poll libs cfg env look a).sent ≡ a.sent ++ msg ∷ [])
        × ((ws_receive stb libs cfg' w (deliver msg) b).client.board
            ≡ b.client.board ++ text_set (w.to_wide (c_string clip)) ∷ [])
        × ((ws_receive stb libs cfg' w (deliver msg) b).client.clip_hash
            ≡ (poll libs cfg env look a).clip_hash)
  ws_receive-poll sound works key keys stb env w look a b clip nonce memory memory' up draws twelve
        logged quiet no_image no_file shows short new =
      let text = c_string clip in
      let (sealed, seals, opens) =
        decrypt-gcm_encrypt libs cfg cfg' sound works key keys env w.base text nonce memory memory'
          draws twelve short in
      let msg = build_clipboard_msg sealed in
      let turn = poll_text libs cfg env look a clip logged quiet no_image no_file shows in
      let (sent, hash) = offer_text-sent libs cfg env a clip sealed new seals in
      let (board, hash') =
        ws_receive-board libs cfg' (deliver msg) b w stb sealed text
          (faithful.carries msg (codes "type") (codes "clipboard") (msg_type sealed))
          (faithful.carries msg (codes "content") sealed (msg_content sealed)) opens up in
      (
        msg,
        ap (λ (c : Client). c.sent) turn ∙ sent,
        board ∙ ap (λ s. b.client.board ++ text_set (w.to_wide s) ∷ []) (c_string_idem clip),
        hash'
            ∙ ap (sha256_hex libs.digest) (c_string_idem clip)
            ∙ sym (ap (λ (c : Client). c.clip_hash) turn ∙ hash),
      )
