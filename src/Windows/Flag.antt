-- ===== src/Windows/Flag.antt =====
-- windows/main.c: `g_suppress_next`, from what comes in to the next changes of the clipboard.

use sync_clipboard.Client.Handlers.{Json, decrypt}
use sync_clipboard.Client.Monitor.Echo.{c_string_idem, not_both, offer_text_seen}
use sync_clipboard.Client.State.{Client, Env, Libs, is_disabled}
use sync_clipboard.Config.{ClientConfig}
use sync_clipboard.Digest.{block_decode, sha256_hex}
use sync_clipboard.Prelude.{
  Bytes, [], ap, codes, false, if-both, length, maybe, maybe-both, not, refl, some, starts_with,
  subst, sym, true, true_is_false, ◌&&◌, ◌==◌, ◌∙◌, ◌≡◌,
}
use sync_clipboard.Windows.Board.{Stb}
use sync_clipboard.Windows.Desk.{
  Desk, Desktop, clipboard_set, clipboard_set_file, clipboard_set_file_path, clipboard_set_image,
  place_bytes, with_client,
}
use sync_clipboard.Windows.Handlers.{paste, paste_text, take_relay}
use sync_clipboard.Windows.Monitor.{
  View, look_for_file, look_for_image, on_clipboard_changed, share_text,
}
use sync_clipboard.Wire.{c_string}

module _ (stb : Stb) (libs : Libs) (cfg : ClientConfig) (env : Env) (sight : View) (d : Desk) where
  -- A change while the flag is set.
  ignored :
      d.client.logged_in ≡ true
      → d.suppress_next ≡ true
      → on_clipboard_changed stb libs cfg env sight d ≡ record d { suppress_next = false }
  unfolding on_clipboard_changed
  ignored logged set_flag = rw (logged, set_flag) refl

  share_text_seen :
      (clip : Bytes)
      → sight.text ≡ some clip
      → d.client.clip_hash ≡ sha256_hex libs.digest (c_string clip)
      → share_text libs cfg env sight d.client ≡ d.client
  unfolding share_text maybe
  share_text_seen clip shows e = rw shows (
      if-both (λ c. c ≡ d.client) (length (c_string clip) == 0) _ _ (λ z. refl)
        (λ z. offer_text_seen libs cfg env d.client clip e))

  -- A change that shows the last text, and nothing else.
  seen_again :
      (clip : Bytes)
      → d.suppress_next ≡ false
      → sight.has_image ≡ false
      → sight.has_drop ≡ false
      → sight.text ≡ some clip
      → d.client.clip_hash ≡ sha256_hex libs.digest (c_string clip)
      → on_clipboard_changed stb libs cfg env sight d ≡ d
  unfolding on_clipboard_changed look_for_image look_for_file
  seen_again clip clear no_image no_drop shows e =
      let Kept : Desk → Type 0 = λ x. x ≡ d in
      if-both Kept (not d.client.logged_in) _ _ (λ h. refl)
        (λ h.
          if-both Kept d.suppress_next _ _ (λ s. absurd (true_is_false (sym s ∙ clear)))
            (λ s.
              if-both Kept (not (is_disabled cfg d.client) && sight.has_image) _ _
                (λ i. absurd (not_both _ _ no_image i))
                (λ i.
                  if-both Kept (not (is_disabled cfg d.client) && sight.has_drop) _ _
                    (λ f. absurd (not_both _ _ no_drop f))
                    (λ f. ap (λ c. with_client c d) (share_text_seen clip shows e)))))

module _ (libs : Libs) (cfg : ClientConfig) (w : Desktop) (j : Json) (d : Desk)
    (content dec : Bytes) where
  -- What a text that arrived leaves.
  paste-text :
      j.text (codes "content") ≡ some content
      → decrypt libs cfg w.base content ≡ some dec
      → let after = paste libs cfg w j d in
        (after.suppress_next ≡ true)
        × (after.client.clip_hash ≡ sha256_hex libs.digest (c_string (c_string dec)))
        × (after.client.logged_in ≡ d.client.logged_in)
  unfolding paste paste_text clipboard_set maybe
  paste-text has opens =
      let hash = ap (sha256_hex libs.digest) (sym (c_string_idem dec)) in
      rw (has, opens)
        (
          refl,
          if-both (λ (c : Client). c.clip_hash ≡ sha256_hex libs.digest (c_string (c_string dec)))
              w.opens _ _ (λ o. hash) (λ o. hash),
          if-both (λ (c : Client). c.logged_in ≡ d.client.logged_in) w.opens _ _ (λ o. refl)
              (λ o. refl),
        )

  -- A text that arrived and was decrypted is not sent back, if the client is logged in: the next change
  -- of the clipboard, whatever it shows, only ends the suppression, and a change after that which shows
  -- the text, no image and no files, changes nothing at all.
  pub paste-on_clipboard_changed :
      j.text (codes "content") ≡ some content
      → decrypt libs cfg w.base content ≡ some dec
      → d.client.logged_in ≡ true
      → (stb : Stb) (env env' : Env) (sight sight' : View) → sight'.has_image ≡ false
      → sight'.has_drop ≡ false
      → sight'.text ≡ some (c_string dec)
      → let pasted = paste libs cfg w j d in
        let first = on_clipboard_changed stb libs cfg env sight pasted in
        (first ≡ record pasted { suppress_next = false })
        × (on_clipboard_changed stb libs cfg env' sight' first ≡ first)
  paste-on_clipboard_changed has opens logged stb env env' sight sight' no_image no_drop shows =
      let pasted = paste libs cfg w j d in
      let (flag, hash, still) = paste-text has opens in
      let first = ignored stb libs cfg env sight pasted (still ∙ logged) flag in
      let clear : Desk = record pasted { suppress_next = false } in
      let again =
        seen_again stb libs cfg env' sight' clear (c_string dec) refl no_image no_drop shows hash in
      (first, subst (λ x. on_clipboard_changed stb libs cfg env' sight' x ≡ x) (sym first) again)

module _ (stb : Stb) (libs : Libs) (cfg : ClientConfig) (w : Desktop) (j : Json) (d : Desk)
    (b64 dec : Bytes) where
  place_bytes-logged_in :
      (mime name bytes : Bytes)
      → (place_bytes stb w mime name bytes d.client).logged_in ≡ d.client.logged_in
  unfolding place_bytes clipboard_set_image clipboard_set_file clipboard_set_file_path
  place_bytes-logged_in mime name bytes =
      let P : Client → Type 0 = λ c. c.logged_in ≡ d.client.logged_in in
      if-both P (starts_with (codes "image/") mime) _ _
        (λ h.
          maybe-both P _ _ _ (λ e. refl) (λ dib e. if-both P w.opens _ _ (λ o. refl) (λ o. refl)))
        (λ h.
          if-both P w.base.can_write _ _ (λ c. if-both P w.opens _ _ (λ o. refl) (λ o. refl))
            (λ c. refl))

  -- Relayed bytes that were decoded are not offered back at once, if the client is logged in: the next
  -- change of the clipboard, whatever it shows, changes nothing but that the suppression ends.
  pub take_relay-on_clipboard_changed :
      j.text (codes "data") ≡ some b64
      → block_decode libs.coder w.base.memory b64 ≡ some dec
      → d.client.logged_in ≡ true
      → (env : Env) (sight : View)
      → let after = take_relay stb libs w j d in
        on_clipboard_changed stb libs cfg env sight after ≡ record after { suppress_next = false }
  unfolding take_relay maybe
  take_relay-on_clipboard_changed has opens logged env sight =
      ignored stb libs cfg env sight (take_relay stb libs w j d)
        (rw (has, opens)
          (place_bytes-logged_in (maybe (j.text (codes "mimeType")) [] (λ s. s))
              (maybe (j.text (codes "fileName")) (codes "file") (λ s. s)) dec
            ∙ logged))
        (rw (has, opens) refl)
