-- ===== src/Client/Monitor/Echo.antt =====
-- linux/main.c: what came from another client is not sent back by the monitor.

use sync_clipboard.Client.Monitor.{
  Look, offer_image, offer_text, poll, poll_primary, process_clipboard_change, process_file,
  process_primary_change, process_text,
}
use sync_clipboard.Client.State.{
  Client, Env, Libs, file_set, is_disabled, is_suppressed, put, suppress_clipboard_ms,
}
use sync_clipboard.Config.{ClientConfig}
use sync_clipboard.Digest.{block_decode, sha256_hex}
use sync_clipboard.Prelude.{
  Bool, Bool-cases, Bytes, Option, [], ap, codes, false, if-both, inl, inr, length, ltb, maybe, not,
  refl, same, same_iff, some, starts_with, sym, true, true_is_false, ◌&&◌, ◌==◌, ◌∙◌, ◌∷◌, ◌≡◌,
}
use sync_clipboard.Wire.{c_string}
use sync_clipboard.Client.Shell.{clipboard_get_image, clipboard_has_file, clipboard_has_image}
use sync_clipboard.Client.Handlers.{
  Json, decrypt, on_clipboard, on_relay_data, take_relayed, take_text, tmp_name,
}

pub not_both : (a b : Bool) → b ≡ false → (a && b) ≡ true → ⊥
not_both true b f h = true_is_false (sym h ∙ f)
not_both false b f h = true_is_false (sym h)

pub c_string_idem : (s : Bytes) → c_string (c_string s) ≡ c_string s
c_string_idem [] = refl
c_string_idem (x ∷ s) = elim (Bool-cases (x == 0)) [
  | inl e ↦ rw e refl
  | inr e ↦
      let ih : c_string (x ∷ c_string s) ≡ x ∷ c_string s = rw e (ap (◌∷◌ x) (c_string_idem s)) in
      rw e ih
]

module _ (libs : Libs) (cfg : ClientConfig) (env : Env) (c : Client) where
  -- A text with the hash of the last one.
  pub offer_text_seen :
      (clip : Bytes)
      → c.clip_hash ≡ sha256_hex libs.digest (c_string clip)
      → offer_text libs cfg env clip c ≡ c
  unfolding offer_text
  offer_text_seen clip e =
      let eq : same (sha256_hex libs.digest (c_string clip)) c.clip_hash ≡ true =
        (same_iff _ _).1 (sym e) in
      if-both (λ d. d ≡ c) (same (sha256_hex libs.digest (c_string clip)) c.clip_hash) _ _
        (λ h. refl) (λ h. absurd (true_is_false (sym eq ∙ h)))

  -- An image with the hash of the last one.
  offer_image_seen :
      (look : Look) (img mime : Bytes)
      → c.img_hash ≡ sha256_hex libs.digest img
      → offer_image libs env look img mime c ≡ c
  unfolding offer_image
  offer_image_seen look img mime e =
      let eq : same (sha256_hex libs.digest img) c.img_hash ≡ true = (same_iff _ _).1 (sym e) in
      if-both (λ d. d ≡ c) (same (sha256_hex libs.digest img) c.img_hash) _ _ (λ h. refl)
        (λ h. absurd (true_is_false (sym eq ∙ h)))

  process_text_seen :
      (look : Look) (clip : Bytes)
      → look.text ≡ some clip
      → c.clip_hash ≡ sha256_hex libs.digest (c_string clip)
      → process_text libs cfg env look c ≡ c
  unfolding process_text maybe same
  process_text_seen look clip shows e = rw shows (offer_text_seen clip e)

  change_text_seen :
      (look : Look) (clip : Bytes)
      → clipboard_has_image look.types ≡ false
      → clipboard_has_file look.types ≡ false
      → look.text ≡ some clip
      → c.clip_hash ≡ sha256_hex libs.digest (c_string clip)
      → process_clipboard_change libs cfg env look c ≡ c
  unfolding process_clipboard_change process_file
  change_text_seen look clip no_image no_file shows e =
      if-both (λ d. d ≡ c) (not (is_disabled cfg c) && clipboard_has_image look.types) _ _
        (λ h. absurd (not_both _ _ no_image h))
        (λ h.
          if-both (λ d. d ≡ c) (not (is_disabled cfg c) && clipboard_has_file look.types) _ _
            (λ g. absurd (not_both _ _ no_file g)) (λ g. process_text_seen look clip shows e))

  primary_text_seen :
      (look : Look) (clip : Bytes)
      → look.utf8 ≡ some clip
      → c.clip_hash ≡ sha256_hex libs.digest (c_string clip)
      → process_primary_change libs cfg env look c ≡ c
  unfolding process_primary_change maybe
  primary_text_seen look clip shows e = rw shows (
      if-both (λ d. d ≡ c) (length (c_string clip) == 0) _ _ (λ z. refl)
        (λ z. offer_text_seen clip e))

  change_image_seen :
      (look : Look) (img mime : Bytes)
      → is_disabled cfg c ≡ false
      → clipboard_has_image look.types ≡ true
      → clipboard_get_image look.read ≡ some (img, mime)
      → ltb 0 (length img) ≡ true
      → c.img_hash ≡ sha256_hex libs.digest img
      → process_clipboard_change libs cfg env look c ≡ c
  unfolding process_clipboard_change maybe
  change_image_seen look img mime on has shows nonempty e =
      rw (on, has, shows, nonempty) (offer_image_seen look img mime e)

  -- A turn of the monitor does nothing where the change itself does nothing.
  poll_idle :
      (look : Look)
      → process_clipboard_change libs cfg env look c ≡ c
      → poll libs cfg env look c ≡ c
  unfolding poll
  poll_idle look e =
      if-both (λ d. d ≡ c) (not c.logged_in) _ _ (λ h. refl)
        (λ h. if-both (λ d. d ≡ c) (is_suppressed env.now c) _ _ (λ s. refl) (λ s. e))

  poll_primary_idle :
      (look : Look)
      → process_primary_change libs cfg env look c ≡ c
      → poll_primary libs cfg env look c ≡ c
  unfolding poll_primary
  poll_primary_idle look e =
      if-both (λ d. d ≡ c) (c.logged_in && not (is_suppressed env.now c)) _ _ (λ h. e) (λ h. refl)

module _ (libs : Libs) (cfg : ClientConfig) (env : Env) (j : Json) (c : Client)
    (content dec : Bytes) where
  on_clipboard-hash :
      j.text (codes "content") ≡ some content
      → decrypt libs cfg env content ≡ some dec
      → (on_clipboard libs cfg env j c).clip_hash ≡ sha256_hex libs.digest (c_string (c_string dec))
  unfolding on_clipboard take_text suppress_clipboard_ms maybe
  on_clipboard-hash has opens =
      rw (has, opens) (ap (sha256_hex libs.digest) (sym (c_string_idem dec)))

  -- A text that arrived from another client and was decrypted is not sent back: if the clipboard then
  -- shows that text, and no image and no file, a later turn of the monitor changes nothing and sends
  -- nothing, whether the suppression has ended or not; nor does a turn for PRIMARY, which gets the text
  -- too.
  pub on_clipboard-poll :
      j.text (codes "content") ≡ some content
      → decrypt libs cfg env content ≡ some dec
      → (later : Env) (look : Look) → clipboard_has_image look.types ≡ false
      → clipboard_has_file look.types ≡ false
      → look.text ≡ some (c_string dec)
      → look.utf8 ≡ some (c_string dec)
      → let after = on_clipboard libs cfg env j c in
        (poll libs cfg later look after ≡ after) × (poll_primary libs cfg later look after ≡ after)
  on_clipboard-poll has opens later look no_image no_file shows primary =
      let after = on_clipboard libs cfg env j c in
      let e = on_clipboard-hash has opens in
      (
        poll_idle libs cfg later after look
            (change_text_seen libs cfg later after look (c_string dec) no_image no_file shows e),
        poll_primary_idle libs cfg later after look
            (primary_text_seen libs cfg later after look (c_string dec) primary e),
      )

take_relayed-hash :
    (env : Env) (mt fn : Option Bytes) (dec : Bytes) (c : Client)
    → (take_relayed env mt fn dec c).img_hash ≡ c.img_hash
unfolding take_relayed
take_relayed-hash env mt fn dec c =
    let Kept : Client → Type 0 = λ d. d.img_hash ≡ c.img_hash in
    if-both Kept (starts_with (codes "image/") (maybe mt [] (λ s. s))) _ _ (λ h. refl)
      (λ h.
        if-both (λ d. Kept (put (file_set (tmp_name fn)) d)) env.can_write _ _ (λ w. refl)
          (λ w. refl))

module _ (libs : Libs) (cfg : ClientConfig) (env : Env) (j : Json) (c : Client)
    (b64 dec : Bytes) where
  on_relay_data-hash :
      j.text (codes "data") ≡ some b64
      → block_decode libs.coder env.memory b64 ≡ some dec
      → (on_relay_data libs env j c).img_hash ≡ sha256_hex libs.digest dec
  unfolding on_relay_data suppress_clipboard_ms maybe
  on_relay_data-hash has opens =
      rw (has, opens)
        (take_relayed-hash env (j.text (codes "mimeType")) (j.text (codes "fileName")) dec _)

  -- Relayed bytes that were decoded and are not empty are not offered back: if the clipboard then shows
  -- them as an image, and transfers are on, a later turn of the monitor changes nothing and offers
  -- nothing.
  pub on_relay_data-poll :
      j.text (codes "data") ≡ some b64
      → block_decode libs.coder env.memory b64 ≡ some dec
      → ltb 0 (length dec) ≡ true
      → (later : Env) (look : Look) (mime : Bytes)
      → is_disabled cfg (on_relay_data libs env j c) ≡ false
      → clipboard_has_image look.types ≡ true
      → clipboard_get_image look.read ≡ some (dec, mime)
      → poll libs cfg later look (on_relay_data libs env j c) ≡ on_relay_data libs env j c
  on_relay_data-poll has opens nonempty later look mime on shown reads =
      let after = on_relay_data libs env j c in
      poll_idle libs cfg later after look (
        change_image_seen libs cfg later after look dec mime on shown reads nonempty
          (on_relay_data-hash has opens))
