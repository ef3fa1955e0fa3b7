-- ===== src/Client/Sync.antt =====
-- linux/main.c: two clients with the same key, from the clipboard of the one to that of the other.
use sync_clipboard.Client.Handlers.{Json, decrypt, handle, on_clipboard, take_text}
use sync_clipboard.Client.Message.{Object, build_clipboard_msg, field, string, typed}
use sync_clipboard.Client.Monitor.{
  Look, offer_text, poll, process_clipboard_change, process_file, process_text,
}
use sync_clipboard.Client.Monitor.Echo.{c_string_idem, not_both}
use sync_clipboard.Client.Shell.{clipboard_has_file, clipboard_has_image}
use sync_clipboard.Client.State.{
  Client, Env, Libs, is_disabled, is_suppressed, suppress_clipboard_ms, text_set,
}
use sync_clipboard.Config.{ClientConfig}
use sync_clipboard.Crypto.{Openssl, gcm_decrypt, gcm_encrypt}
use sync_clipboard.Digest.{sha256_hex}
use sync_clipboard.Prelude.{
  Bool, Bytes, [], ap, ap₂, codes, false, if-both, length, maybe, not, refl, same, some, sym, true,
  true_is_false, ◌&&◌, ◌++◌, ◌+◌, ◌^◌, ◌∙◌, ◌∷◌, ◌≡◌, ◌≤◌,
}
use sync_clipboard.Wire.{c_string}
use sync_clipboard.Auth.Handshake.{IsKey}
use sync_clipboard.Crypto.Gcm.{gcm_decrypt-gcm_encrypt}
use sync_clipboard.Crypto.Laws.{IsSound, IsWorking}

-- What stands between two clients, the relay server and cJSON at both ends, as far as the strings of a
-- message go: they arrive.
pub record IsFaithful (deliver : Object → Json) : Type 0 where
  pub carries :
      (msg : Object) (key s : Bytes)
      → field key msg ≡ some (string s)
      → (deliver msg).text key ≡ some s

process_text_shown :
    (libs : Libs) (cfg : ClientConfig) (env : Env) (look : Look) (a : Client) (clip : Bytes)
    → look.text ≡ some clip
    → process_text libs cfg env look a ≡ offer_text libs cfg env clip a
unfolding process_text maybe
process_text_shown libs cfg env look a clip shows = rw shows refl

pub not-true : (b : Bool) → b ≡ true → not b ≡ true → ⊥
not-true true e h = true_is_false (sym h)
not-true false e h = true_is_false (sym e)

module _ (libs : Libs) (cfg : ClientConfig) (env : Env) (look : Look) (a : Client) where
  -- A turn of the monitor that comes to the text.
  pub poll_text :
      (clip : Bytes)
      → a.logged_in ≡ true
      → is_suppressed env.now a ≡ false
      → clipboard_has_image look.types ≡ false
      → clipboard_has_file look.types ≡ false
      → look.text ≡ some clip
      → poll libs cfg env look a ≡ offer_text libs cfg env clip a
  unfolding poll process_clipboard_change process_file process_text
  poll_text clip logged quiet no_image no_file shows =
      let P : Client → Type 0 = λ d. d ≡ offer_text libs cfg env clip a in
      let text : P (process_text libs cfg env look a) =
        process_text_shown libs cfg env look a clip shows in
      if-both P (not a.logged_in) _ _ (λ h. absurd (not-true a.logged_in logged h))
        (λ h.
          if-both P (is_suppressed env.now a) _ _ (λ s. absurd (true_is_false (sym s ∙ quiet)))
            (λ s.
              if-both P (not (is_disabled cfg a) && clipboard_has_image look.types) _ _
                (λ i. absurd (not_both _ _ no_image i))
                (λ i.
                  if-both P (not (is_disabled cfg a) && clipboard_has_file look.types) _ _
                    (λ f. absurd (not_both _ _ no_file f)) (λ f. text))))

module _ (libs : Libs) (cfg : ClientConfig) (env : Env) (a : Client) where
  -- A new text that can be sealed.
  pub offer_text-sent :
      (clip sealed : Bytes)
      → same (sha256_hex libs.digest (c_string clip)) a.clip_hash ≡ false
      → gcm_encrypt libs.ssl env.memory env.nonce (c_string clip) cfg.aes_key ≡ some sealed
      → ((offer_text libs cfg env clip a).sent ≡ a.sent ++ build_clipboard_msg sealed ∷ [])
        × ((offer_text libs cfg env clip a).clip_hash ≡ sha256_hex libs.digest (c_string clip))
  unfolding offer_text maybe
  offer_text-sent clip sealed new seals = (rw (new, seals) refl, rw (new, seals) refl)

module _ (libs : Libs) (cfg : ClientConfig) (env : Env) (j : Json) (b : Client) where
  -- A clipboard message that can be opened.
  pub handle-board :
      (content text : Bytes)
      → j.text (codes "type") ≡ some (codes "clipboard")
      → j.text (codes "content") ≡ some content
      → decrypt libs cfg env content ≡ some text
      → ((handle libs cfg env j b).board ≡ b.board ++ text_set (c_string text) ∷ [])
        × ((handle libs cfg env j b).clip_hash ≡ sha256_hex libs.digest (c_string text))
  unfolding handle same on_clipboard take_text suppress_clipboard_ms maybe
  handle-board content text typed has opens =
      (rw (typed, has, opens) refl, rw (typed, has, opens) refl)

pub decrypt_gcm :
    (libs : Libs) (cfg : ClientConfig) (env : Env) (content text : Bytes)
    → gcm_decrypt libs.ssl env.memory content cfg.aes_key ≡ some text
    → decrypt libs cfg env content ≡ some text
unfolding decrypt maybe
decrypt_gcm libs cfg env content text opens = rw opens refl

-- The two strings of a clipboard message.
pub msg_type :
    (sealed : Bytes)
    → field (codes "type") (build_clipboard_msg sealed) ≡ some (string (codes "clipboard"))
unfolding field build_clipboard_msg same
msg_type sealed = refl

pub msg_content :
    (sealed : Bytes) → field (codes "content") (build_clipboard_msg sealed) ≡ some (string sealed)
unfolding field build_clipboard_msg same
msg_content sealed = refl

-- The calls with the memory, the nonce and the key that a client has.
pub sealed_with :
    (ssl : Openssl) (key text sealed : Bytes) (env : Env) (nonce : Bytes)
    → env.memory ≡ true
    → env.nonce ≡ some nonce
    → gcm_encrypt ssl true (some nonce) text key ≡ some sealed
    → gcm_encrypt ssl env.memory env.nonce text key ≡ some sealed
sealed_with ssl key text sealed env nonce m n seals =
    ap₂ (λ mem non. gcm_encrypt ssl mem non text key) m n ∙ seals

pub opened_with :
    (ssl : Openssl) (key key' text sealed : Bytes) (env : Env)
    → env.memory ≡ true
    → key' ≡ key
    → gcm_decrypt ssl true sealed key ≡ some text
    → gcm_decrypt ssl env.memory sealed key' ≡ some text
opened_with ssl key key' text sealed env m k opens =
    ap₂ (λ mem own. gcm_decrypt ssl mem sealed own) m k ∙ opens

-- What one client seals, another with the same key opens.
pub decrypt-gcm_encrypt :
    (libs : Libs) (cfg cfg' : ClientConfig)
    → IsSound libs.ssl
    → IsWorking libs.ssl
    → IsKey cfg.aes_key
    → cfg'.aes_key ≡ cfg.aes_key
    → (env env' : Env) (text nonce : Bytes) → env.memory ≡ true
    → env'.memory ≡ true
    → env.nonce ≡ some nonce
    → length nonce ≡ 12
    → length text + 29 ≤ 2 ^ 30
    → (sealed : Bytes) × (gcm_encrypt libs.ssl env.memory env.nonce text cfg.aes_key ≡ some sealed)
      × (decrypt libs cfg' env' sealed ≡ some text)
decrypt-gcm_encrypt libs cfg cfg' sound works key keys env env' text nonce memory memory' draws
      twelve short =
    let (sealed, seals, opens) =
      gcm_decrypt-gcm_encrypt libs.ssl cfg.aes_key nonce text sound works key twelve short in
    (
      sealed,
      sealed_with libs.ssl cfg.aes_key text sealed env nonce memory draws seals,
      decrypt_gcm libs cfg' env' sealed text
          (opened_with libs.ssl cfg.aes_key cfg'.aes_key text sealed env' memory' keys opens),
    )

module _ (libs : Libs) (cfg cfg' : ClientConfig) (deliver : Object → Json)
    (faithful : IsFaithful deliver) where
  -- Two clients have the same key of 64 hexadecimal digits, OpenSSL's calls succeed and do what is
  -- documented, there is memory, the random nonce has 12 bytes, and what lies between the clients
  -- delivers the strings of a message. The monitor of the first client, logged in and not suppressed,
  -- sees a text, no image and no file; up to its first NUL the text has 2^30 - 29 bytes at most, so
  -- that no cast to `int` changes a length, and its hash is not the one remembered. Then the first
  -- client gives one message to `queue_send`, and the second client, when it gets that message, gives
  -- the text, up to the first NUL, to the `set_text` of its clipboard, whatever it did before; both
  -- remember the same hash of it.
  pub handle-poll :
      IsSound libs.ssl
      → IsWorking libs.ssl
      → IsKey cfg.aes_key
      → cfg'.aes_key ≡ cfg.aes_key
      → (env env' : Env) (look : Look) (a b : Client) (clip nonce : Bytes) → env.memory ≡ true
      → env'.memory ≡ true
      → env.nonce ≡ some nonce
      → length nonce ≡ 12
      → a.logged_in ≡ true
      → is_suppressed env.now a ≡ false
      → clipboard_has_image look.types ≡ false
      → clipboard_has_file look.types ≡ false
      → look.text ≡ some clip
      → length (c_string clip) + 29 ≤ 2 ^ 30
      → same (sha256_hex libs.digest (c_string clip)) a.clip_hash ≡ false
      → (msg : Object) × ((poll libs cfg env look a).sent ≡ a.sent ++ msg ∷ [])
        × ((handle libs cfg' env' (deliver msg) b).board ≡ b.board ++ text_set (c_string clip) ∷ [])
        × ((handle libs cfg' env' (deliver msg) b).clip_hash ≡ (poll libs cfg env look a).clip_hash)
  handle-poll sound works key keys env env' look a b clip nonce memory memory' draws twelve logged
        quiet no_image no_file shows short new =
      let text = c_string clip in
      let (sealed, seals, opens) =
        decrypt-gcm_encrypt libs cfg cfg' sound works key keys env env' text nonce memory memory'
          draws twelve short in
      let msg = build_clipboard_msg sealed in
      let turn = poll_text libs cfg env look a clip logged quiet no_image no_file shows in
      let (sent, hash) = offer_text-sent libs cfg env a clip sealed new seals in
      let (board, hash') =
        handle-board libs cfg' env' (deliver msg) b sealed text
          (faithful.carries msg (codes "type") (codes "clipboard") (msg_type sealed))
          (faithful.carries msg (codes "content") sealed (msg_content sealed)) opens in
      let same_text = ap (λ s. text_set s) (c_string_idem clip) in
      (
        msg,
        ap (λ (c : Client). c.sent) turn ∙ sent,
        board ∙ ap (λ w. b.board ++ w ∷ []) same_text,
        hash'
            ∙ ap (sha256_hex libs.digest) (c_string_idem clip)
            ∙ sym (ap (λ (c : Client). c.clip_hash) turn ∙ hash),
      )
