-- ===== src/Client/Moves/Handlers.antt =====
-- linux/main.c: the balances through the handlers of `ws_callback`.

use sync_clipboard.Client.Handlers.{
  Json, announced, handle, is_stale, on_clipboard, on_file_notify, on_file_peer_info, on_hello_ack,
  on_relay_data, on_relay_request, take_relayed, tmp_name, with_peer,
}
use sync_clipboard.Client.Moves.{
  Move, Move-refl, Quiet, Quiet-Move, Quiet-of, Quiet-refl, Quiet-sends, Quiet-trans, is_request,
  requests, requests-append, view,
}
use sync_clipboard.Client.State.{
  Client, Env, Libs, file_set, is_disabled, put, renew, suppress_clipboard_ms,
}
use sync_clipboard.Config.{ClientConfig}
use sync_clipboard.Prelude.{
  Bytes, List, Option, [], ap, arith, codes, if-both, if◌then◌else◌, leb, length, ltb, maybe,
  maybe-both, none, not, refl, same, some, starts_with, suc, true, ◌&&◌, ◌++◌, ◌+◌, ◌||◌, ◌∷◌, ◌≡◌,
}
use sync_clipboard.Client.Message.{Object, build_file_request, field}
use sync_clipboard.Client.Moves.Launch.{grants_le, renewed-Move, start_thread-Move}

pub on_hello_ack-Quiet : (j : Json) (c : Client) → Quiet c (on_hello_ack j c)
unfolding on_hello_ack view
on_hello_ack-Quiet j c = Quiet-of c _ refl refl

asked-is_request :
    (fid : Option Bytes) (addrs : List Bytes) → is_request (build_file_request fid addrs) ≡ true
unfolding build_file_request field same
asked-is_request none addrs = refl
asked-is_request (some s) addrs = refl

requests-asked :
    (sent : List Object) (fid : Option Bytes) (addrs : List Bytes)
    → requests (sent ++ build_file_request fid addrs ∷ []) ≡ suc (requests sent)
requests-asked sent fid addrs =
    let b = requests-append sent (build_file_request fid addrs) in
    let e = ap (λ t. requests sent + (if t then 1 else 0)) (asked-is_request fid addrs) in
    omega (arith, b, e)

module _ (libs : Libs) (cfg : ClientConfig) (env : Env) (j : Json) (c : Client) where
  on_clipboard-Quiet : Quiet c (on_clipboard libs cfg env j c)
  unfolding on_clipboard view
  on_clipboard-Quiet =
      maybe-both (Quiet c) _ _ _ (λ e. Quiet-refl c)
        (λ content e.
          maybe-both (Quiet c) _ _ _ (λ d. Quiet-refl c) (λ dec d. Quiet-of c _ refl refl))

  pub on_relay_request-Quiet : Quiet c (on_relay_request libs env j c)
  unfolding on_relay_request view
  on_relay_request-Quiet =
      maybe-both (Quiet c) _ _ _ (λ e. Quiet-refl c)
        (λ b e.
          maybe-both (Quiet c) _ _ _ (λ d. Quiet-refl c)
            (λ target d.
              if-both (Quiet c) (ltb 0 (length b.bytes)) _ _ (λ h. Quiet-sends c _ _ refl refl)
                (λ h. Quiet-refl c)))

  -- What follows an image or a file, where what came before is quiet.
  take_relayed-Quiet :
      (mt fn : Option Bytes) (dec : Bytes) (d : Client)
      → Quiet c d
      → Quiet c (take_relayed env mt fn dec d)
  unfolding take_relayed view Quiet
  take_relayed-Quiet mt fn dec d q =
      if-both (Quiet c) (starts_with (codes "image/") (maybe mt [] (λ s. s))) _ _ (λ h. q)
        (λ h.
          if-both (λ e. Quiet c (put (file_set (tmp_name fn)) e)) env.can_write _ _ (λ w. q)
            (λ w. q))

  on_relay_data-Quiet : Quiet c (on_relay_data libs env j c)
  unfolding on_relay_data view suppress_clipboard_ms
  on_relay_data-Quiet =
      maybe-both (Quiet c) _ _ _ (λ e. Quiet-refl c)
        (λ b64 e.
          maybe-both (Quiet c) _ _ _ (λ d. Quiet-refl c)
            (λ dec d.
              Quiet-trans c _ _
                (take_relayed-Quiet (j.text (codes "mimeType")) (j.text (codes "fileName")) dec _
                  (Quiet-of c _ refl refl))
                (Quiet-sends _ _ _ refl refl)))

  pub on_file_notify-Move : Move c (on_file_notify cfg env j c)
  unfolding on_file_notify renew announced
  on_file_notify-Move =
      if-both (Move c) (is_disabled cfg c) _ _ (λ h. Move-refl c)
        (λ h. renewed-Move c _ env.server refl refl refl refl refl (
          let a = grants_le (announced env j) in
          let b = requests-asked c.sent (j.text (codes "fileId")) (env.addresses env.port) in
          omega (arith, a, b)))

  pub on_file_peer_info-Move : env.thread ≡ true → Move c (on_file_peer_info cfg env j c)
  unfolding on_file_peer_info with_peer
  on_file_peer_info-Move t =
      if-both (Move c) (is_stale (j.text (codes "fileId")) c.xfer) _ _ (λ h. Move-refl c)
        (λ h.
          if-both (Move c) (not c.xfer.is_sender && (ltb 0 c.active || leb 2 c.xfer.phase)) _ _
            (λ g. Move-refl c)
            (λ g. start_thread-Move env c (with_peer cfg j c) refl refl refl t g))

  pub handle-Move : env.thread ≡ true → Move c (handle libs cfg env j c)
  unfolding handle
  handle-Move t =
      maybe-both (Move c) _ _ _ (λ e. Move-refl c)
        (λ type e.
          if-both (Move c) (same type (codes "hello_ack")) _ _
            (λ h. Quiet-Move c _ (on_hello_ack-Quiet j c))
            (λ h.
              if-both (Move c) (same type (codes "clipboard")) _ _
                (λ h. Quiet-Move c _ on_clipboard-Quiet)
                (λ h.
                  if-both (Move c) (same type (codes "file_notify")) _ _ (λ h. on_file_notify-Move)
                    (λ h.
                      if-both (Move c) (same type (codes "file_peer_info")) _ _
                        (λ h. on_file_peer_info-Move t)
                        (λ h.
                          if-both (Move c) (same type (codes "file_relay_request")) _ _
                            (λ h. Quiet-Move c _ on_relay_request-Quiet)
                            (λ h.
                              if-both (Move c) (same type (codes "file_relay_data")) _ _
                                (λ h. Quiet-Move c _ on_relay_data-Quiet) (λ h. Move-refl c)))))))
