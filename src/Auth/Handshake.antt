-- ===== src/Auth/Handshake.antt =====
-- The handshake between two ends, when the network makes progress.
use sync_clipboard.Prelude.{
  ==_iff, All, Bytes, [], ap, append-nil, arith, codes, false, length, length-append, ltb, min,
  refl, same, same_refl, some, subst, take, take_all, true, ℕ, ◌++◌, ◌/◌, ◌∙◌, ◌≡◌,
}
use sync_clipboard.Net.{Io, World, done, recv_all, require, send_all}
use sync_clipboard.Auth.{
  accept_proof, auth_recv, auth_send, check_proof, compute_hmac, read_answer, send_proof,
}
use sync_clipboard.Codec.{is_xdigit}
use sync_clipboard.Codec.Hex.{Decoded, Decoded-digits}
use sync_clipboard.Net.Moves.{
  Moves, Ready, bind-Moves, recv_all-Moves, require-Moves, send_all-Moves, untouched,
}

-- OpenSSL's HMAC-SHA256 gives 32 bytes.
abbrev pub GivesMac : (Bytes → Bytes → Bytes) → Type 0
GivesMac hmac = (key text : Bytes) → length (hmac key text) ≡ 32

-- A key of 64 hexadecimal digits, as the configuration has it.
abbrev pub IsKey : Bytes → Type 0
IsKey key_hex = (length key_hex ≡ 64) × All (λ c. is_xdigit c ≡ true) key_hex

-- A run from an empty outbox.
abbrev Ran : Io (Unit {0}) → World → Bytes → Bytes → Type 0
Ran act w sent left =
    (w' : World) × (act w ≡ (done tt, w')) × (w'.outbox ≡ sent) × (w'.inbox ≡ left)

Moves-Ran :
    {n : ℕ} {act : Io (Unit {0})} {recv sent : Bytes} (w : World) (left : Bytes)
    → Moves act n recv sent untouched tt
    → Ready n w
    → w.outbox ≡ []
    → w.inbox ≡ recv ++ left
    → Ran act w sent left
Moves-Ran {sent = sent} w left m r e i =
    let (w', a, eff, f, ready) =
      m.runs w 0 left
        (record { plenty = (r.plenty.0, omega (arith, r.plenty.1)); granted = r.granted }) i in
    (w', a, eff.written ∙ ap (λ o. o ++ sent) e, eff.read)

module _ (hmac : Bytes → Bytes → Bytes) (file_id key_hex : Bytes) where
  pub compute_hmac-done :
      GivesMac hmac
      → IsKey key_hex
      → (mac : Bytes) × (compute_hmac hmac file_id key_hex ≡ some mac) × (length mac ≡ 32)
  unfolding compute_hmac
  compute_hmac-done gives (size, hex) =
      let r : Decoded key_hex 32 = Decoded-digits key_hex 32 size hex in
      let k : min (length key_hex / 2) 32 ≡ 32 = omega arith in
      let enough : ltb (min (length key_hex / 2) 32) 32 ≡ false = ground arith in
      (
        hmac r.bytes file_id,
        rw (k, r.found, compute_hmac) (rw (enough, (==_iff _ _).1 (gives r.bytes file_id)) refl),
        gives r.bytes file_id,
      )

  send_proof-Moves :
      (mac : Bytes)
      → compute_hmac hmac file_id key_hex ≡ some mac
      → length mac ≡ 32
      → Moves (send_proof hmac file_id key_hex) 36 [] (codes "AUTH" ++ mac) untouched tt
  unfolding send_proof
  send_proof-Moves mac e l =
      let whole : take 32 mac ≡ mac = take_all 32 mac (omega (arith, l)) in
      rw (e, send_proof)
        (subst
          (λ t. Moves (send_all (codes "AUTH" ++ mac) 36) 36 [] (codes "AUTH" ++ t) untouched tt)
          whole
          (send_all-Moves (codes "AUTH" ++ mac) 36 (omega (arith, length-append (codes "AUTH") mac))
            (omega arith)))

  read_answer-Moves : Moves read_answer 4 (codes "AKOK") [] untouched tt
  unfolding read_answer
  read_answer-Moves =
      bind-Moves (recv_all 4) (λ resp. require (same resp (codes "AKOK")))
        (recv_all-Moves 4 (codes "AKOK") (omega arith) refl)
        (require-Moves (same (codes "AKOK") (codes "AKOK")) (same_refl (codes "AKOK"))) refl refl
        refl

  auth_send-Moves :
      (mac : Bytes)
      → compute_hmac hmac file_id key_hex ≡ some mac
      → length mac ≡ 32
      → Moves (auth_send hmac file_id key_hex) 40 (codes "AKOK") (codes "AUTH" ++ mac) untouched tt
  unfolding auth_send
  auth_send-Moves mac e l =
      bind-Moves (send_proof hmac file_id key_hex) (λ _. read_answer) (send_proof-Moves mac e l)
        read_answer-Moves refl refl (append-nil _)

  check_proof-Moves :
      (mac : Bytes)
      → compute_hmac hmac file_id key_hex ≡ some mac
      → Moves
          (check_proof hmac file_id key_hex (codes "AUTH" ++ mac))
          4
          []
          (codes "AKOK")
          untouched
          tt
  unfolding check_proof accept_proof
  check_proof-Moves mac e =
      rw (e, same_refl mac, check_proof)
        (send_all-Moves (codes "AKOK") 4 (omega arith) (omega arith))

  auth_recv-Moves :
      (mac : Bytes)
      → compute_hmac hmac file_id key_hex ≡ some mac
      → length mac ≡ 32
      → Moves (auth_recv hmac file_id key_hex) 40 (codes "AUTH" ++ mac) (codes "AKOK") untouched tt
  unfolding auth_recv
  auth_recv-Moves mac e l =
      bind-Moves (recv_all 36) (check_proof hmac file_id key_hex)
        (recv_all-Moves 36 (codes "AUTH" ++ mac) (omega arith)
          (omega (arith, length-append (codes "AUTH") mac)))
        (check_proof-Moves mac e) refl (append-nil _) refl

  -- The handshake between two ends with the same file id and the same key of 64 hexadecimal digits
  -- succeeds on both sides, whatever pieces the network moves: the receiver reads what the sender
  -- sends before it waits, and the sender what the receiver answers. Neither reads any further.
  pub auth_send-auth_recv :
      (sender receiver : World) (rest rest' : Bytes)
      → GivesMac hmac
      → IsKey key_hex
      → Ready 40 sender
      → Ready 40 receiver
      → sender.outbox ≡ []
      → receiver.outbox ≡ []
      → receiver.inbox ≡ (send_proof hmac file_id key_hex sender).1.outbox ++ rest
      → sender.inbox ≡ (auth_recv hmac file_id key_hex receiver).1.outbox ++ rest'
      → ((auth_send hmac file_id key_hex sender).0 ≡ done tt)
        × ((auth_recv hmac file_id key_hex receiver).0 ≡ done tt)
        × ((auth_send hmac file_id key_hex sender).1.inbox ≡ rest')
        × ((auth_recv hmac file_id key_hex receiver).1.inbox ≡ rest)
  auth_send-auth_recv sender receiver rest rest' gives key rs rr es er joined back =
      with_mac (compute_hmac-done gives key)
    where
      finish :
          (mac : Bytes)
          → Ran (send_proof hmac file_id key_hex) sender (codes "AUTH" ++ mac) sender.inbox
          → ((r : receiver.inbox ≡ (codes "AUTH" ++ mac) ++ rest)
              → Ran (auth_recv hmac file_id key_hex) receiver (codes "AKOK") rest)
          → ((s : sender.inbox ≡ codes "AKOK" ++ rest')
              → Ran (auth_send hmac file_id key_hex) sender (codes "AUTH" ++ mac) rest')
          → ((auth_send hmac file_id key_hex sender).0 ≡ done tt)
            × ((auth_recv hmac file_id key_hex receiver).0 ≡ done tt)
            × ((auth_send hmac file_id key_hex sender).1.inbox ≡ rest')
            × ((auth_recv hmac file_id key_hex receiver).1.inbox ≡ rest)
      finish mac (w1, a1, o1, i1) second third =
          let (w2, a2, o2, i2) =
            second (joined ∙ ap (λ v. v.1.outbox ++ rest) a1 ∙ ap (λ o. o ++ rest) o1) in
          let (w3, a3, o3, i3) =
            third (back ∙ ap (λ r. r.1.outbox ++ rest') a2 ∙ ap (λ o. o ++ rest') o2) in
          (
            ap (λ r. r.0) a3,
            ap (λ r. r.0) a2,
            ap (λ r. r.1.inbox) a3 ∙ i3,
            ap (λ r. r.1.inbox) a2 ∙ i2,
          )

      with_mac :
          (mac : Bytes) × (compute_hmac hmac file_id key_hex ≡ some mac) × (length mac ≡ 32)
          → ((auth_send hmac file_id key_hex sender).0 ≡ done tt)
            × ((auth_recv hmac file_id key_hex receiver).0 ≡ done tt)
            × ((auth_send hmac file_id key_hex sender).1.inbox ≡ rest')
            × ((auth_recv hmac file_id key_hex receiver).1.inbox ≡ rest)
      with_mac (mac, e, l) =
          finish mac
            (Moves-Ran sender sender.inbox (send_proof-Moves mac e l)
              (record { plenty = (rs.plenty.0, omega (arith, rs.plenty.1)); granted = rs.granted })
              es refl)
            (λ r. Moves-Ran receiver rest (auth_recv-Moves mac e l) rr er r)
            (λ s. Moves-Ran sender rest' (auth_send-Moves mac e l) rs es s)

  -- The sender lets in whoever answers "AKOK": with a key, and on a network that makes progress, its
  -- success depends on these four bytes alone, and not on any key of its peer.
  pub auth_send_any_peer :
      (sender : World) (rest : Bytes)
      → GivesMac hmac
      → IsKey key_hex
      → Ready 40 sender
      → sender.inbox ≡ codes "AKOK" ++ rest
      → (auth_send hmac file_id key_hex sender).0 ≡ done tt
  auth_send_any_peer sender rest gives key r e =
      let (mac, m, l) = compute_hmac-done gives key in
      let (w', a, eff, f, ready) =
        (auth_send-Moves mac m l).runs sender 0 rest
          (record { plenty = (r.plenty.0, omega (arith, r.plenty.1)); granted = r.granted }) e in
      ap (λ r. r.0) a
