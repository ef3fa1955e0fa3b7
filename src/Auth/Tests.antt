-- ===== src/Auth/Tests.antt =====
-- A handshake between two small worlds, and the witnesses of the theorems.
use sync_clipboard.Prelude.{
  All-replicate, Bytes, [], arith, codes, length, length-replicate, none, refl, replicate, ℕ, ◌++◌,
  ◌+◌, ◌<◌, ◌∷◌, ◌≡◌,
}
use sync_clipboard.Net.{World, done, fail}
use sync_clipboard.Auth.{auth_recv, auth_send, compute_hmac, send_proof}
use sync_clipboard.Auth.Handshake.{auth_send-auth_recv, auth_send_any_peer, GivesMac, IsKey}
use sync_clipboard.Auth.Judge.{Admitted, auth_recv-Ends, Refused}
use sync_clipboard.Codec.{hex_loop, is_xdigit}
use sync_clipboard.Net.Moves.{Ready}
use sync_clipboard.Net.Sound.{Ends}

-- A function with the length of a MAC.
abbrev toy_mac : Bytes → Bytes → Bytes
toy_mac key text = replicate 32 (length key + length text)

abbrev fid : Bytes
fid = replicate 36 b'a'

abbrev key : Bytes
key = codes "00112233445566778899aabbccddeeff00112233445566778899aabbccddeeff"

key-IsKey : IsKey key
unfolding is_xdigit
key-IsKey = (refl, ground arith)

-- A network that moves at most `step` bytes at a call.
abbrev world : ℕ → Bytes → World
world step inbox = record {
  inbox = inbox;
  outbox = [];
  answers = replicate 60 step;
  grants = [];
  files = λ path. none;
}

world-Ready : (step : ℕ) (inbox : Bytes) → 0 < step → Ready 40 (world step inbox)
world-Ready step inbox pos = record {
  plenty = (All-replicate (λ k. 0 < k) 60 step pos, rw (length-replicate 60 step) (omega arith));
  granted = tt;
}

gives : GivesMac toy_mac
gives k text = length-replicate 32 (length k + length text)

abbrev sender : World
sender = world 5 (codes "AKOK" ++ 1 ∷ [])

abbrev receiver : World
receiver = world 7 ((send_proof toy_mac fid key sender).1.outbox ++ 2 ∷ [])

receiver_answers : codes "AKOK" ++ 1 ∷ [] ≡ (auth_recv toy_mac fid key receiver).1.outbox ++ 1 ∷ []
unfolding auth_recv send_proof compute_hmac hex_loop
receiver_answers = refl

auth_send-auth_recv_example :
    ((auth_send toy_mac fid key sender).0 ≡ done tt)
    × ((auth_recv toy_mac fid key receiver).0 ≡ done tt)
    × ((auth_send toy_mac fid key sender).1.inbox ≡ 1 ∷ [])
    × ((auth_recv toy_mac fid key receiver).1.inbox ≡ 2 ∷ [])
auth_send-auth_recv_example =
    auth_send-auth_recv toy_mac fid key sender receiver (2 ∷ []) (1 ∷ []) gives key-IsKey
      (world-Ready 5 sender.inbox (omega arith)) (world-Ready 7 receiver.inbox (omega arith)) refl
      refl refl receiver_answers

auth_send_any_peer_run : (auth_send toy_mac fid key sender).0 ≡ done tt
auth_send_any_peer_run =
    auth_send_any_peer toy_mac fid key sender (1 ∷ []) gives key-IsKey
      (world-Ready 5 sender.inbox (omega arith)) refl

-- A peer without the key.
abbrev stranger : World
stranger = world 9 (codes "AUTH" ++ replicate 40 0)

auth_recv-Ends_example :
    Ends
      (Admitted toy_mac fid key stranger)
      (Refused toy_mac fid key stranger)
      ⊥
      (auth_recv toy_mac fid key stranger)
auth_recv-Ends_example = auth_recv-Ends toy_mac fid key stranger

stranger_is_refused :
    let (ret, w) = auth_recv toy_mac fid key stranger in
    (ret ≡ fail) × (w.outbox ≡ codes "FAIL") × (length w.inbox ≡ 8)
unfolding auth_recv compute_hmac hex_loop
stranger_is_refused = (refl, refl, refl)
