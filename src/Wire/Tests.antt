-- ===== src/Wire/Tests.antt =====
-- Runs of the frame protocol on small worlds, and the witnesses of its theorems.
use sync_clipboard.Prelude.{
  All-replicate, Bytes, [], arith, codes, length-replicate, refl, replicate, some, ℕ, ◌++◌, ◌<◌,
  ◌∷◌, ◌≡◌, ◌≤◌,
}
use sync_clipboard.Net.{World, done}
use sync_clipboard.Net.Moves.{Ready}
use sync_clipboard.Net.Sound.{Ends, Kept}
use sync_clipboard.Wire.{recv_file, recv_file_to_path, send_file, send_file_from_path}
use sync_clipboard.Wire.Cap.{Accepted, recv_file-Ends}
use sync_clipboard.Wire.Frame.{header}
use sync_clipboard.Wire.RoundTrip.{file, recv_file-send_file}
use sync_clipboard.Wire.Store.{Cleaned, Stored, recv_file_to_path-Ends}
use sync_clipboard.Wire.Stream.{send_file_from_path-sends_frame}

abbrev fid : Bytes
fid = replicate 36 b'a'

abbrev bytes : Bytes
bytes = 7 ∷ 0 ∷ 255 ∷ []

-- A network that moves at most `step` bytes at a call.
abbrev world : ℕ → Bytes → World
world step inbox = record {
  inbox = inbox;
  outbox = [];
  answers = replicate 60 step;
  grants = [];
  files = λ path. some bytes;
}

world-Ready : (n step : ℕ) (inbox : Bytes) → 0 < step → n ≤ 60 → Ready n (world step inbox)
world-Ready n step inbox pos le = record {
  plenty = (All-replicate (λ k. 0 < k) 60 step pos, rw (length-replicate 60 step) le);
  granted = tt;
}

abbrev sender : World
sender = world 7 []

abbrev receiver : World
receiver = world 20 ((send_file (file fid bytes) sender).1.outbox ++ 9 ∷ [])

recv_file-send_file_example :
    ((send_file (file fid bytes) sender).0 ≡ done tt)
    × ((recv_file 10 receiver).0 ≡ done (file fid bytes))
    × ((recv_file 10 receiver).1.inbox ≡ 9 ∷ [])
recv_file-send_file_example =
    recv_file-send_file fid bytes (9 ∷ []) 10 sender receiver refl
      (All-replicate (λ c. 0 < c) 36 b'a' (omega arith)) (omega arith) (omega arith) (omega arith)
      (world-Ready 51 7 [] (omega arith) (omega arith))
      (world-Ready 51 20 receiver.inbox (omega arith) (omega arith)) refl refl

-- A header that announces 300 bytes.
abbrev hostile : World
hostile = world 9 (header fid 300 ++ bytes)

recv_file-Ends_example : Ends (Accepted 10 hostile) (Kept hostile) ⊥ (recv_file 10 hostile)
recv_file-Ends_example = recv_file-Ends 10 hostile (omega arith)

recv_file_to_path-Ends_example :
    Ends
      (Stored (some 0) 10 (codes "b") hostile)
      (Cleaned (codes "b") hostile)
      ⊥
      (recv_file_to_path (some 0) 10 (codes "b") hostile)
recv_file_to_path-Ends_example = recv_file_to_path-Ends (some 0) 10 (codes "b") hostile

path_run :
    (w' : World) × (send_file_from_path fid 2 (codes "a") sender ≡ (done tt, w'))
    × (w'.outbox ≡ header fid 2 ++ 7 ∷ 0 ∷ [])
    × (w'.inbox ≡ [])
path_run =
    send_file_from_path-sends_frame fid (codes "a") bytes 2 sender refl (omega arith)
      (world-Ready 50 7 [] (omega arith) (omega arith))
