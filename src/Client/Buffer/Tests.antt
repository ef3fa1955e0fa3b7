-- ===== src/Client/Buffer/Tests.antt =====
-- Runs of the receive buffer, and the witnesses of its theorems.
use sync_clipboard.Prelude.{
  Bytes, List, [], arith, codes, false, length, refl, replicate, true, ◌++◌, ◌+◌, ◌↔◌, ◌∷◌, ◌≡◌,
  ◌≤◌,
}
use sync_clipboard.Client.Buffer.{RecvBuf, message, more, no_buffer, receive}
use sync_clipboard.Client.Buffer.Growth.{InBounds, Placed, receive-InBounds, receive-nul_iff}
use sync_clipboard.Client.Buffer.Messages.{Parts, receive_all, receive_all_lem}

-- The first fragment has 4095 bytes and fits with its NUL into 4096.
abbrev first_part : Bytes
first_part = replicate 4095 97

abbrev nearly_full : RecvBuf
nearly_full = record { text = first_part; cap = 4096 }

first_part_received : receive true false first_part no_buffer ≡ (more, nearly_full)
unfolding receive
first_part_received = refl

-- The second has one byte: the buffer is full, it does not grow, and the NUL goes behind it.
last_part_received :
    (receive true true (98 ∷ []) nearly_full).0 ≡ message (first_part ++ 98 ∷ []) 4096
unfolding receive
last_part_received = refl

receive-nul_iff_example :
    ((receive true true (98 ∷ []) nearly_full).1.cap ≤ 4096) ↔ (length first_part + 1 ≡ 4096)
receive-nul_iff_example =
    receive-nul_iff true (98 ∷ []) nearly_full (first_part ++ 98 ∷ []) 4096 last_part_received

receive-InBounds_example :
    let r = receive true true (98 ∷ []) nearly_full in InBounds r.1 × Placed r.0 r.1
receive-InBounds_example = receive-InBounds true true (98 ∷ []) nearly_full (omega arith)

abbrev two_messages : List Parts
two_messages =
    record { before = codes "ab" ∷ [] ∷ []; last = codes "c" }
    ∷ record { before = []; last = codes "d" }
    ∷ []

receive_all_lem_example :
    receive_all two_messages no_buffer ≡ message (codes "abc") 3 ∷ message (codes "d") 1 ∷ []
receive_all_lem_example = receive_all_lem two_messages
