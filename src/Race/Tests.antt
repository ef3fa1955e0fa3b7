-- ===== src/Race/Tests.antt =====
-- Races between a few sockets, and the witnesses of the theorems.
use sync_clipboard.Prelude.{
  Bytes, List, Option, [], arith, codes, false, if◌then◌else◌, leb, length, ltb, none, refl,
  replicate, some, true, ℕ, ◌&&◌, ◌*◌, ◌++◌, ◌+◌, ◌==◌, ◌∷◌, ◌≡◌,
}
use sync_clipboard.Net.{World}
use sync_clipboard.Auth.{auth_recv, compute_hmac}
use sync_clipboard.Race.{Race, Round, connect_any, lan_transfer, parse_addr, start_connects}
use sync_clipboard.Race.Keyed.{Identity, authenticates, lan_transfer_auth}
use sync_clipboard.Auth.Judge.{Admitted}
use sync_clipboard.Codec.{hex_loop}
use sync_clipboard.Race.Ending.{Settled}
use sync_clipboard.Race.Plain.{lan_transfer-Settled, connect_any-Settled}
use sync_clipboard.Race.Verdict.{lan_transfer_auth-Admitted, lan_transfer_auth-Settled}

-- An address that the system's `inet_pton` takes is its length here.
abbrev inet : Bytes → Option ℕ
inet ip = if ltb (length ip) 7 then none else some (length ip)

-- The port is 16 bits; without a colon, or with a bad address, there is none.
parse_addr_runs :
    (parse_addr inet (codes "10.0.0.1:8080") ≡ some (8, 8080))
    × (parse_addr inet (codes "10.0.0.1:65537") ≡ some (8, 1))
    × (parse_addr inet (codes "10.0.0.1") ≡ none)
    × (parse_addr inet (codes "a:b:1") ≡ none)
unfolding parse_addr
parse_addr_runs = (refl, refl, refl, refl)

abbrev slots : List (Option ℕ)
slots = some 11 ∷ none ∷ some 12 ∷ []

start_connects_runs :
    start_connects inet
      (some 11 ∷ some 12 ∷ [])
      (codes "10.0.0.1:1" ∷ codes "nowhere" ∷ codes "10.0.0.2:2" ∷ [])
    ≡ slots
unfolding start_connects
start_connects_runs = refl

abbrev silent : World
silent = record { inbox = []; outbox = []; answers = []; grants = []; files = λ path. none }

-- 12 connects in the third round; a stranger, 20, comes in the second one.
abbrev rounds : ℕ → Round
rounds k = record {
  now = k * 50;
  incoming = if k == 1 then some 20 else none;
  writable = λ s. s == 12 && leb 2 k;
  broken = λ s. s == 11;
  connected = λ s. s == 12;
  peer = λ s. silent;
}

lan_transfer-Settled_run : Settled slots (some 13) (lan_transfer rounds false slots (some 13) 500)
lan_transfer-Settled_run = lan_transfer-Settled rounds false slots (some 13) 500

connect_any_run : Settled slots none (connect_any rounds slots 500)
connect_any_run = connect_any-Settled rounds slots 500

connect_any_runs :
    connect_any rounds slots 500
    ≡ some (record { conns = []; nat = none; result = some 12; accepted = []; closed = 11 ∷ [] })
unfolding connect_any
connect_any_runs = refl

abbrev toy_mac : Bytes → Bytes → Bytes
toy_mac key text = replicate 32 (length key + length text)

abbrev fid : Bytes
fid = codes "id"

abbrev key : Bytes
key = codes "00112233445566778899aabbccddeeff00112233445566778899aabbccddeeff"

abbrev self : Identity
self = record { hmac = toy_mac; file_id = fid; key_hex = key; is_sender = false }

-- A peer with the key behind 12 alone.
abbrev honest : World
honest = record silent {
  inbox = codes "AUTH" ++ toy_mac (replicate 32 0) fid;
  answers = replicate 9 36;
}

abbrev keyed : ℕ → Round
keyed k = record (rounds k) { peer = λ s. if s == 12 then honest else silent }

abbrev verdict : Race
verdict = record {
  conns = [];
  nat = none;
  result = some 12;
  accepted = 20 ∷ [];
  closed = 13 ∷ 20 ∷ 11 ∷ [];
}

-- The stranger is turned away, the broken peer is dropped, and 12 is returned.
lan_transfer_auth_runs : lan_transfer_auth 9 keyed self true slots (some 13) 300 ≡ some verdict
unfolding lan_transfer_auth authenticates auth_recv compute_hmac hex_loop
lan_transfer_auth_runs = refl

lan_transfer_auth-Settled_example :
    Settled slots (some 13) (lan_transfer_auth 9 keyed self true slots (some 13) 300)
lan_transfer_auth-Settled_example =
    lan_transfer_auth-Settled 9 6 keyed self true slots (some 13) 300 (omega arith) (omega arith)

lan_transfer_auth-Admitted_example :
    (k : ℕ) × (w' : World) × Admitted toy_mac fid key ((keyed k).peer 12) tt w'
lan_transfer_auth-Admitted_example =
    lan_transfer_auth-Admitted 9 keyed self true slots (some 13) 300 12 verdict (λ e. cc) refl
      lan_transfer_auth_runs refl
