-- ===== src/Auth.antt =====
-- common/ft/ft_auth.c: the handshake in which one end proves with an HMAC over the file id that it
-- has the shared key. OpenSSL's `HMAC(EVP_sha256(), key, ..., data, ...)` is the parameter `hmac`.
pub mod Judge
pub mod Handshake
mod Tests
use sync_clipboard.Prelude.{
  Bytes, Option, codes, drop, if◌then◌else◌, length, ltb, min, none, same, some, take, ◌++◌, ◌/◌,
  ◌==◌,
}
use sync_clipboard.Net.{
  Io, Ret, World, done, fail, recv_all, refuse, require, send_all, undefined, ◌>>=◌, ◌>>◌,
}
use sync_clipboard.Codec.{hex_loop}

-- `ft_compute_hmac`, `none` for -1. The loop reads two characters a round, with `sscanf` and
-- "%02x", as the one of `sc_hex_to_bytes` does.
unfoldable pub compute_hmac : (Bytes → Bytes → Bytes) → Bytes → Bytes → Option Bytes
compute_hmac hmac file_id key_hex =
    let klen = min (length key_hex / 2) 32 in
    elim (hex_loop klen key_hex) [
      | none ↦ none
      | some key ↦
          let mac = hmac key file_id in
          if ltb klen 32 then none else if length mac == 32 then some mac else none
    ]

-- The first half of `ft_auth_send`.
unfoldable pub send_proof : (Bytes → Bytes → Bytes) → Bytes → Bytes → Io (Unit {0})
unfolding send_all
send_proof hmac file_id key_hex = elim (compute_hmac hmac file_id key_hex) [
  | none ↦ refuse
  | some mac ↦ send_all (codes "AUTH" ++ mac) 36
]

-- Its second half.
unfoldable pub read_answer : Io (Unit {0})
unfolding recv_all same
read_answer = do resp ← recv_all 4; require (same resp (codes "AKOK"))

unfoldable pub auth_send : (Bytes → Bytes → Bytes) → Bytes → Bytes → Io (Unit {0})
unfolding send_proof read_answer
auth_send hmac file_id key_hex = do send_proof hmac file_id key_hex; read_answer

-- `return -1` after a call whose result is not looked at.
abbrev pub then_fail : Ret (Unit {0}) × World → Ret (Unit {0}) × World
then_fail (done u, w) = (fail, w)
then_fail (fail, w) = (fail, w)
then_fail (undefined, w) = (undefined, w)

-- `ft_send_all(sock, "FAIL", 4); return -1;`
unfoldable pub reject : Io (Unit {0})
unfolding send_all
reject w = then_fail (send_all (codes "FAIL") 4 w)

unfoldable pub accept_proof : Io (Unit {0})
unfolding send_all
accept_proof = send_all (codes "AKOK") 4

-- What `ft_auth_recv` does with the 36 bytes that it has read.
unfoldable pub check_proof : (Bytes → Bytes → Bytes) → Bytes → Bytes → Bytes → Io (Unit {0})
unfolding same reject accept_proof
check_proof hmac file_id key_hex buf =
    let checked : Io (Unit {0}) = elim (compute_hmac hmac file_id key_hex) [
      | none ↦ reject
      | some expected ↦ if same (drop 4 buf) expected then accept_proof else reject
    ] in
    if same (take 4 buf) (codes "AUTH") then checked else reject

unfoldable pub auth_recv : (Bytes → Bytes → Bytes) → Bytes → Bytes → Io (Unit {0})
unfolding recv_all check_proof
auth_recv hmac file_id key_hex = do buf ← recv_all 36; check_proof hmac file_id key_hex buf
