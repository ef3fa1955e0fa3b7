-- ===== src/Wire/Stream.antt =====
-- The streamed transfer: `ft_send_file_from_path` and `ft_recv_file_to_path`.
use sync_clipboard.Prelude.{
  Bytes, [], ap, append-nil, arith, drop, false, leb, length, length-drop, length-take, min, refl,
  some, suc, take, take-add, take_all, true, zero, ℕ, ◌&&◌, ◌++◌, ◌+◌, ◌-◌, ◌==◌, ◌∙◌, ◌≡◌, ◌≤◌,
}
use sync_clipboard.Net.{World, ask, done, pure, require, send_all, ◌>>=◌, ◌>>◌}
use sync_clipboard.Net.Moves.{
  Effect, Moves, Ready, ask-Moves, bind-Moves, pure-Moves, require-Moves, send_all-Moves, untouched,
}
use sync_clipboard.Wire.{
  ft_chunk_size, open_read, read_chunk, send_chunks, send_file_from_path, send_header, send_opened,
}
use sync_clipboard.Wire.Frame.{header, send_header-Moves}

read_chunk-Moves :
    (k : ℕ) (left : Bytes)
    → k ≤ length left
    → Moves {A = Bytes × Bytes} (read_chunk k left) 0 [] [] untouched (take k left, drop k left)
unfolding read_chunk
read_chunk-Moves k left h =
    bind-Moves ask
      (λ granted. require (granted && leb k (length left)) >> pure (take k left, drop k left))
      ask-Moves
      (bind-Moves (require (leb k (length left))) (λ _. pure (take k left, drop k left))
        (require-Moves (leb k (length left)) (ground arith)) (pure-Moves _) refl refl refl)
      refl refl refl

suc-ne-zero : (n : ℕ) → (suc n == 0) ≡ false
suc-ne-zero n = ground arith

send_chunks-step :
    (fuel r : ℕ) (left : Bytes)
    → let k = min ft_chunk_size (suc r) in
      send_chunks (suc fuel) (suc r) left
      ≡ (read_chunk k left >>= λ cr. send_all cr.0 k >> send_chunks fuel (suc r - k) cr.1)
unfolding send_chunks
send_chunks-step fuel r left = rw (suc-ne-zero r, send_chunks)

chunk_glue :
    (k n : ℕ) (left : Bytes)
    → k ≤ n
    → take k (take k left) ++ take (n - k) (drop k left) ≡ take n left
chunk_glue k n left h =
    ap (λ c. c ++ take (n - k) (drop k left))
      (take_all k (take k left) (omega (arith, length-take k left)))
    ∙ take-add k (n - k) n left (omega arith)

send_chunks-Moves :
    (fuel remaining : ℕ) (left : Bytes)
    → remaining ≤ fuel
    → remaining ≤ length left
    → Moves (send_chunks fuel remaining left) remaining [] (take remaining left) untouched tt
send_chunks-Moves zero zero left h l = unfold send_chunks in pure-Moves tt
send_chunks-Moves zero (suc r) left h l = absurd (omega arith)
send_chunks-Moves (suc fuel) zero left h l = unfold send_chunks in pure-Moves tt
send_chunks-Moves (suc fuel) (suc r) left h l =
    let k : ℕ = min ft_chunk_size (suc r) in
    rw send_chunks-step (
      bind-Moves (read_chunk k left) (λ cr. send_all cr.0 k >> send_chunks fuel (suc r - k) cr.1)
        (read_chunk-Moves k left (omega arith))
        (bind-Moves (send_all (take k left) k) (λ _. send_chunks fuel (suc r - k) (drop k left))
          (send_all-Moves (take k left) k (omega (arith, length-take k left)) (omega arith))
          (send_chunks-Moves fuel (suc r - k) (drop k left) (omega arith)
            (omega (arith, length-drop k left)))
          refl refl refl)
        (omega arith) refl (chunk_glue k (suc r) left (omega arith)))

-- Opening a file that is there.
open_read-done :
    (path bs : Bytes) (w : World) (m : ℕ) (rest : Bytes)
    → w.files path ≡ some bs
    → Ready m w
    → w.inbox ≡ rest
    → (w' : World) × (open_read path w ≡ (done bs, w'))
      × Effect rest [] w w'
      × (w'.files ≡ w.files)
      × Ready m w'
unfolding open_read
open_read-done path bs w m rest e r h = opened (
    ask-Moves.runs w m rest
      (record { plenty = (r.plenty.0, omega (arith, r.plenty.1)); granted = r.granted }) h)
  where
    opened :
        (w1 : World) × (ask w ≡ (done true, w1))
          × Effect rest [] w w1
          × (w1.files ≡ w.files)
          × Ready m w1
        → (w' : World) × (open_read path w ≡ (done bs, w'))
          × Effect rest [] w w'
          × (w'.files ≡ w.files)
          × Ready m w'
    opened (w1, a, eff, f, r1) = (w1, rw a (rw (ap (λ g. g path) f ∙ e) refl), eff, f, r1)

from_path-Moves :
    (fid : Bytes) (fs : ℕ) (bs : Bytes)
    → fs ≤ length bs
    → Moves (send_opened fid fs bs) (48 + fs) [] (header fid fs ++ take fs bs) untouched tt
unfolding send_opened
from_path-Moves fid fs bs h =
    bind-Moves (send_header fid fs)
      (λ _. ask >>= λ allocated. require allocated >> send_chunks fs fs bs)
      (send_header-Moves fid fs)
      (bind-Moves ask (λ allocated. require allocated >> send_chunks fs fs bs) ask-Moves
        (bind-Moves (require true) (λ _. send_chunks fs fs bs) (require-Moves true refl)
          (send_chunks-Moves fs fs bs (omega arith) h) refl refl refl)
        refl refl refl)
      (omega arith) refl refl

-- `ft_send_file_from_path` puts on the wire what `ft_send_file` does for the same bytes in memory:
-- the header and the first `fs` bytes of the file, whatever pieces the kernel moves.
pub send_file_from_path-sends_frame :
    (fid path bs : Bytes) (fs : ℕ) (w : World)
    → w.files path ≡ some bs
    → fs ≤ length bs
    → Ready (48 + fs) w
    → (w' : World) × (send_file_from_path fid fs path w ≡ (done tt, w'))
      × (w'.outbox ≡ w.outbox ++ (header fid fs ++ take fs bs))
      × (w'.inbox ≡ w.inbox)
unfolding send_file_from_path
send_file_from_path-sends_frame fid path bs fs w e le r =
    opened (open_read-done path bs w (48 + fs) w.inbox e r refl)
  where
    Goal : Type 0
    Goal =
        (w' : World) × (send_file_from_path fid fs path w ≡ (done tt, w'))
        × (w'.outbox ≡ w.outbox ++ (header fid fs ++ take fs bs))
        × (w'.inbox ≡ w.inbox)

    opened :
        (w1 : World) × (open_read path w ≡ (done bs, w1))
          × Effect w.inbox [] w w1
          × (w1.files ≡ w.files)
          × Ready (48 + fs) w1
        → Goal
    opened (w1, o, eff, f, r1) =
        let (w2, s, eff2, _, _) =
          (from_path-Moves fid fs bs le).runs w1 0 w.inbox
            (record { plenty = (r1.plenty.0, omega (arith, r1.plenty.1)); granted = r1.granted })
            eff.read in
        (
          w2,
          rw o s,
          eff2.written
              ∙ ap (λ b. b ++ (header fid fs ++ take fs bs)) (eff.written ∙ append-nil w.outbox),
          eff2.read,
        )
