-- ===== src/Windows/Board/Grown.antt =====
-- windows/main.c: `dynbuf_write` under the PNG writer of stb_image.

use sync_clipboard.Prelude.{
  Bytes, List, [], append-nil, append_assoc, arith, if-both, length, length-append, ltb, ltb→le,
  suc, sym, zero, ℕ, ◌*◌, ◌++◌, ◌+◌, ◌<◌, ◌∙◌, ◌∷◌, ◌≡◌, ◌≤◌,
}
use sync_clipboard.Windows.Board.{DynBuf, dynbuf_write, grow, start_cap, write_blocks}

pub grow_enough :
    (fuel needed newcap : ℕ)
    → 0 < newcap
    → needed ≤ fuel + newcap
    → needed ≤ grow fuel needed newcap
unfolding grow
grow_enough zero needed newcap positive h = omega (arith, h)
grow_enough (suc fuel) needed newcap positive h =
    if-both (λ c. needed ≤ c) (ltb newcap needed) _ _
      (λ e. grow_enough fuel needed (newcap * 2) (omega arith) (omega arith))
      (λ e. ltb→le newcap needed e)

-- The blocks one after the other.
unfoldable pub joined : List Bytes → Bytes
joined [] = []
joined (block ∷ blocks) = block ++ joined blocks

start_cap_positive : (cap : ℕ) → 0 < start_cap cap
start_cap_positive cap = ground arith

dynbuf_write_room :
    (block : Bytes) (b : DynBuf)
    → length b.bytes ≤ b.cap
    → length (dynbuf_write block b).bytes ≤ (dynbuf_write block b).cap
unfolding dynbuf_write
dynbuf_write_room block b room =
    let needed = length b.bytes + length block in
    let whole = length-append b.bytes block in
    if-both (λ c. length (b.bytes ++ block) ≤ c) (ltb b.cap needed) _ _
      (λ e.
        let fits =
          grow_enough needed needed (start_cap b.cap) (start_cap_positive b.cap) (omega arith) in
        omega (arith, whole, fits))
      (λ e. let fits = ltb→le b.cap needed e in omega (arith, whole, fits))

-- Whatever blocks the PNG writer hands over, and from any buffer whose bytes lie within its capacity:
-- the buffer holds its bytes and then all blocks in their order, and no block was copied past the
-- capacity it then had.
pub write_blocks-joined :
    (blocks : List Bytes) (b : DynBuf)
    → length b.bytes ≤ b.cap
    → ((write_blocks blocks b).bytes ≡ b.bytes ++ joined blocks)
      × (length (write_blocks blocks b).bytes ≤ (write_blocks blocks b).cap)
unfolding write_blocks joined
write_blocks-joined [] b room = (sym (append-nil b.bytes), room)
write_blocks-joined (block ∷ blocks) b room =
    let (bytes, fits) =
      write_blocks-joined blocks (dynbuf_write block b) (dynbuf_write_room block b room) in
    (bytes ∙ append_assoc b.bytes block (joined blocks), fits)
