-- ===== src/Wire/Size.antt =====
-- The 8-byte big-endian size: the loop that writes it and the loop that reads it are inverse.
use sync_clipboard.Prelude.{arith, length, refl, ℕ, ◌<◌, ◌^◌, ◌≡◌}
use sync_clipboard.Wire.{read_size, size_bytes, size_bytes_loop}

pub length-size_bytes : (fs : ℕ) → length (size_bytes fs) ≡ 8
unfolding size_bytes_loop
length-size_bytes fs = refl

-- Every size that fits `uint64_t` is read back.
pub read_size-size_bytes : (fs : ℕ) → fs < 2 ^ 64 → read_size 0 (size_bytes fs) ≡ fs
unfolding size_bytes_loop read_size
read_size-size_bytes fs h = omega arith
