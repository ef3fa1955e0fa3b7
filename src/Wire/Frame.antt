-- ===== src/Wire/Frame.antt =====
-- The frame as one list of bytes, and what the senders put on the wire.
use sync_clipboard.Prelude.{
  Bytes, [], ap, arith, length, length-append, length-replicate, length-take, refl, replicate, some,
  take, take_all, zero, ℕ, ◌++◌, ◌+◌, ◌<◌, ◌^◌, ◌≡◌,
}
use sync_clipboard.Net.Moves.{Moves, bind-Moves, send_all-Moves, untouched}
use sync_clipboard.Wire.{
  char_array, ft_magic, ft_uuid_len, send_data, send_file, send_header, size_bytes,
}
use sync_clipboard.Wire.Size.{length-size_bytes}

-- The 36 bytes that stand for an id: its own, cut or filled up with NULs.
abbrev pub id_bytes : Bytes → Bytes
id_bytes fid = take ft_uuid_len (char_array 64 fid)

abbrev pub header : Bytes → ℕ → Bytes
header fid fs = ft_magic ++ (id_bytes fid ++ size_bytes fs)

abbrev pub frame : Bytes → Bytes → Bytes
frame fid bs = header fid (length bs) ++ bs

pub length-char_array : (n : ℕ) (s : Bytes) → length (char_array n s) ≡ n
length-char_array n s = omega (
  arith,
  length-take n (s ++ replicate n 0),
  length-append s (replicate n 0),
  length-replicate {0} n (zero),
)

pub length-id_bytes : (fid : Bytes) → length (id_bytes fid) ≡ 36
length-id_bytes fid =
    omega (arith, length-take ft_uuid_len (char_array 64 fid), length-char_array 64 fid)

pub send_header-Moves :
    (fid : Bytes) (fs : ℕ) → Moves (send_header fid fs) 48 [] (header fid fs) untouched tt
unfolding send_header
send_header-Moves fid fs =
    bind-Moves _ _ (send_all-Moves ft_magic 4 (omega arith) (omega arith))
      (bind-Moves _ _
        (send_all-Moves (char_array 64 fid) 36 (omega (arith, length-char_array 64 fid))
          (omega arith))
        (send_all-Moves (size_bytes fs) 8 (omega (arith, length-size_bytes fs)) (omega arith)) refl
        refl
        (ap (◌++◌ (id_bytes fid))
          (take_all 8 (size_bytes fs) (omega (arith, length-size_bytes fs)))))
      refl refl refl

-- The whole frame goes out, however the kernel cuts it up.
pub send_file-Moves :
    (fid bs : Bytes) (fs : ℕ)
    → length bs < 2 ^ 31
    → Moves
        (send_file (record { file_id = fid; file_size = fs; content = some bs }))
        (48 + length bs)
        []
        (header fid fs ++ bs)
        untouched
        tt
unfolding send_file send_data
send_file-Moves fid bs fs small =
    bind-Moves _ _ (send_header-Moves fid fs) (send_all-Moves bs (length bs) (omega arith) small)
      refl refl (ap (◌++◌ (header fid fs)) (take_all (length bs) bs (omega arith)))
