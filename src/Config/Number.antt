-- ===== src/Config/Number.antt =====
-- `atoi`, by which common/config.c and common/ft/ft_socket.c read numbers.
use sync_clipboard.Prelude.{
  Bool, Bytes, [], false, if◌then◌else◌, leb, min, true, ℕ, ◌%◌, ◌&&◌, ◌*◌, ◌+◌, ◌-◌, ◌==◌, ◌^◌,
  ◌∷◌,
}
use sync_clipboard.Prelude.Int.{ℤ, pos, negsuc, to_u64, signed32}
use sync_clipboard.Codec.{skip_space}

abbrev pub is_digit : ℕ → Bool
is_digit c = leb b'0' c && leb c b'9'

-- The value of the digits at the front.
unfoldable pub digits_value : ℕ → Bytes → ℕ
digits_value acc [] = acc
digits_value acc (c ∷ cs) =
    let more = digits_value (acc * 10 + (c - b'0')) cs in if is_digit c then more else acc

-- `strtol` stops at the ends of a 64-bit `long`.
abbrev pub to_long : Bool → ℕ → ℤ
to_long true v = if v == 0 then pos 0 else negsuc (min v (2 ^ 63) - 1)
to_long false v = pos (min v (2 ^ 63 - 1))

unfoldable pub signed_value : Bytes → ℤ
unfolding digits_value
signed_value [] = pos 0
signed_value (c ∷ cs) =
    if c == b'-'
    then to_long true (digits_value 0 cs)
    else if c == b'+'
    then to_long false (digits_value 0 cs)
    else to_long false (digits_value 0 (c ∷ cs))

-- `atoi`, that is `(int) strtol(s, NULL, 10)`.
unfoldable pub atoi : Bytes → ℤ
unfolding signed_value skip_space
atoi s = signed32 (to_u64 (signed_value (skip_space s)) % 2 ^ 32)
