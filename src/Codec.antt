-- ===== src/Codec.antt =====
-- common/codec.c: hexadecimal text and the normalisation of base64 text. OpenSSL's base64 filter,
-- which is not part of the repository, is a parameter of `base64_decode`.
pub mod Hex
pub mod Base64
mod Tests
use mathlib.Core.Option
use sync_clipboard.Prelude.{
  Bool, Bytes, Option, [], codes, drop, get_or, if◌then◌else◌, leb, length, map, none, some, suc,
  zero, ℕ, ◌%◌, ◌&&◌, ◌*◌, ◌++◌, ◌+◌, ◌-◌, ◌/◌, ◌==◌, ◌^◌, ◌||◌, ◌∷◌,
}

-- `isspace` and `isxdigit` in the C locale.
unfoldable pub is_space : ℕ → Bool
is_space c = c == 32 || leb 9 c && leb c 13

unfoldable pub is_xdigit : ℕ → Bool
is_xdigit c = leb b'0' c && leb c b'9' || leb b'a' c && leb c b'f' || leb b'A' c && leb c b'F'

-- The value of a hexadecimal digit.
unfoldable pub hex_value : ℕ → ℕ
hex_value c = if leb b'a' c then c - 87 else if leb b'A' c then c - 55 else c - b'0'

unfoldable pub skip_space : Bytes → Bytes
unfolding is_space
skip_space [] = []
skip_space (c ∷ cs) = let rest = skip_space cs in if is_space c then rest else c ∷ cs

-- One character is left of the field's width after a sign; the value is an `unsigned int`.
unfoldable pub scan_signed : Bool → Bytes → Option ℕ
unfolding is_xdigit hex_value
scan_signed negative [] = none
scan_signed negative (d ∷ ds) =
    if is_xdigit d
    then some (if negative then (2 ^ 32 - hex_value d) % 2 ^ 32 else hex_value d)
    else none

-- The second character after a digit. "0x" is a prefix of a number and no number, so it fails.
unfoldable pub scan_second : ℕ → Bytes → Option ℕ
unfolding is_xdigit hex_value
scan_second c [] = some (hex_value c)
scan_second c (d ∷ ds) =
    if c == b'0' && (d == b'x' || d == b'X')
    then none
    else some (if is_xdigit d then 16 * hex_value c + hex_value d else hex_value c)

unfoldable pub scan_item : Bytes → Option ℕ
unfolding scan_signed scan_second is_xdigit
scan_item [] = none
scan_item (c ∷ cs) =
    if c == b'+' || c == b'-'
    then scan_signed (c == b'-') cs
    else if is_xdigit c
    then scan_second c cs
    else none

-- `sscanf(s, "%2x", &byte) == 1`, and the value then: leading white space does not count against
-- the width, a sign does.
unfoldable pub scan_hex2 : Bytes → Option ℕ
unfolding scan_item skip_space
scan_hex2 s = scan_item (skip_space s)

-- The loop of `sc_hex_to_bytes`, with the rounds left and the text from `hex + 2 * i` on.
unfoldable pub hex_loop : ℕ → Bytes → Option Bytes
unfolding scan_hex2
hex_loop zero hex = some []
hex_loop (suc n) hex =
    let rest = hex_loop n (drop 2 hex) in
    elim (scan_hex2 hex) [ none ↦ none | some byte ↦ Option.map (◌∷◌ (byte % 2 ^ 8)) rest ]

-- `sc_hex_to_bytes`: what it fills `out` with, `none` for -1.
unfoldable pub hex_to_bytes : Bytes → ℕ → Option Bytes
unfolding hex_loop
hex_to_bytes hex out_len =
    let bytes = hex_loop out_len hex in if length hex == out_len * 2 then bytes else none

abbrev pub digits : Bytes
digits = codes "0123456789abcdef"

-- `sc_bytes_to_hex`.
unfoldable pub bytes_to_hex : Bytes → Bytes
bytes_to_hex [] = []
bytes_to_hex (b ∷ bs) =
    get_or digits (b / 2 ^ 4 % 2 ^ 4) 0 ∷ get_or digits (b % 2 ^ 4) 0 ∷ bytes_to_hex bs

-- `if (c == '-') c = '+'; else if (c == '_') c = '/';`
unfoldable pub standard_char : ℕ → ℕ
standard_char c = if c == b'-' then b'+' else if c == b'_' then b'/' else c

-- The padding loop of `normalise_base64`: the text so far, the size of its buffer, and if `realloc`
-- succeeds. At most 3 rounds are needed; `none` is a NULL.
unfoldable pub pad_loop : ℕ → Bool → Bytes → ℕ → Option (Bytes × ℕ)
pad_loop zero grows buf cap = some (buf, cap)
pad_loop (suc fuel) grows buf cap =
    let next = pad_loop fuel grows (buf ++ b'=' ∷ []) cap in
    let grown = pad_loop fuel grows (buf ++ b'=' ∷ []) (cap * 2) in
    if length buf % 4 == 0
    then some (buf, cap)
    else if leb cap (length buf + 1)
    then (if grows then grown else none)
    else next

-- `normalise_base64`: the text and the size of the buffer that holds it with its NUL.
unfoldable pub normalise_base64 : Bool → Bytes → Option (Bytes × ℕ)
unfolding pad_loop standard_char
normalise_base64 grows input = pad_loop 4 grows (map standard_char input) (length input + 4 + 1)

-- `sc_base64_decode`, once the buffers are allocated; `bio_read` is OpenSSL's decoder, `none` for a
-- negative count.
unfoldable pub base64_decode : (Bytes → Option Bytes) → Bool → Bytes → Option Bytes
base64_decode bio_read grows input = elim (normalise_base64 grows input) [
  | none ↦ none
  | some (text, cap) ↦ bio_read text
]
