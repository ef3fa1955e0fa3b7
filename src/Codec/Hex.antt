-- ===== src/Codec/Hex.antt =====
-- Hexadecimal text: writing and reading are inverse, and which text is accepted.
use sync_clipboard.Prelude.{
  &&-eq-true, ==_iff, All, Bool, Bytes, [], ap, arith, drop, get_or, if◌then◌else◌, leb, length,
  map, none, refl, some, suc, sweep, sweep-eq-true, true, zero, ℕ, ◌%◌, ◌&&◌, ◌*◌, ◌+◌, ◌/◌, ◌<◌,
  ◌==◌, ◌^◌, ◌∙◌, ◌∷◌, ◌≡◌, ◌≢◌,
}
use sync_clipboard.Codec.{
  bytes_to_hex, digits, hex_loop, hex_to_bytes, hex_value, is_xdigit, scan_hex2,
}

-- What the 16 digits of the table are, by evaluation.
is_good_digit : ℕ → Bool
unfolding is_xdigit hex_value
is_good_digit v = is_xdigit (get_or digits v 0) && hex_value (get_or digits v 0) == v

digit_table : sweep is_good_digit 0 16 ≡ true
unfolding sweep is_good_digit
digit_table = refl

digit-value :
    (v : ℕ) → v < 16 → (is_xdigit (get_or digits v 0) ≡ true) × (hex_value (get_or digits v 0) ≡ v)
digit-value v h =
    let (x, y) =
      &&-eq-true (is_xdigit (get_or digits v 0)) (hex_value (get_or digits v 0) == v)
        (unfold is_good_digit in sweep-eq-true is_good_digit 0 16 digit_table (omega arith) h) in
    (x, (==_iff _ _).0 y)

-- Two hexadecimal digits, whatever follows them.
pub scan_hex2_digits :
    (c d : ℕ) (rest : Bytes)
    → is_xdigit c ≡ true
    → is_xdigit d ≡ true
    → scan_hex2 (c ∷ d ∷ rest) ≡ some (16 * hex_value c + hex_value d)
unfolding scan_hex2 is_xdigit
scan_hex2_digits c d rest hc hd = ground arith

byte-value :
    (b : ℕ)
    → b < 256
    → 16 * hex_value (get_or digits (b / 2 ^ 4 % 2 ^ 4) 0) + hex_value (get_or digits (b % 2 ^ 4) 0)
      ≡ b
byte-value b h =
    rw
      ((digit-value (b / 2 ^ 4 % 2 ^ 4) (omega arith)).1, (digit-value (b % 2 ^ 4) (omega arith)).1)
      (omega arith)

scan_hex2-byte :
    (b : ℕ) (rest : Bytes)
    → b < 256
    → scan_hex2 (get_or digits (b / 2 ^ 4 % 2 ^ 4) 0 ∷ get_or digits (b % 2 ^ 4) 0 ∷ rest) ≡ some b
scan_hex2-byte b rest h =
    scan_hex2_digits (get_or digits (b / 2 ^ 4 % 2 ^ 4) 0) (get_or digits (b % 2 ^ 4) 0) rest
      (digit-value (b / 2 ^ 4 % 2 ^ 4) (omega arith)).0 (digit-value (b % 2 ^ 4) (omega arith)).0
    ∙ ap some (byte-value b h)

hex_loop-step :
    (n : ℕ) (hex : Bytes) {byte : ℕ} {rest : Bytes}
    → scan_hex2 hex ≡ some byte
    → hex_loop n (drop 2 hex) ≡ some rest
    → hex_loop (suc n) hex ≡ some (byte % 2 ^ 8 ∷ rest)
hex_loop-step n hex e r = unfold hex_loop in ground arith

hex_loop-bytes_to_hex :
    (bs : Bytes) → All (λ b. b < 256) bs → hex_loop (length bs) (bytes_to_hex bs) ≡ some bs
unfolding hex_loop bytes_to_hex
hex_loop-bytes_to_hex [] h = refl
hex_loop-bytes_to_hex (b ∷ bs) (lt, h) =
    hex_loop-step (length bs) (bytes_to_hex (b ∷ bs)) (scan_hex2-byte b (bytes_to_hex bs) lt)
      (hex_loop-bytes_to_hex bs h)
    ∙ ap (λ c. some (c ∷ bs)) (omega arith)

length-bytes_to_hex : (bs : Bytes) → length (bytes_to_hex bs) ≡ length bs * 2
unfolding bytes_to_hex
length-bytes_to_hex [] = refl
length-bytes_to_hex (b ∷ bs) = omega (arith, length-bytes_to_hex bs)

-- `sc_hex_to_bytes` reads back what `sc_bytes_to_hex` has written.
pub hex_to_bytes-bytes_to_hex :
    (bs : Bytes) → All (λ b. b < 256) bs → hex_to_bytes (bytes_to_hex bs) (length bs) ≡ some bs
unfolding hex_to_bytes
hex_to_bytes-bytes_to_hex bs h =
    rw ((==_iff _ _).1 (length-bytes_to_hex bs)) (hex_loop-bytes_to_hex bs h)

-- A letter in lower case.
abbrev pub to_lower : ℕ → ℕ
to_lower c = if leb b'A' c && leb c b'Z' then c + 32 else c

is_lowered : ℕ → Bool
unfolding is_xdigit hex_value
is_lowered c = if is_xdigit c then get_or digits (hex_value c) 0 == to_lower c else true

lower_table : sweep is_lowered 0 256 ≡ true
unfolding sweep is_lowered
lower_table = refl

-- The table gives a digit back from its value, in lower case.
digit-hex_value : (c : ℕ) → is_xdigit c ≡ true → get_or digits (hex_value c) 0 ≡ to_lower c
digit-hex_value c h =
    let bound : c < 256 = unfold is_xdigit in ground arith in
    (==_iff _ _).0 (
      unfold is_lowered in rw h at (sweep-eq-true is_lowered 0 256 lower_table (omega arith) bound))

pub hex_value-lt : (c : ℕ) → is_xdigit c ≡ true → hex_value c < 16
unfolding is_xdigit hex_value
hex_value-lt c h = ground arith

bytes_to_hex-cons :
    (b : ℕ) (bs : Bytes)
    → bytes_to_hex (b ∷ bs)
      ≡ get_or digits (b / 2 ^ 4 % 2 ^ 4) 0 ∷ get_or digits (b % 2 ^ 4) 0 ∷ bytes_to_hex bs
unfolding bytes_to_hex
bytes_to_hex-cons b bs = refl

-- What is read from hexadecimal digits, two for each byte.
pub record Decoded (hex : Bytes) (n : ℕ) : Type 0 where
  pub bytes : Bytes
  pub found : hex_loop n hex ≡ some bytes
  pub size : length bytes ≡ n
  pub small : All (λ b. b < 256) bytes
  pub back : bytes_to_hex bytes ≡ map to_lower hex

pub Decoded-digits :
    (hex : Bytes) (n : ℕ) → length hex ≡ n * 2 → All (λ c. is_xdigit c ≡ true) hex → Decoded hex n
Decoded-digits [] zero e h = record {
  bytes = [];
  found = unfold hex_loop in refl;
  size = refl;
  small = tt;
  back = unfold bytes_to_hex in refl;
}
Decoded-digits [] (suc n) e h = absurd (omega arith)
Decoded-digits (c ∷ []) n e h = absurd (omega arith)
Decoded-digits (c ∷ d ∷ rest) zero e h = absurd (omega arith)
Decoded-digits (c ∷ d ∷ rest) (suc n) e (hc, (hd, h)) =
    let r : Decoded rest n = Decoded-digits rest n (omega arith) h in
    let b : ℕ = 16 * hex_value c + hex_value d in
    let lt : b < 256 = omega (arith, hex_value-lt c hc, hex_value-lt d hd) in
    let hi : get_or digits (b / 2 ^ 4 % 2 ^ 4) 0 ≡ to_lower c =
      ap (λ v. get_or digits v 0) (omega (arith, hex_value-lt c hc, hex_value-lt d hd))
      ∙ digit-hex_value c hc in
    let lo : get_or digits (b % 2 ^ 4) 0 ≡ to_lower d =
      ap (λ v. get_or digits v 0) (omega (arith, hex_value-lt c hc, hex_value-lt d hd))
      ∙ digit-hex_value d hd in
    record {
      bytes = b ∷ r.bytes;
      found =
          hex_loop-step n (c ∷ d ∷ rest) (scan_hex2_digits c d rest hc hd) r.found
          ∙ ap (λ x. some (x ∷ r.bytes)) (omega (arith, lt));
      size = ap suc r.size;
      small = (lt, r.small);
      back = bytes_to_hex-cons b r.bytes ∙ (λ i. hi i ∷ lo i ∷ r.back i);
    }

-- Hexadecimal text of the right length is always accepted, and writing the bytes gives it back in
-- lower case.
pub bytes_to_hex-hex_to_bytes :
    (hex : Bytes) (n : ℕ)
    → length hex ≡ n * 2
    → All (λ c. is_xdigit c ≡ true) hex
    → (bytes : Bytes) × (hex_to_bytes hex n ≡ some bytes)
      × (length bytes ≡ n)
      × All (λ b. b < 256) bytes
      × (bytes_to_hex bytes ≡ map to_lower hex)
unfolding hex_to_bytes
bytes_to_hex-hex_to_bytes hex n e h =
    let r : Decoded hex n = Decoded-digits hex n e h in
    (r.bytes, rw ((==_iff _ _).1 e) r.found, r.size, r.small, r.back)

-- Text of any other length is refused.
pub hex_to_bytes-eq-none : (hex : Bytes) (n : ℕ) → length hex ≢ n * 2 → hex_to_bytes hex n ≡ none
unfolding hex_to_bytes
hex_to_bytes-eq-none hex n h = ground arith
