-- ===== src/Codec/Base64.antt =====
-- `normalise_base64`: what it returns, and that its buffer never has to grow.
use sync_clipboard.Prelude.{
  ==_iff, All, All-append, Bool, Bool-cases, Bytes, Option, [], ap, append-nil, append_assoc, ap₂,
  arith, false, if◌then◌else◌, inl, inr, leb, length, length-append, length-map, length-replicate,
  map, refl, replicate, some, suc, true, zero, ℕ, ◌%◌, ◌++◌, ◌+◌, ◌-◌, ◌<◌, ◌==◌, ◌∙◌, ◌∷◌, ◌≡◌,
  ◌≢◌,
}
use sync_clipboard.Codec.{base64_decode, normalise_base64, pad_loop, standard_char}

-- Padding up to a multiple of 4.
abbrev pub padding : ℕ → Bytes
padding n = replicate ((4 - n % 4) % 4) b'='

padding_none : (n : ℕ) → (n % 4 == 0) ≡ true → padding n ≡ []
padding_none n e =
    let none_left : (4 - n % 4) % 4 ≡ 0 = omega (arith, (==_iff (n % 4) 0).0 e) in
    ap (λ k. replicate k b'=') none_left

padding_more : (n m : ℕ) → (n % 4 == 0) ≡ false → m ≡ n + 1 → b'=' ∷ padding m ≡ padding n
padding_more n m e h =
    let off : n % 4 ≢ 0 = ground arith in
    let one_less : suc ((4 - m % 4) % 4) ≡ (4 - n % 4) % 4 = omega arith in
    ap (λ k. replicate k b'=') one_less

pad_loop-done :
    (fuel : ℕ) (grows : Bool) (buf : Bytes) (cap : ℕ)
    → (4 - length buf % 4) % 4 < fuel
    → length buf + (4 - length buf % 4) % 4 < cap
    → pad_loop fuel grows buf cap ≡ some (buf ++ padding (length buf), cap)
unfolding pad_loop
pad_loop-done zero grows buf cap h room = absurd (omega arith)
pad_loop-done (suc fuel) grows buf cap h room = elim (Bool-cases (length buf % 4 == 0)) [
  | inl e ↦ rw (e, pad_loop) (rw (padding_none (length buf) e, append-nil))
  | inr e ↦
      let longer : length (buf ++ b'=' ∷ []) ≡ length buf + 1 = length-append buf (b'=' ∷ []) in
      let off : length buf % 4 ≢ 0 = ground arith in
      let fits : leb cap (length buf + 1) ≡ false = ground arith in
      rw (e, fits, pad_loop)
        (pad_loop-done fuel grows (buf ++ b'=' ∷ []) cap (omega arith) (omega arith)
          ∙ ap (λ b. some (b, cap))
              (append_assoc buf (b'=' ∷ []) (padding (length (buf ++ b'=' ∷ [])))
                ∙ ap (◌++◌ buf) (padding_more (length buf) (length (buf ++ b'=' ∷ [])) e longer)))
]

-- `normalise_base64` replaces the URL-safe characters and pads to a multiple of 4. Its buffer of
-- `len + 5` bytes is never too small, so that `realloc` is not called, succeed or not, and the text
-- and its NUL stay inside it.
pub normalise_base64_lem :
    (grows : Bool) (input : Bytes)
    → let text = map standard_char input ++ padding (length input) in
      (normalise_base64 grows input ≡ some (text, length input + 5))
      × (length text % 4 ≡ 0)
      × (length text < length input + 5)
unfolding normalise_base64
normalise_base64_lem grows input =
    let l : length (map standard_char input) ≡ length input = length-map input standard_char in
    let p : length (padding (length input)) ≡ (4 - length input % 4) % 4 =
      length-replicate ((4 - length input % 4) % 4) b'=' in
    let t : length (map standard_char input ++ padding (length input))
        ≡ length input + (4 - length input % 4) % 4 =
      length-append (map standard_char input) (padding (length input)) ∙ omega (arith, l, p) in
    (
      pad_loop-done 4 grows (map standard_char input) (length input + 4 + 1) (omega arith)
            (omega arith)
          ∙ (λ i. some (map standard_char input ++ padding (l i), cap_is i)),
      omega arith,
      omega arith,
    )
  where
    cap_is : length input + 4 + 1 ≡ length input + 5
    cap_is = omega arith

-- The URL-safe spelling of a standard character.
abbrev pub url_char : ℕ → ℕ
url_char c = if c == b'+' then b'-' else if c == b'/' then b'_' else c

-- A character of the standard alphabet, or padding.
abbrev pub IsStandard : ℕ → Type 0
IsStandard c = (c ≢ b'-') × (c ≢ b'_')

standard_char_lem : (c : ℕ) → IsStandard c → standard_char c ≡ c
unfolding standard_char
standard_char_lem c h = ground arith

standard_char-url_char : (c : ℕ) → IsStandard c → standard_char (url_char c) ≡ c
unfolding standard_char
standard_char-url_char c h = ground arith

map-standard_char : (s : Bytes) → All IsStandard s → map standard_char s ≡ s
map-standard_char [] h = refl
map-standard_char (c ∷ s) (x, h) = λ i. standard_char_lem c x i ∷ map-standard_char s h i

map-standard_char-url_char : (s : Bytes) → All IsStandard s → map standard_char (map url_char s) ≡ s
map-standard_char-url_char [] h = refl
map-standard_char-url_char (c ∷ s) (x, h) =
    λ i. standard_char-url_char c x i ∷ map-standard_char-url_char s h i

padded-IsStandard : (k : ℕ) → All IsStandard (replicate k b'=')
padded-IsStandard zero = tt
padded-IsStandard (suc k) = ((omega arith, omega arith), padded-IsStandard k)

base64_decode_lem :
    (bio_read : Bytes → Option Bytes) (grows : Bool) (input : Bytes)
    → base64_decode bio_read grows input
      ≡ bio_read (map standard_char input ++ padding (length input))
unfolding base64_decode
base64_decode_lem bio_read grows input =
    rw ((normalise_base64_lem grows input).0, base64_decode) refl

-- A text that is padded already gets no more.
padded_lem :
    (body : Bytes)
    → let whole = body ++ padding (length body) in whole ++ padding (length whole) ≡ whole
padded_lem body =
    let p : length (padding (length body)) ≡ (4 - length body % 4) % 4 =
      length-replicate ((4 - length body % 4) % 4) b'=' in
    let l : length (body ++ padding (length body)) % 4 ≡ 0 =
      omega (arith, length-append body (padding (length body)), p) in
    ap (◌++◌ (body ++ padding (length body)))
      (padding_none (length (body ++ padding (length body))) ((==_iff _ _).1 l))
    ∙ append-nil _

-- `sc_base64_decode` decodes the four spellings of a text alike: with the standard or the URL-safe
-- characters, with or without its padding, whatever OpenSSL's decoder makes of it.
pub base64_decode_spellings :
    (bio_read : Bytes → Option Bytes) (grows : Bool) (body : Bytes)
    → All IsStandard body
    → let whole = body ++ padding (length body) in
      (base64_decode bio_read grows whole ≡ bio_read whole)
      × (base64_decode bio_read grows body ≡ bio_read whole)
      × (base64_decode bio_read grows (map url_char whole) ≡ bio_read whole)
      × (base64_decode bio_read grows (map url_char body) ≡ bio_read whole)
base64_decode_spellings bio_read grows body h =
    let whole : Bytes = body ++ padding (length body) in
    let hw : All IsStandard whole =
      All-append IsStandard body (padding (length body)) h
        (padded-IsStandard ((4 - length body % 4) % 4)) in
    (
      base64_decode_lem bio_read grows whole
          ∙ ap bio_read (
              ap (λ t. t ++ padding (length whole)) (map-standard_char whole hw) ∙ padded_lem body),
      base64_decode_lem bio_read grows body
          ∙ ap (λ t. bio_read (t ++ padding (length body))) (map-standard_char body h),
      base64_decode_lem bio_read grows (map url_char whole)
          ∙ ap bio_read (
              ap₂ ◌++◌ (map-standard_char-url_char whole hw)
                (ap padding (length-map whole url_char))
              ∙ padded_lem body),
      base64_decode_lem bio_read grows (map url_char body)
          ∙ ap bio_read (
              ap₂ ◌++◌ (map-standard_char-url_char body h) (ap padding (length-map body url_char))),
    )
