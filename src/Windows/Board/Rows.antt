-- ===== src/Windows/Board/Rows.antt =====
-- windows/main.c: the bitmap that `png_to_dib` makes, read as a bitmap is read.
use native.Mathlib.Nat.{mul-le-mul}
use sync_clipboard.Prelude.{
  &&-eq-true, Bool, Bytes, Option, [], ap, arith, drop, drop-add, drop-append, if-both, length,
  length-append, length-drop, length-take, ltb, lt→ltb, maybe, refl, some, starts_with, suc, sym,
  take, take-append, true, true_is_false, zero, ℕ, ◌&&◌, ◌*◌, ◌++◌, ◌+◌, ◌-◌, ◌/◌, ◌<◌, ◌^◌, ◌∙◌,
  ◌∷◌, ◌≡◌, ◌≤◌,
}
use sync_clipboard.Windows.Board.{
  Pixels, Stb, bmp_file, dib_of, flip_rows, header_field, info_header, le_bytes, le_value, png_mark,
  png_to_dib, row_of, swap_row,
}

-- Blue, green, red, alpha as a bitmap has them, to red, green, blue, alpha.
unfoldable pub from_bgra : Bytes → Bytes
from_bgra (blue ∷ green ∷ red ∷ alpha ∷ row) = red ∷ green ∷ blue ∷ alpha ∷ from_bgra row
from_bgra row = []

-- Row y of a picture, counted from the top and with R, G, B, A, in a DIB of 32 bits: the rows stand
-- from the bottom up behind a header of 40 bytes, with B, G, R, A.
unfoldable pub dib_row : ℕ → ℕ → Bytes → ℕ → Bytes
unfolding from_bgra
dib_row w h dib y = from_bgra (take (w * 4) (drop ((h - 1 - y) * (w * 4)) (drop 40 dib)))

pub length-swap_row : (w : ℕ) (row : Bytes) → length row ≡ w * 4 → length (swap_row row) ≡ w * 4
unfolding swap_row
length-swap_row zero [] e = refl
length-swap_row (suc w) (r ∷ g ∷ b ∷ a ∷ row) e =
    let ih = length-swap_row w row (omega arith) in omega (arith, ih)
length-swap_row w row e = absurd (omega arith)

from_bgra-swap_row : (w : ℕ) (row : Bytes) → length row ≡ w * 4 → from_bgra (swap_row row) ≡ row
unfolding swap_row from_bgra
from_bgra-swap_row zero [] e = refl
from_bgra-swap_row (suc w) (r ∷ g ∷ b ∷ a ∷ row) e =
    ap (λ s. r ∷ g ∷ b ∷ a ∷ s) (from_bgra-swap_row w row (omega arith))
from_bgra-swap_row w row e = absurd (omega arith)

-- Row y has all its bytes, where the picture has the rows up to n.
length-row_of :
    (rb n y : ℕ) (rgba : Bytes) → y < n → n * rb ≤ length rgba → length (row_of rb rgba y) ≡ rb
length-row_of rb n y rgba below enough =
    let step : suc y * rb ≤ n * rb = mul-le-mul {m₁ = rb} below (omega arith) in
    omega (arith, length-take rb (drop (y * rb) rgba), length-drop (y * rb) rgba, step)

-- Row y of a picture of n rows has k rows below it.
row_at :
    (w n y k : ℕ) (rgba : Bytes)
    → n ≡ suc (k + y)
    → n * (w * 4) ≤ length rgba
    → take (w * 4) (drop (k * (w * 4)) (flip_rows (w * 4) rgba n))
      ≡ swap_row (row_of (w * 4) rgba y)
unfolding flip_rows
row_at w zero y k rgba e enough = absurd (omega arith)
row_at w (suc n) y zero rgba e enough =
    let rb = w * 4 in
    let row : length (swap_row (row_of rb rgba n)) ≡ rb =
      length-swap_row w (row_of rb rgba n) (length-row_of rb (suc n) n rgba (omega arith) enough) in
    let none_below : 0 * rb ≡ 0 = omega arith in
    let own : n ≡ y = omega arith in
    ap (λ m. take rb (drop m (flip_rows rb rgba (suc n)))) none_below
    ∙ take-append rb (swap_row (row_of rb rgba n)) (flip_rows rb rgba n) row
    ∙ ap (λ m. swap_row (row_of rb rgba m)) own
row_at w (suc n) y (suc k) rgba e enough =
    let rb = w * 4 in
    let first = swap_row (row_of rb rgba n) in
    let later = flip_rows rb rgba n in
    let row : length first ≡ rb =
      length-swap_row w (row_of rb rgba n) (length-row_of rb (suc n) n rgba (omega arith) enough) in
    let skip : drop (suc k * rb) (first ++ later) ≡ drop (k * rb) later =
      sym (drop-add rb (k * rb) (suc k * rb) (first ++ later) (omega arith))
      ∙ ap (drop (k * rb)) (drop-append rb first later row) in
    ap (take rb) skip ∙ row_at w n y k rgba (omega arith) (omega arith)

length-flip_rows :
    (w n : ℕ) (rgba : Bytes)
    → n * (w * 4) ≤ length rgba
    → length (flip_rows (w * 4) rgba n) ≡ n * (w * 4)
unfolding flip_rows
length-flip_rows w zero rgba enough = omega arith
length-flip_rows w (suc n) rgba enough =
    let rb = w * 4 in
    let row : length (swap_row (row_of rb rgba n)) ≡ rb =
      length-swap_row w (row_of rb rgba n) (length-row_of rb (suc n) n rgba (omega arith) enough) in
    let ih = length-flip_rows w n rgba (omega arith) in
    omega (arith, row, ih, length-append (swap_row (row_of rb rgba n)) (flip_rows rb rgba n))

-- A number below 256 ^ k survives k bytes.
pub le_value-le_bytes : (k x : ℕ) → x < 256 ^ k → le_value (le_bytes k x) ≡ x
unfolding le_bytes le_value
le_value-le_bytes zero x small = omega (arith, small)
le_value-le_bytes (suc k) x small =
    let ih = le_value-le_bytes k (x / 256) (omega (arith, small)) in omega (arith, ih)

module _ (stb : Stb) (png : Bytes) (p : Pixels) where
  -- Where stb_image reads the PNG as a picture with all its rows, and there is memory: the bitmap has
  -- the length of its header and its pixels; its header says the size of the header, the width and the
  -- height, if these fit 32 bits, and the 32 bits of a pixel; and any row of the picture, as the bitmap
  -- shows it with the bytes of a pixel read as blue, green, red and alpha, is that row of the PNG.
  pub png_to_dib-dib_row :
      stb.load png ≡ some p
      → length p.rgba ≡ p.height * (p.width * 4)
      → p.width < 2 ^ 32
      → p.height < 2 ^ 32
      → (y : ℕ) → y < p.height
      → (dib : Bytes) × (png_to_dib stb true png ≡ some dib)
        × (length dib ≡ 40 + p.height * (p.width * 4))
        × (header_field 0 4 dib ≡ 40)
        × (header_field 4 4 dib ≡ p.width)
        × (header_field 8 4 dib ≡ p.height)
        × (header_field 14 2 dib ≡ 32)
        × (dib_row p.width p.height dib y ≡ row_of (p.width * 4) p.rgba y)
  unfolding png_to_dib maybe le_bytes le_value dib_row
  png_to_dib-dib_row loads whole w_fits h_fits y below =
      let rb = p.width * 4 in
      let dib = info_header p.width p.height ++ flip_rows rb p.rgba p.height in
      let rows = length-flip_rows p.width p.height p.rgba (omega (arith, whole)) in
      let row = length-row_of rb p.height y p.rgba below (omega (arith, whole)) in
      let found =
        row_at p.width p.height y (p.height - 1 - y) p.rgba (omega arith) (omega (arith, whole)) in
      (
        dib,
        rw loads refl,
        omega (arith, rows),
        refl,
        le_value-le_bytes 4 p.width w_fits,
        le_value-le_bytes 4 p.height h_fits,
        refl,
        ap from_bgra found ∙ from_bgra-swap_row p.width (row_of rb p.rgba y) row,
      )

module _ (stb : Stb) (memory : Bool) where
  -- What `clipboard_get_image` makes of a bitmap that is not empty, `clipboard_set_image` turns back
  -- into that bitmap.
  pub dib_of-bmp_file : (dib : Bytes) → 0 < length dib → dib_of stb memory (bmp_file dib) ≡ some dib
  unfolding dib_of bmp_file le_bytes
  dib_of-bmp_file dib some_bytes =
      let file = bmp_file dib in
      let P : Option Bytes → Type 0 = λ o. o ≡ some dib in
      let long : ltb 14 (length file) ≡ true =
        lt→ltb 14 (length file) (omega (arith, some_bytes)) in
      if-both P (ltb 4 (length file) && starts_with png_mark file) _ _
        (λ h. absurd (true_is_false (sym (&&-eq-true (ltb 4 (length file)) _ h).1)))
        (λ h.
          if-both P (ltb 14 (length file) && true) _ _ (λ g. refl)
            (λ g. absurd (true_is_false (sym (ap (λ b. b && true) long) ∙ g))))
