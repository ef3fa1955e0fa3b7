-- ===== src/Windows/Board.antt =====
-- windows/main.c: images on the Windows clipboard. The clipboard holds a DIB, a bitmap without a file
-- header; the others get and send PNG. stb_image's reader and writer are parameters.
pub mod Grown
pub mod Rows
use sync_clipboard.Prelude.{
  Bool, Bytes, List, Option, [], drop, if◌then◌else◌, leb, length, ltb, maybe, none, replicate,
  some, starts_with, suc, take, zero, ℕ, ◌%◌, ◌&&◌, ◌*◌, ◌++◌, ◌+◌, ◌/◌, ◌==◌, ◌^◌, ◌∷◌,
}

-- `x` in k bytes, the lowest first.
unfoldable pub le_bytes : ℕ → ℕ → Bytes
le_bytes zero x = []
le_bytes (suc k) x = x % 256 ∷ le_bytes k (x / 256)

unfoldable pub le_value : Bytes → ℕ
le_value [] = 0
le_value (b ∷ bytes) = b + 256 * le_value bytes

-- What `stbi_load_from_memory` gives: rows from the top, four bytes R, G, B, A for a pixel.
pub record Pixels : Type 0 where
  pub width : ℕ
  pub height : ℕ
  pub rgba : Bytes

-- The reader of PNG and BMP, and the writer of PNG, with the blocks it gives to `dynbuf_write`.
pub record Stb : Type 0 where
  pub load : Bytes → Option Pixels
  pub write_png : Pixels → List Bytes

-- `DynBuf`: its bytes and its capacity.
pub record DynBuf : Type 0 where
  pub bytes : Bytes
  pub cap : ℕ

-- `while (newcap < b->len + size) newcap *= 2;`, on fuel.
unfoldable pub grow : ℕ → ℕ → ℕ → ℕ
grow zero needed newcap = newcap
grow (suc fuel) needed newcap =
    let rest = grow fuel needed (newcap * 2) in if ltb newcap needed then rest else newcap

abbrev pub start_cap : ℕ → ℕ
start_cap cap = if cap == 0 then 4096 else cap * 2

-- `realloc` is taken to succeed, as the code takes it.
unfoldable pub dynbuf_write : Bytes → DynBuf → DynBuf
unfolding grow
dynbuf_write block b =
    let needed = length b.bytes + length block in
    record {
      bytes = b.bytes ++ block;
      cap = if ltb b.cap needed then grow needed needed (start_cap b.cap) else b.cap;
    }

unfoldable pub write_blocks : List Bytes → DynBuf → DynBuf
unfolding dynbuf_write
write_blocks [] b = b
write_blocks (block ∷ blocks) b = write_blocks blocks (dynbuf_write block b)

abbrev pub empty_buf : DynBuf
empty_buf = record { bytes = []; cap = 0 }

unfoldable pub bmp_to_png : Stb → Bytes → Option Bytes
unfolding write_blocks
bmp_to_png stb bmp = maybe (stb.load bmp) none (λ p.
    let png = (write_blocks (stb.write_png p) empty_buf).bytes in
    if length png == 0 then none else some png)

-- R, G, B, A to B, G, R, A.
unfoldable pub swap_row : Bytes → Bytes
swap_row (r ∷ g ∷ b ∷ a ∷ row) = b ∷ g ∷ r ∷ a ∷ swap_row row
swap_row row = []

-- Row y, counted from the top.
abbrev pub row_of : ℕ → Bytes → ℕ → Bytes
row_of row_bytes rgba y = take row_bytes (drop (y * row_bytes) rgba)

-- The loop over y from h - n on: the source row is h - 1 - y.
unfoldable pub flip_rows : ℕ → Bytes → ℕ → Bytes
unfolding swap_row
flip_rows row_bytes rgba zero = []
flip_rows row_bytes rgba (suc n) = swap_row (row_of row_bytes rgba n) ++ flip_rows row_bytes rgba n

-- BITMAPINFOHEADER with biBitCount 32 and BI_RGB.
abbrev pub info_header : ℕ → ℕ → Bytes
info_header w h =
    le_bytes 4 40
    ++ le_bytes 4 w
    ++ le_bytes 4 h
    ++ le_bytes 2 1
    ++ le_bytes 2 32
    ++ le_bytes 4 0
    ++ le_bytes 4 (w * 4 * h)
    ++ replicate 16 0

unfoldable pub png_to_dib : Stb → Bool → Bytes → Option Bytes
unfolding le_bytes flip_rows
png_to_dib stb memory png = maybe (stb.load png) none (λ p.
    if memory
    then some (info_header p.width p.height ++ flip_rows (p.width * 4) p.rgba p.height)
    else none)

abbrev pub png_mark : Bytes
png_mark = 0x89 ∷ 0x50 ∷ 0x4E ∷ 0x47 ∷ []

-- What `clipboard_set_image` gives to the clipboard.
unfoldable pub dib_of : Stb → Bool → Bytes → Option Bytes
unfolding png_to_dib
dib_of stb memory image =
    let as_dib = png_to_dib stb memory image in
    if ltb 4 (length image) && starts_with png_mark image
    then as_dib
    else if ltb 14 (length image) && starts_with (b'B' ∷ b'M' ∷ []) image
    then some (drop 14 image)
    else some image

-- A field of the header of a DIB, of n bytes at an offset.
abbrev pub header_field : ℕ → ℕ → Bytes → ℕ
header_field at n dib = le_value (take n (drop at dib))

-- `bfOffBits`: where the pixels of the file begin, behind the header and the colours.
unfoldable pub bf_off_bits : Bytes → ℕ
unfolding le_value
bf_off_bits dib =
    let bi_size = header_field 0 4 dib in
    let bi_bit_count = header_field 14 2 dib in
    let bi_compression = header_field 16 4 dib in
    if leb bi_bit_count 8
    then 14 + bi_size + 2 ^ bi_bit_count * 4
    else if bi_compression == 3 && bi_size == 40
    then 14 + bi_size + 12
    else 14 + bi_size

-- The DIB of the clipboard behind a BITMAPFILEHEADER.
unfoldable pub bmp_file : Bytes → Bytes
unfolding le_bytes bf_off_bits
bmp_file dib =
    b'B' ∷ b'M' ∷ le_bytes 4 (14 + length dib)
    ++ le_bytes 4 0
    ++ le_bytes 4 (bf_off_bits dib)
    ++ dib

-- `clipboard_get_image`, with the bitmap on the clipboard.
unfoldable pub get_bitmap : Bool → Option Bytes → Option Bytes
unfolding bmp_file
get_bitmap memory none = none
get_bitmap memory (some dib) = if memory then some (bmp_file dib) else none
