-- ===== src/Client/Pipe.antt =====
-- linux/main.c: what the clipboard commands print, read through a pipe. `xclip` and `wl-paste` are read by
-- the same code. `popen` gives the bytes that the command prints up to its end, or fails; `fread` is a
-- function from the room and the bytes that are left to the number of bytes that it reads.
pub mod Whole
mod Tests
use sync_clipboard.Client.X11.{not_empty}
use sync_clipboard.Prelude.{
  Bool, Bytes, Option, [], drop, if◌then◌else◌, leb, length, maybe, none, not, some, suc, take,
  zero, ℕ, ◌&&◌, ◌*◌, ◌++◌, ◌+◌, ◌-◌, ◌==◌,
}

abbrev pub Fread : Type 0
Fread = ℕ → ℕ → ℕ

-- MAX_CLIPBOARD_SIZE
abbrev pub max_clipboard : ℕ
max_clipboard = 1024 * 1024

-- The loop of `xclip_clipboard_get_text`: what is left to read, and the buffer.
unfoldable pub text_loop : Fread → ℕ → Bytes → Bytes → Option Bytes
text_loop fread zero left buf = none
text_loop fread (suc fuel) left buf =
    let n = fread (max_clipboard - length buf - 1) (length left) in
    let rest = text_loop fread fuel (drop n left) (buf ++ take n left) in
    if n == 0 then some buf else rest

unfoldable pub pipe_get_text : Fread → Bool → Option Bytes → Option Bytes
unfolding text_loop
pipe_get_text fread memory opened = maybe opened none (λ output.
    let text = maybe (text_loop fread (length output + 1) output []) none not_empty in
    if memory then text else none)

unfoldable pub pipe_refresh_types : Fread → ℕ → Option Bytes → Bytes
pipe_refresh_types fread size opened =
    maybe opened [] (λ output. take (fread (size - 1) (length output)) output)

-- The loop of `xclip_clipboard_read_type`: which sizes `realloc` gives, and the capacity.
unfoldable pub type_loop : Fread → (ℕ → Bool) → ℕ → ℕ → Bytes → Bytes → Option Bytes
type_loop fread grows zero cap left buf = none
type_loop fread grows (suc fuel) cap left buf =
    let n = fread (cap - length buf) (length left) in
    let buf' = buf ++ take n left in
    let is_full = leb cap (length buf') in
    let rest = type_loop fread grows fuel (if is_full then cap * 2 else cap) (drop n left) buf' in
    if n == 0 then some buf else if is_full && not (grows (cap * 2)) then none else rest

unfoldable pub pipe_read_type : Fread → Bool → (ℕ → Bool) → Option Bytes → Option Bytes
unfolding type_loop
pipe_read_type fread memory grows opened = maybe opened none (λ output.
    let bytes =
      maybe (type_loop fread grows (length output + 1) (1024 * 1024) output []) none not_empty in
    if memory then bytes else none)
