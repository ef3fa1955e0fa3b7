-- ===== src/Wire.antt =====
-- common/ft/ft_proto.c: the file frame, FT_MAGIC(4) || file_id(36) || file_size(8, big endian) ||
-- data, in memory and streamed through a file in chunks of 256 KiB. `max_size` is `g_ft_max_size`.
pub mod Size
pub mod Frame
pub mod RoundTrip
pub mod Stream
pub mod Cap
pub mod Store
mod Tests
use mathlib.Core.Option
use sync_clipboard.Prelude.{
  Bytes, Option, [], codes, drop, if◌then◌else◌, leb, length, ltb, maybe, min, none, not, replicate,
  same, some, suc, take, zero, ℕ, ◌%◌, ◌&&◌, ◌*◌, ◌++◌, ◌+◌, ◌-◌, ◌/◌, ◌==◌, ◌^◌, ◌||◌, ◌∷◌,
}
use sync_clipboard.Net.{
  Io, Ret, World, ask, done, fail, pure, recv_all, require, send_all, undefined, ◌>>=◌, ◌>>◌,
}

-- The fields of `FtFileInfo` that the frame carries. `file_id` is the C string in its array of 64
-- bytes; `data` is `none` for a null pointer, and its length is `data_len`.
pub record FtFileInfo : Type 0 where
  pub file_id : Bytes
  pub file_size : ℕ
  pub content : Option Bytes

abbrev pub ft_magic : Bytes
ft_magic = codes "SYNC"

abbrev pub ft_uuid_len : ℕ
ft_uuid_len = 36

abbrev pub ft_chunk_size : ℕ
ft_chunk_size = 256 * 1024

-- A C string as the zero-filled array that holds it.
abbrev pub char_array : ℕ → Bytes → Bytes
char_array n s = take n (s ++ replicate n 0)

-- The C string that a buffer holds: its bytes up to the first NUL.
abbrev pub c_string : Bytes → Bytes
c_string [] = []
c_string (c ∷ cs) = if c == 0 then [] else c ∷ c_string cs

-- `for (i = 7; i >= 0; i--) { sb[i] = fs & 0xFF; fs >>= 8; }`: the bytes filled so far follow.
unfoldable pub size_bytes_loop : ℕ → ℕ → Bytes → Bytes
size_bytes_loop zero fs sb = sb
size_bytes_loop (suc i) fs sb = size_bytes_loop i (fs / 2 ^ 8) (fs % 2 ^ 8 ∷ sb)

abbrev pub size_bytes : ℕ → Bytes
size_bytes fs = size_bytes_loop 8 fs []

-- `for (i = 0; i < 8; i++) fs = (fs << 8) | sb[i]` over `uint64_t`; the low byte is free.
unfoldable pub read_size : ℕ → Bytes → ℕ
read_size fs [] = fs
read_size fs (b ∷ sb) = read_size (fs * 2 ^ 8 % 2 ^ 64 + b) sb

-- What `send_file` and `send_file_from_path` send first.
unfoldable pub send_header : Bytes → ℕ → Io (Unit {0})
unfolding send_all size_bytes_loop
send_header file_id file_size = do
  send_all ft_magic 4
  send_all (char_array 64 file_id) ft_uuid_len
  send_all (size_bytes file_size) 8

unfoldable pub send_data : Option Bytes → Io (Unit {0})
unfolding send_all
send_data none = pure tt
send_data (some bs) = send_all bs (length bs)

unfoldable pub send_file : FtFileInfo → Io (Unit {0})
unfolding send_header send_data
send_file info = do send_header info.file_id info.file_size; send_data info.content

-- `if (fs == 0 || fs > g_ft_max_size) return -1;`
unfoldable pub check_size : ℕ → ℕ → Io (Unit {0})
check_size max_size fs = require (not (fs == 0 || ltb max_size fs))

-- What both receivers read first, the id and the size, in three parts: the size once it is read,
-- the id before it, and the magic, which has to be right, before both.
unfoldable sized : ℕ → Bytes → ℕ → Io (Bytes × ℕ)
unfolding check_size
sized max_size fid fs = do check_size max_size fs; pure (c_string fid, fs)

unfoldable pub recv_size : ℕ → Bytes → Io (Bytes × ℕ)
unfolding recv_all read_size sized
recv_size max_size fid = do sb ← recv_all 8; sized max_size fid (read_size 0 sb)

unfoldable pub recv_id : ℕ → Io (Bytes × ℕ)
unfolding recv_all recv_size
recv_id max_size = do fid ← recv_all ft_uuid_len; recv_size max_size fid

unfoldable pub recv_header : ℕ → Io (Bytes × ℕ)
unfolding recv_all same recv_id
recv_header max_size = do magic ← recv_all 4; require (same magic ft_magic); recv_id max_size

-- The file's bytes, read into memory.
unfoldable pub recv_content : Bytes → ℕ → Io FtFileInfo
unfolding recv_all
recv_content fid fs = do
  bs ← recv_all fs
  pure (record { file_id = fid; file_size = fs; content = some bs })

-- `info->data = malloc(info->data_len); if (!info->data) return -1;` and the read.
unfoldable pub recv_body : Bytes × ℕ → Io FtFileInfo
unfolding ask recv_content
recv_body (fid, fs) = do allocated ← ask; require allocated; recv_content fid fs

unfoldable pub recv_file : ℕ → Io FtFileInfo
unfolding recv_header recv_body
recv_file max_size = do got ← recv_header max_size; recv_body got

-- `fopen(path, "rb")`: the contents, if the file is there and can be opened.
unfoldable pub open_read : Bytes → Io Bytes
unfolding ask
open_read path = do
  allows ← ask
  require allows
  (λ w. elim (w.files path) [ none ↦ (fail, w) | some bs ↦ (done bs, w) ])

-- `fread(chunk, 1, to_read, f)` with `n == to_read`: the bytes, and what is left of the file.
unfoldable pub read_chunk : ℕ → Bytes → Io (Bytes × Bytes)
unfolding ask
read_chunk to_read left = do
  allows ← ask
  require (allows && leb to_read (length left))
  pure (take to_read left, drop to_read left)

-- The loop of `ft_send_file_from_path`, with `remaining` and the unread part of the file. Each
-- round takes at least one byte off `remaining`, so `remaining` rounds of fuel are enough.
unfoldable pub send_chunks : ℕ → ℕ → Bytes → Io (Unit {0})
unfolding read_chunk send_all
send_chunks zero remaining left = pure tt
send_chunks (suc fuel) remaining left =
    let to_read = min ft_chunk_size remaining in
    let round : Io (Unit {0}) = (do
      (chunk, rest) ← read_chunk to_read left
      send_all chunk to_read
      send_chunks fuel (remaining - to_read) rest) in
    if remaining == 0 then pure tt else round

-- `ft_send_file_from_path` once the file is open.
unfoldable pub send_opened : Bytes → ℕ → Bytes → Io (Unit {0})
unfolding send_header ask send_chunks
send_opened file_id file_size f = do
  send_header file_id file_size
  allocated ← ask
  require allocated
  send_chunks file_size file_size f

unfoldable pub send_file_from_path : Bytes → ℕ → Bytes → Io (Unit {0})
unfolding open_read send_opened
send_file_from_path file_id file_size path = do f ← open_read path; send_opened file_id file_size f

abbrev pub update : (Bytes → Option Bytes) → Bytes → Option Bytes → Bytes → Option Bytes
update files path v q = if same path q then v else files q

-- `fopen(path, "wb")` truncates the file, or makes it.
unfoldable pub open_write : Bytes → Io (Unit {0})
unfolding ask
open_write path = do
  allows ← ask
  require allows
  (λ w. (done tt, record w { files = update w.files path (some []) }))

-- `fwrite(chunk, 1, to_read, f) == to_read`; what a failed write leaves in the file is removed by
-- the caller.
unfoldable pub write_chunk : Bytes → Bytes → Bytes → Io Bytes
unfolding ask
write_chunk path written chunk = do
  allows ← ask
  require allows
  (λ w.
      (done (written ++ chunk), record w { files = update w.files path (some (written ++ chunk)) }))

-- The loop of `ft_recv_file_to_path`, with `remaining` and the bytes written so far. Fuel as above.
unfoldable pub recv_chunks : ℕ → Bytes → ℕ → Bytes → Io (Unit {0})
unfolding recv_all write_chunk
recv_chunks zero path remaining written = pure tt
recv_chunks (suc fuel) path remaining written =
    let to_read = min ft_chunk_size remaining in
    let round : Io (Unit {0}) = (do
      chunk ← recv_all to_read
      written' ← write_chunk path written chunk
      recv_chunks fuel path (remaining - to_read) written') in
    if remaining == 0 then pure tt else round

-- `if (ret != 0) remove(output_path); return ret;`, where `remove` is taken to succeed.
unfoldable pub remove_unless_done : Bytes → Ret (Unit {0}) × World → Ret (Unit {0}) × World
remove_unless_done path (done u, w) = (done u, w)
remove_unless_done path (fail, w) = (fail, record w { files = update w.files path none })
remove_unless_done path (undefined, w) = (undefined, w)

-- What the file holds after `fclose`: if the last bytes cannot be written, which the code does not look
-- at, only the first ones.
abbrev pub closed_file : Option ℕ → Bytes → Bytes
closed_file lost bytes = maybe lost bytes (λ n. take n bytes)

-- `fclose` of the file that is written; what a failed transfer leaves is removed.
unfoldable pub close_file : Option ℕ → Bytes → Io (Unit {0})
close_file lost path w = (
  done tt,
  record w { files = update w.files path (Option.map (closed_file lost) (w.files path)) },
)

-- `ft_recv_file_to_path` once the chunk buffer is there.
unfoldable pub stream_body : Option ℕ → Bytes → Bytes × ℕ → Io FtFileInfo
unfolding recv_chunks remove_unless_done close_file
stream_body lost path got = do
  (λ w. remove_unless_done path (recv_chunks got.1 path got.1 [] w))
  close_file lost path
  pure (record { file_id = got.0; file_size = got.1; content = none })

-- `lost` says how `fclose` ends: `none` if all is written.
unfoldable pub recv_file_to_path : Option ℕ → ℕ → Bytes → Io FtFileInfo
unfolding recv_header open_write ask stream_body
recv_file_to_path lost max_size path = do
  got ← recv_header max_size
  open_write path
  allocated ← ask
  require allocated
  stream_body lost path got
