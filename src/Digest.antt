-- ===== src/Digest.antt =====
-- common/ft/ft_b64_sha.c: base64 in whole blocks, around the block functions of OpenSSL,
-- and SHA-256 of a block and of a file.
pub mod Block
pub mod File
mod Tests
pub mod Toy
use mathlib.Core.Option
use sync_clipboard.Prelude.Int.{ℤ, int_of}
use sync_clipboard.Prelude.{
  Bool, Bytes, Option, get_or, if◌then◌else◌, length, ltb, none, some, take, ℕ, ◌&&◌, ◌-◌, ◌==◌,
}
use sync_clipboard.Codec.{bytes_to_hex}

-- `EVP_EncodeBlock`, of bytes and their number as an `int`, and `EVP_DecodeBlock`, `none` for a negative count.
pub record BlockCoder : Type 0 where
  pub encode : Bytes → ℤ → Bytes
  pub decode : Bytes → ℤ → Option Bytes

-- `ft_sha256`: two digits, as "%02x" prints them, for each byte of the digest.
unfoldable pub sha256_hex : (Bytes → Bytes) → Bytes → Bytes
sha256_hex digest bytes = bytes_to_hex (digest bytes)

-- `ft_base64_encode`, if there is memory.
unfoldable pub block_encode : BlockCoder → Bool → Bytes → Option Bytes
block_encode coder memory bytes =
    if memory then some (coder.encode bytes (int_of (length bytes))) else none

-- `if (b64_len > k && b64[b64_len - k] == '=') n--;`
unfoldable pub drop_pad : Bytes → ℕ → Bytes → Bytes
drop_pad b64 k out =
    if ltb k (length b64) && get_or b64 (length b64 - k) 0 == b'='
    then take (length out - 1) out
    else out

-- `ft_base64_decode`: the bytes that it returns with `*out_len`. The count `n` goes down to 0 at
-- least, since `EVP_DecodeBlock` gives three bytes for a block of four.
unfoldable pub block_decode : BlockCoder → Bool → Bytes → Option Bytes
unfolding drop_pad
block_decode coder memory b64 =
    let decoded =
      Option.map (λ out. drop_pad b64 2 (drop_pad b64 1 out))
        (coder.decode b64 (int_of (length b64))) in
    if memory then decoded else none
