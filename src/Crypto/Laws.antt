-- ===== src/Crypto/Laws.antt =====
-- What OpenSSL documents of the calls in common/crypto.c.
use sync_clipboard.Prelude.Int.{pos}
use sync_clipboard.Prelude.{All, Bytes, length, some, ◌%◌, ◌<◌, ◌^◌, ◌≡◌, ◌≤◌}
use sync_clipboard.Prelude.Int.{pos}
use sync_clipboard.Codec.Base64.{IsStandard}
use sync_clipboard.Prelude.Int.{pos}
use sync_clipboard.Crypto.{Openssl}

-- The calls take the number of bytes as an `int`, and a memory buffer of OpenSSL holds less than 2^31
-- bytes of text: what is said of them is said up to 2^30 bytes.
abbrev pub IsShort : Bytes → Type 0
IsShort bytes = length bytes ≤ 2 ^ 30

-- GCM keeps the length, its tag has 16 bytes, and what was sealed opens under the same key and nonce.
-- Base64 text is in the standard alphabet, in groups of four, and reads back.
pub record IsSound (ssl : Openssl) : Type 0 where
  pub seals :
      (key nonce text ct tag : Bytes)
      → IsShort text
      → ssl.gcm_seal key nonce text (pos (length text)) ≡ some (ct, tag)
      → (ssl.gcm_open key nonce ct tag ≡ some text) × (length ct ≡ length text) × (length tag ≡ 16)
  pub encodes :
      (bytes text : Bytes)
      → IsShort bytes
      → ssl.bio_write bytes (pos (length bytes)) ≡ some text
      → (ssl.bio_read text ≡ some bytes) × All IsStandard text × (length text % 4 ≡ 0)

-- No call fails that is given that much, and one byte at least where it is base64.
pub record IsWorking (ssl : Openssl) : Type 0 where
  pub seals :
      (key nonce text : Bytes)
      → IsShort text
      → (ct : Bytes) × (tag : Bytes) × (ssl.gcm_seal key nonce text (pos (length text))
          ≡ some (ct, tag))
  pub encodes :
      (bytes : Bytes)
      → IsShort bytes
      → 0 < length bytes
      → (text : Bytes) × (ssl.bio_write bytes (pos (length bytes)) ≡ some text)
