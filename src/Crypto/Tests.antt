-- ===== src/Crypto/Tests.antt =====
-- The witnesses of the theorems, with the toy cipher.

use sync_clipboard.Codec.{base64_decode, hex_to_bytes, normalise_base64}
use sync_clipboard.Crypto.{gcm_decrypt, gcm_encrypt, gcm_frame}
use sync_clipboard.Crypto.Gcm.{Opened, gcm_decrypt-Opened, gcm_decrypt-gcm_encrypt}
use sync_clipboard.Crypto.Toy.{
  toy_key, toy_key-IsKey, toy_ssl, toy_ssl-IsSound, toy_ssl-IsWorking, toy_write,
}
use sync_clipboard.Prelude.{Bytes, arith, codes, refl, replicate, same, some, true, ◌≡◌}

abbrev nonce : Bytes
nonce = replicate 12 7

gcm_decrypt-gcm_encrypt_example :
    (sealed : Bytes) × (gcm_encrypt toy_ssl true (some nonce) (codes "hi") toy_key ≡ some sealed)
    × (gcm_decrypt toy_ssl true sealed toy_key ≡ some (codes "hi"))
gcm_decrypt-gcm_encrypt_example =
    gcm_decrypt-gcm_encrypt toy_ssl toy_key nonce (codes "hi") toy_ssl-IsSound toy_ssl-IsWorking
      toy_key-IsKey refl (omega arith)

abbrev sealed_text : Bytes
sealed_text = toy_write (gcm_frame nonce (codes "hi") (replicate 16 32))

sealed_opens : gcm_decrypt toy_ssl true sealed_text toy_key ≡ some (codes "hi")
unfolding gcm_decrypt hex_to_bytes base64_decode normalise_base64 same
sealed_opens = refl

gcm_decrypt-Opened_example : Opened toy_ssl true sealed_text toy_key (codes "hi")
gcm_decrypt-Opened_example =
    gcm_decrypt-Opened toy_ssl true sealed_text toy_key (codes "hi") sealed_opens
