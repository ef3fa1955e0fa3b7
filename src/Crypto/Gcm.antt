-- ===== src/Crypto/Gcm.antt =====
-- Sealed text opens again, and nothing opens that GCM does not.
use sync_clipboard.Prelude.Int.{pos, int_of, int_of-small}
use sync_clipboard.Prelude.{
  All, Bool, Bool-cases, Bytes, Option, Option-cases, [], ap, append-nil, arith, drop, drop-append,
  false, inl, inr, length, length-append, length-drop, length-take, ltb, none, not, refl, replicate,
  some, suc, sym, take, take-append, take-append-drop, true, ℕ, ◌%◌, ◌++◌, ◌+◌, ◌-◌, ◌==◌, ◌^◌,
  ◌||◌, ◌∙◌, ◌∷◌, ◌≡◌, ◌≢◌, ◌≤◌,
}
use sync_clipboard.Codec.{base64_decode, hex_to_bytes}
use sync_clipboard.Codec.Base64.{IsStandard, base64_decode_spellings, padding}
use sync_clipboard.Crypto.{Openssl, gcm_decrypt, gcm_encrypt, gcm_frame, open_frame}
use sync_clipboard.Auth.Handshake.{IsKey}
use sync_clipboard.Codec.Hex.{bytes_to_hex-hex_to_bytes}
use sync_clipboard.Crypto.Laws.{IsSound, IsWorking}
use sync_clipboard.Wire.Frame.{frame}

open_frame-gcm_frame :
    (ssl : Openssl) (key nonce ct tag : Bytes)
    → length nonce ≡ 12
    → length tag ≡ 16
    → open_frame ssl true key (gcm_frame nonce ct tag) ≡ ssl.gcm_open key nonce ct tag
unfolding open_frame
open_frame-gcm_frame ssl key nonce ct tag n t =
    let body : Bytes = nonce ++ (ct ++ tag) in
    let len : length body ≡ 12 + (length ct + 16) =
      length-append nonce (ct ++ tag) ∙ omega (arith, length-append ct tag) in
    let long : ltb (length (2 ∷ body)) 29 ≡ false = ground arith in
    let ct_len : length (2 ∷ body) - 1 - 12 - 16 ≡ length ct = omega arith in
    rw (long, ct_len)
      (λ i.
        ssl.gcm_open key (take-append 12 nonce (ct ++ tag) n i)
          ((ap (take (length ct)) (drop-append 12 nonce (ct ++ tag) n)
              ∙ take-append (length ct) ct tag refl)
            i)
          ((ap (drop (length ct)) (drop-append 12 nonce (ct ++ tag) n)
              ∙ drop-append (length ct) ct tag refl)
            i))

-- Standard text in whole groups is decoded as it is.
base64_decode_whole :
    (bio_read : Bytes → Option Bytes) (text : Bytes)
    → All IsStandard text
    → length text % 4 ≡ 0
    → base64_decode bio_read true text ≡ bio_read text
base64_decode_whole bio_read text h whole =
    let no_padding : (4 - length text % 4) % 4 ≡ 0 = omega (arith, whole) in
    let none_left : padding (length text) ≡ [] = ap (λ k. replicate k b'=') no_padding in
    (base64_decode_spellings bio_read true text h).1
    ∙ ap bio_read (ap (◌++◌ text) none_left ∙ append-nil text)

-- `aes_gcm_decrypt` gives back what `aes_gcm_encrypt` has sealed under the same key of 64 hexadecimal
-- digits, for any nonce and any text whose frame has 2^30 bytes at most, which is far from where the
-- casts of its length to `int` change it, if there is memory and OpenSSL's calls succeed; and then
-- sealing succeeds.
pub gcm_decrypt-gcm_encrypt :
    (ssl : Openssl) (key_hex nonce text : Bytes)
    → IsSound ssl
    → IsWorking ssl
    → IsKey key_hex
    → length nonce ≡ 12
    → length text + 29 ≤ 2 ^ 30
    → (sealed : Bytes) × (gcm_encrypt ssl true (some nonce) text key_hex ≡ some sealed)
      × (gcm_decrypt ssl true sealed key_hex ≡ some text)
unfolding gcm_encrypt gcm_decrypt
gcm_decrypt-gcm_encrypt ssl key_hex nonce text sound works (size, hex) n short =
    with_key (bytes_to_hex-hex_to_bytes key_hex 32 size hex).0
      (bytes_to_hex-hex_to_bytes key_hex 32 size hex).1
  where
    cast_text : int_of (length text) ≡ pos (length text)
    cast_text = int_of-small (length text) (omega (arith, short))

    short_text : length text ≤ 2 ^ 30
    short_text = omega (arith, short)

    -- The frame is short too.
    framed :
        (ct tag : Bytes)
        → length ct ≡ length text
        → length tag ≡ 16
        → length (gcm_frame nonce ct tag) ≤ 2 ^ 30
    framed ct tag c t =
        let a = length-append nonce (ct ++ tag) in
        let b = length-append ct tag in omega (arith, a, b, c, t, n, short)

    finish :
        (key ct tag sealed : Bytes)
        → hex_to_bytes key_hex 32 ≡ some key
        → length (gcm_frame nonce ct tag) ≤ 2 ^ 30
        → ssl.gcm_seal key nonce text (pos (length text)) ≡ some (ct, tag)
        → ssl.bio_write (gcm_frame nonce ct tag) (pos (length (gcm_frame nonce ct tag)))
          ≡ some sealed
        → (sealed : Bytes) × (gcm_encrypt ssl true (some nonce) text key_hex ≡ some sealed)
          × (gcm_decrypt ssl true sealed key_hex ≡ some text)
    finish key ct tag sealed k fits s w =
        let (reads, standard, whole) = sound.encodes (gcm_frame nonce ct tag) sealed fits w in
        let (opens, same_length, t) = sound.seals key nonce text ct tag short_text s in
        let cast_frame = int_of-small (length (gcm_frame nonce ct tag)) (omega (arith, fits)) in
        (
          sealed,
          rw (k, cast_text, s, cast_frame, gcm_encrypt) w,
          rw (k, base64_decode_whole ssl.bio_read sealed standard whole ∙ reads, gcm_decrypt)
              (open_frame-gcm_frame ssl key nonce ct tag n t ∙ opens),
        )

    with_key :
        (key : Bytes)
        → hex_to_bytes key_hex 32 ≡ some key
        → (sealed : Bytes) × (gcm_encrypt ssl true (some nonce) text key_hex ≡ some sealed)
          × (gcm_decrypt ssl true sealed key_hex ≡ some text)
    with_key key k =
        let (ct, tag, s) = works.seals key nonce text short_text in
        let (opens, same_length, t) = sound.seals key nonce text ct tag short_text s in
        let fits = framed ct tag same_length t in
        let (sealed, w) = works.encodes (gcm_frame nonce ct tag) fits (omega arith) in
        finish key ct tag sealed k fits s w

-- The parts of a frame that opens.
record Framed (ssl : Openssl) (key frame text : Bytes) : Type 0 where
  nonce : Bytes
  ct : Bytes
  tag : Bytes
  frame_is : frame ≡ gcm_frame nonce ct tag
  nonce_length : length nonce ≡ 12
  tag_length : length tag ≡ 16
  opens : ssl.gcm_open key nonce ct tag ≡ some text

open_frame-Framed :
    (ssl : Openssl) (memory : Bool) (key frame text : Bytes)
    → open_frame ssl memory key frame ≡ some text
    → Framed ssl key frame text
unfolding open_frame
open_frame-Framed ssl memory key [] text e = cc
open_frame-Framed ssl memory key (version ∷ body) text e =
    elim (Bool-cases (ltb (length (version ∷ body)) 29 || not (version == 2))) [
      | inl b ↦ absurd (no_text text (rw (b, open_frame) at e))
      | inr b ↦ elim (Bool-cases memory) [
        | inr m ↦ absurd (no_text text (rw (b, m, open_frame) at e))
        | inl m ↦
            let v : version ≡ 2 = ground arith in
            let long : 29 ≤ suc (length body) = ground arith in
            let behind : Bytes = drop 12 body in
            let ct_len : ℕ = length (version ∷ body) - 1 - 12 - 16 in
            record {
              nonce = take 12 body;
              ct = take ct_len behind;
              tag = drop ct_len behind;
              frame_is = λ i.
                  v i
                  ∷ (sym (take-append-drop 12 body)
                        ∙ ap (◌++◌ (take 12 body)) (sym (take-append-drop ct_len behind)))
                      i;
              nonce_length = omega (arith, length-take 12 body, long);
              tag_length = omega (arith, length-drop ct_len behind, length-drop 12 body, long);
              opens = rw (b, m, open_frame) at e;
            }
      ]
    ]
  where
    no_text : (text : Bytes) → none ≢ some text
    no_text text p = cc

-- A frame that passed `aes_gcm_decrypt`.
pub record Opened (ssl : Openssl) (memory : Bool) (input key_hex text : Bytes) : Type 0 where
  pub key : Bytes
  pub nonce : Bytes
  pub ct : Bytes
  pub tag : Bytes
  pub key_is : hex_to_bytes key_hex 32 ≡ some key
  pub frame_is : base64_decode ssl.bio_read memory input ≡ some (gcm_frame nonce ct tag)
  pub nonce_length : length nonce ≡ 12
  pub tag_length : length tag ≡ 16
  pub opens : ssl.gcm_open key nonce ct tag ≡ some text

-- `aes_gcm_decrypt` returns a text only if the input decodes to a frame of version 2, with a nonce of
-- 12 bytes and a tag of 16, which GCM opens to that text under the key; a shorter frame, another
-- version, a bad key or a wrong tag give NULL.
pub gcm_decrypt-Opened :
    (ssl : Openssl) (memory : Bool) (input key_hex text : Bytes)
    → gcm_decrypt ssl memory input key_hex ≡ some text
    → Opened ssl memory input key_hex text
unfolding gcm_decrypt
gcm_decrypt-Opened ssl memory input key_hex text e = elim (Option-cases (hex_to_bytes key_hex 32)) [
  | inl k ↦ absurd (no_text text (rw (k, gcm_decrypt) at e))
  | inr (key, k) ↦ elim (Option-cases (base64_decode ssl.bio_read memory input)) [
    | inl f ↦ absurd (no_text text (rw (k, f, gcm_decrypt) at e))
    | inr (frame, f) ↦ opened key frame k f (rw (k, f, gcm_decrypt) at e)
  ]
]
  where
    no_text : (text : Bytes) → none ≢ some text
    no_text text p = cc

    opened :
        (key frame : Bytes)
        → hex_to_bytes key_hex 32 ≡ some key
        → base64_decode ssl.bio_read memory input ≡ some frame
        → open_frame ssl memory key frame ≡ some text
        → Opened ssl memory input key_hex text
    opened key frame k f o =
        let g : Framed ssl key frame text = open_frame-Framed ssl memory key frame text o in
        record {
          key = key;
          nonce = g.nonce;
          ct = g.ct;
          tag = g.tag;
          key_is = k;
          frame_is = f ∙ ap some g.frame_is;
          nonce_length = g.nonce_length;
          tag_length = g.tag_length;
          opens = g.opens;
        }
