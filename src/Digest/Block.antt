-- ===== src/Digest/Block.antt =====
-- What is encoded is decoded.
use sync_clipboard.Prelude.Int.{pos, int_of, int_of-small}
use sync_clipboard.Prelude.{
  ==_iff, All, Bool-cases, Bytes, [], ap, append-nil, append_assoc, arith, false, get_or, inl, inr,
  length, length-append, length-replicate, ltb, ltb→lt, lt→ltb, refl, replicate, some, suc, sym,
  take-append, true, zero, ℕ, ◌%◌, ◌*◌, ◌++◌, ◌+◌, ◌-◌, ◌/◌, ◌<◌, ◌==◌, ◌^◌, ◌∙◌, ◌∷◌, ◌≡◌, ◌≢◌,
  ◌≤◌, ◌⊎◌,
}
use sync_clipboard.Digest.{BlockCoder, block_decode, block_encode, drop_pad}

-- How many bytes the last block lacks.
abbrev pub missing : ℕ → ℕ
missing n = (3 - n % 3) % 3

-- What OpenSSL documents, of at most 2^30 bytes: a block of four characters for three bytes, and a block is filled up with
-- '=' in the text and with zeros in what is decoded; '=' stands nowhere else.
pub record IsBlockCoder (coder : BlockCoder) : Type 0 where
  pub body : (bytes : Bytes) → Bytes
  pub encoded :
      (bytes : Bytes)
      → length bytes ≤ 2 ^ 30
      → coder.encode bytes (pos (length bytes))
        ≡ body bytes ++ replicate (missing (length bytes)) b'='
  pub body_length :
      (bytes : Bytes) → length (body bytes) + missing (length bytes) ≡ 4 * ((length bytes + 2) / 3)
  pub body_plain : (bytes : Bytes) → All (λ c. c ≢ b'=') (body bytes)
  pub decoded :
      (bytes : Bytes)
      → length bytes ≤ 2 ^ 30
      → let b64 = coder.encode bytes (pos (length bytes)) in
        coder.decode b64 (pos (length b64)) ≡ some (bytes ++ replicate (missing (length bytes)) 0)

get_or-append-left :
    (xs ys : Bytes) (i d : ℕ) → i < length xs → get_or (xs ++ ys) i d ≡ get_or xs i d
get_or-append-left [] ys i d h = absurd (omega arith)
get_or-append-left (x ∷ xs) ys zero d h = refl
get_or-append-left (x ∷ xs) ys (suc i) d h = get_or-append-left xs ys i d (omega arith)

get_or-append-right :
    (xs ys : Bytes) (i j d : ℕ) → i ≡ length xs + j → get_or (xs ++ ys) i d ≡ get_or ys j d
get_or-append-right [] ys i j d h =
    let same_place : i ≡ j = omega (arith, h) in ap (λ k. get_or ys k d) same_place
get_or-append-right (x ∷ xs) ys zero j d h = absurd (omega arith)
get_or-append-right (x ∷ xs) ys (suc i) j d h = get_or-append-right xs ys i j d (omega arith)

All-get_or : (P : ℕ → Type 0) (xs : Bytes) (i d : ℕ) → All P xs → i < length xs → P (get_or xs i d)
All-get_or P [] i d h lt = absurd (omega arith)
All-get_or P (x ∷ xs) zero d (p, h) lt = p
All-get_or P (x ∷ xs) (suc i) d (p, h) lt = All-get_or P xs i d h (omega arith)

-- A character that is no padding is left alone, and one that is takes a byte off the end.
drop_pad-plain :
    (b64 : Bytes) (k : ℕ) (out : Bytes)
    → (k < length b64 → get_or b64 (length b64 - k) 0 ≢ b'=')
    → drop_pad b64 k out ≡ out
unfolding drop_pad
drop_pad-plain b64 k out h = elim (Bool-cases (ltb k (length b64))) [
  | inr e ↦ rw (e, drop_pad) refl
  | inl e ↦
      let differ : get_or b64 (length b64 - k) 0 ≢ b'=' = h (ltb→lt k (length b64) e) in
      let plain : (get_or b64 (length b64 - k) 0 == b'=') ≡ false = ground arith in
      rw (e, plain, drop_pad) refl
]

drop_pad-pad :
    (b64 : Bytes) (k : ℕ) (out : Bytes) (last : ℕ)
    → k < length b64
    → get_or b64 (length b64 - k) 0 ≡ b'='
    → drop_pad b64 k (out ++ last ∷ []) ≡ out
unfolding drop_pad
drop_pad-pad b64 k out last lt e =
    let is : (get_or b64 (length b64 - k) 0 == b'=') ≡ true = (==_iff _ _).1 e in
    rw (lt→ltb k (length b64) lt, is, drop_pad)
      (take-append (length (out ++ last ∷ []) - 1) out (last ∷ [])
        (omega (arith, length-append out (last ∷ []))))

-- A position in the body, counted from the end.
body_plain_at :
    (body pad : Bytes) (k : ℕ)
    → All (λ c. c ≢ b'=') body
    → length pad < k
    → k < length (body ++ pad)
    → get_or (body ++ pad) (length (body ++ pad) - k) 0 ≢ b'='
body_plain_at body pad k h far lt =
    let l : length (body ++ pad) ≡ length body + length pad = length-append body pad in
    let inside : length (body ++ pad) - k < length body = omega arith in
    rw (get_or-append-left body pad (length (body ++ pad) - k) 0 inside)
      (All-get_or (λ c. c ≢ b'=') body (length (body ++ pad) - k) 0 h inside)

pad_at :
    (body pad : Bytes) (k j : ℕ)
    → k + j ≡ length pad
    → get_or (body ++ pad) (length (body ++ pad) - k) 0 ≡ get_or pad j 0
pad_at body pad k j h =
    get_or-append-right body pad (length (body ++ pad) - k) j 0
      (omega (arith, length-append body pad))

abbrev pad : ℕ → Bytes
pad m = replicate m b'='

strip :
    (m : ℕ) (body bytes : Bytes)
    → m ≤ 2
    → (m ≡ 0) ⊎ (2 < length (body ++ pad m))
    → All (λ c. c ≢ b'=') body
    → drop_pad (body ++ pad m) 2 (drop_pad (body ++ pad m) 1 (bytes ++ replicate m 0)) ≡ bytes
strip zero body bytes le long h =
    ap (drop_pad (body ++ []) 2)
      (drop_pad-plain (body ++ []) 1 (bytes ++ []) (body_plain_at body [] 1 h (omega arith)))
    ∙ drop_pad-plain (body ++ []) 2 (bytes ++ []) (body_plain_at body [] 2 h (omega arith))
    ∙ append-nil bytes
strip (suc zero) body bytes le long h =
    let wide : 2 < length (body ++ pad 1) = elim long [
      | inl e ↦ absurd (omega arith)
      | inr w ↦ w
    ] in
    ap (drop_pad (body ++ pad 1) 2)
      (drop_pad-pad (body ++ pad 1) 1 bytes 0 (omega arith) (pad_at body (pad 1) 1 0 (omega arith)))
    ∙ drop_pad-plain (body ++ pad 1) 2 bytes (body_plain_at body (pad 1) 2 h (omega arith))
strip (suc (suc zero)) body bytes le long h =
    let wide : 2 < length (body ++ pad 2) = elim long [
      | inl e ↦ absurd (omega arith)
      | inr w ↦ w
    ] in
    ap (λ out. drop_pad (body ++ pad 2) 2 (drop_pad (body ++ pad 2) 1 out))
      (sym (append_assoc bytes (0 ∷ []) (0 ∷ [])))
    ∙ ap (drop_pad (body ++ pad 2) 2) (
        drop_pad-pad (body ++ pad 2) 1 (bytes ++ 0 ∷ []) 0 (omega arith)
          (pad_at body (pad 2) 1 1 (omega arith)))
    ∙ drop_pad-pad (body ++ pad 2) 2 bytes 0 (omega arith) (pad_at body (pad 2) 2 0 (omega arith))
strip (suc (suc (suc m))) body bytes le long h = absurd (omega arith)

-- `ft_base64_decode` gives back what `ft_base64_encode` has encoded, if it is of 2^30 bytes at most: the one or two
-- bytes by which the last block was filled up are taken off, and no other.
pub block_decode-block_encode :
    (coder : BlockCoder) (bytes : Bytes)
    → IsBlockCoder coder
    → length bytes ≤ 2 ^ 30
    → (b64 : Bytes) × (block_encode coder true bytes ≡ some b64)
      × (block_decode coder true b64 ≡ some bytes)
unfolding block_encode block_decode
block_decode-block_encode coder bytes c short = (
  b64,
  ap some (ap (coder.encode bytes) cast_bytes),
  rw (cast_text, c.decoded bytes short)
      (ap (λ t. some (drop_pad t 2 (drop_pad t 1 (bytes ++ replicate (missing (length bytes)) 0))))
          (c.encoded bytes short)
        ∙ ap some (
            strip (missing (length bytes)) (c.body bytes) bytes (omega arith) wide
              (c.body_plain bytes))),
)
  where
    b64 : Bytes
    b64 = coder.encode bytes (pos (length bytes))

    cast_bytes : int_of (length bytes) ≡ pos (length bytes)
    cast_bytes = int_of-small (length bytes) (omega (arith, short))

    cast_text : int_of (length b64) ≡ pos (length b64)
    cast_text = int_of-small (length b64) (
        omega (
          arith,
          ap length (c.encoded bytes short),
          length-append (c.body bytes) (replicate (missing (length bytes)) b'='),
          length-replicate {A = ℕ} (missing (length bytes)) b'=',
          c.body_length bytes,
          short,
        ))

    wide :
        (missing (length bytes) ≡ 0)
        ⊎ (2 < length (c.body bytes ++ replicate (missing (length bytes)) b'='))
    wide = elim (Bool-cases (missing (length bytes) == 0)) [
      | inl e ↦ inl ((==_iff _ _).0 e)
      | inr e ↦
          let some_left : missing (length bytes) ≢ 0 = ground arith in
          inr (
            omega (
              arith,
              length-append (c.body bytes) (replicate (missing (length bytes)) b'='),
              length-replicate {A = ℕ} (missing (length bytes)) b'=',
              c.body_length bytes,
            ))
    ]
