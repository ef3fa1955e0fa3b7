-- ===== src/Digest/Toy.antt =====
-- A toy coder with the behaviour that OpenSSL documents, for runs.
use sync_clipboard.Digest.{BlockCoder}
use sync_clipboard.Digest.Block.{IsBlockCoder, missing}
use sync_clipboard.Prelude.{
  All, Bytes, [], ap, arith, length, refl, replicate, some, sym, ℕ, ◌*◌, ◌++◌, ◌+◌, ◌-◌, ◌/◌, ◌∙◌,
  ◌∷◌, ◌≡◌, ◌≢◌,
}

-- Codes of blocks: each byte is written as itself plus 100, and a fourth character closes a block.
abbrev pub toy_body : Bytes → Bytes
toy_body [] = []
toy_body (a ∷ []) = (a + 100) ∷ 99 ∷ []
toy_body (a ∷ b ∷ []) = (a + 100) ∷ (b + 100) ∷ 99 ∷ []
toy_body (a ∷ b ∷ c ∷ rest) = (a + 100) ∷ (b + 100) ∷ (c + 100) ∷ 99 ∷ toy_body rest

-- `=` and 99 stand for no byte.
abbrev value : ℕ → ℕ
value c = c - 100

abbrev pub toy_blocks : Bytes → Bytes
toy_blocks (a ∷ b ∷ c ∷ d ∷ rest) = value a ∷ value b ∷ value c ∷ toy_blocks rest
toy_blocks _ = []

abbrev pub toy_coder : BlockCoder
toy_coder = record {
  encode = λ bytes n. toy_body bytes ++ replicate (missing (length bytes)) b'=';
  decode = λ text n. some (toy_blocks text);
}

toy_body-length :
    (bytes : Bytes)
    → length (toy_body bytes) + missing (length bytes) ≡ 4 * ((length bytes + 2) / 3)
toy_body-length [] = omega arith
toy_body-length (a ∷ []) = omega arith
toy_body-length (a ∷ b ∷ []) = omega arith
toy_body-length (a ∷ b ∷ c ∷ rest) = omega (arith, toy_body-length rest)

toy_body-plain : (bytes : Bytes) → All (λ c. c ≢ b'=') (toy_body bytes)
toy_body-plain [] = tt
toy_body-plain (a ∷ []) = omega arith
toy_body-plain (a ∷ b ∷ []) = omega arith
toy_body-plain (a ∷ b ∷ c ∷ rest) =
    (omega arith, (omega arith, (omega arith, (omega arith, toy_body-plain rest))))

toy_decoded :
    (bytes : Bytes) (m : ℕ)
    → m ≡ missing (length bytes)
    → toy_blocks (toy_body bytes ++ replicate m b'=') ≡ bytes ++ replicate m 0
toy_decoded [] m e =
    ap (λ k. toy_blocks (replicate k b'=')) none_left ∙ sym (ap (λ k. replicate k 0) none_left)
  where
    none_left : m ≡ 0
    none_left = omega arith
toy_decoded (a ∷ []) m e =
    let two : m ≡ 2 = omega arith in
    let back : a + 100 - 100 ≡ a = omega arith in rw two (ap (λ v. v ∷ 0 ∷ 0 ∷ []) back)
toy_decoded (a ∷ b ∷ []) m e =
    let one : m ≡ 1 = omega arith in
    let back_a : a + 100 - 100 ≡ a = omega arith in
    let back_b : b + 100 - 100 ≡ b = omega arith in rw one (λ i. back_a i ∷ back_b i ∷ 0 ∷ [])
toy_decoded (a ∷ b ∷ c ∷ rest) m e =
    let back_a : a + 100 - 100 ≡ a = omega arith in
    let back_b : b + 100 - 100 ≡ b = omega arith in
    let back_c : c + 100 - 100 ≡ c = omega arith in
    λ i. back_a i ∷ back_b i ∷ back_c i ∷ toy_decoded rest m (omega arith) i

pub toy_coder-IsBlockCoder : IsBlockCoder toy_coder
toy_coder-IsBlockCoder = record {
  body = toy_body;
  encoded = λ bytes short. refl;
  body_length = toy_body-length;
  body_plain = toy_body-plain;
  decoded = λ bytes short. ap some (toy_decoded bytes (missing (length bytes)) refl);
}
