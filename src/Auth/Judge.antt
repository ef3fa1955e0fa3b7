-- ===== src/Auth/Judge.antt =====
-- What `ft_auth_recv` does with any peer: whom it lets in, and what the others get.
use sync_clipboard.Prelude.{
  Bool-cases, Bytes, List, Option-cases, [], ap, ap₂, arith, codes, drop, false, inl, inr, length,
  length-drop, min, none, refl, same, same_iff, some, suc, sym, take, take-append-drop, take_all,
  true, ℕ, ◌++◌, ◌<◌, ◌==◌, ◌^◌, ◌∙◌, ◌∷◌, ◌≡◌, ◌≢◌,
}
use sync_clipboard.Net.{Ret, World, done, fail, recv_all, send_all, send_loop, undefined}
use sync_clipboard.Auth.{accept_proof, auth_recv, check_proof, compute_hmac, reject, then_fail}
use sync_clipboard.Net.Send.{Sent, request-small, send_all-Sent}
use sync_clipboard.Net.Sound.{Ends, Ends-fail, Ends-weaken, Got, Kept, bind-Ends, recv_all-Ends}

-- The 36 bytes that an end with the key sends.
pub record Proof (hmac : Bytes → Bytes → Bytes) (file_id key_hex : Bytes) (bytes : Bytes)
    : Type 0 where
  pub mac : Bytes
  pub computed : compute_hmac hmac file_id key_hex ≡ some mac
  pub bytes_are : bytes ≡ codes "AUTH" ++ mac

-- The first `cut` bytes of a token have gone out, and nothing else has happened.
pub record Told (token : Bytes) (cut : ℕ) (w w' : World) : Type 0 where
  pub outbox : w'.outbox ≡ w.outbox ++ take cut token
  pub inbox : w'.inbox ≡ w.inbox
  pub files : w'.files ≡ w.files

abbrev pub Whole : Bytes → World → Unit {0} → World → Type 0
Whole token w u w' = Told token (length token) w w'

abbrev pub Partly : Bytes → World → World → Type 0
Partly token w w' = (cut : ℕ) × Told token cut w w'

send_loop-defined :
    (ks : List ℕ) (bs : Bytes) (w : World) → length bs < 2 ^ 31 → (send_loop ks bs w).0 ≢ undefined
unfolding send_loop
send_loop-defined ks [] w h = λ e. cc
send_loop-defined [] (b ∷ bs) w h = λ e. cc
send_loop-defined (k ∷ ks) (b ∷ bs) w h =
    let n : ℕ = min k (suc (length bs)) in
    rw (request-small (suc (length bs)) h, send_loop)
      (elim (Bool-cases (n == 0)) [
        | inl z ↦ rw z (λ e. cc)
        | inr z ↦ rw z (
            send_loop-defined ks (drop n (b ∷ bs))
              (record w { outbox = w.outbox ++ take n (b ∷ bs) })
              (omega (arith, length-drop n (b ∷ bs))))
      ])

Sent-Ends :
    (token : Bytes) (w : World) (r : Ret (Unit {0})) (w' : World)
    → Sent token w (r, w')
    → r ≢ undefined
    → Ends (Whole token w) (Partly token w) ⊥ (r, w')
Sent-Ends token w (done tt) w' s u = record {
  outbox =
      ap (λ v. v.outbox) s.world
      ∙ ap (◌++◌ w.outbox)
          (take_all s.cut token (s.whole refl) ∙ sym (take_all (length token) token (omega arith)));
  inbox = ap (λ v. v.inbox) s.world;
  files = ap (λ v. v.files) s.world;
}
Sent-Ends token w fail w' s u = (
  s.cut,
  record {
    outbox = ap (λ v. v.outbox) s.world;
    inbox = ap (λ v. v.inbox) s.world;
    files = ap (λ v. v.files) s.world;
  },
)
Sent-Ends token w undefined w' s u = u refl

send_all-Ends :
    (token : Bytes) (w : World)
    → length token ≡ 4
    → Ends (Whole token w) (Partly token w) ⊥ (send_all token 4 w)
unfolding send_all
send_all-Ends token w l =
    let t : take 4 token ≡ token = take_all 4 token (omega arith) in
    rw t (
      Sent-Ends token w (send_loop w.answers token w).0 (send_loop w.answers token w).1
        (rw t at (send_all-Sent token 4 w)) (send_loop-defined w.answers token w (omega arith)))

then_fail-Ends :
    (P : Unit {0} → World → Type 0) (token : Bytes) (w : World) (r : Ret (Unit {0}) × World)
    → Ends (Whole token w) (Partly token w) ⊥ r
    → Ends P (Partly token w) ⊥ (then_fail r)
then_fail-Ends P token w (done tt, w') h = (length token, h)
then_fail-Ends P token w (fail, w') h = h
then_fail-Ends P token w (undefined, w') h = h

-- A peer is let in: its first 36 bytes were the proof, and "AKOK" is the answer.
pub record Admitted (hmac : Bytes → Bytes → Bytes) (file_id key_hex : Bytes) (w : World)
    (u : Unit {0}) (w' : World) : Type 0 where
  pub bytes : Bytes
  pub proof : Proof hmac file_id key_hex bytes
  pub read : w.inbox ≡ bytes ++ w'.inbox
  pub answered : w'.outbox ≡ w.outbox ++ codes "AKOK"
  pub files : w'.files ≡ w.files

-- A peer is not let in: it did not send 36 bytes, and hears nothing; they were not the proof, and it
-- hears no more than "FAIL"; or they were, and the answer broke off.
pub data Refused (hmac : Bytes → Bytes → Bytes) (file_id key_hex : Bytes) (w w' : World)
    : Type 0 where
  unheard : Kept w w' → Refused hmac file_id key_hex w w'
  turned_away :
      (bytes : Bytes) (cut : ℕ)
      → w.inbox ≡ bytes ++ w'.inbox
      → ¬ Proof hmac file_id key_hex bytes
      → w'.outbox ≡ w.outbox ++ take cut (codes "FAIL")
      → w'.files ≡ w.files
      → Refused hmac file_id key_hex w w'
  broken_off :
      (bytes : Bytes) (cut : ℕ)
      → w.inbox ≡ bytes ++ w'.inbox
      → Proof hmac file_id key_hex bytes
      → w'.outbox ≡ w.outbox ++ take cut (codes "AKOK")
      → w'.files ≡ w.files
      → Refused hmac file_id key_hex w w'

module _ (hmac : Bytes → Bytes → Bytes) (file_id key_hex : Bytes) where
  -- Both parts of the buffer have to be right.
  pub not-Proof_head :
      (bytes : Bytes)
      → same (take 4 bytes) (codes "AUTH") ≡ false
      → ¬ Proof hmac file_id key_hex bytes
  not-Proof_head bytes e p =
      let t : take 4 bytes ≡ codes "AUTH" = ap (take 4) p.bytes_are in
      let yes : same (take 4 bytes) (codes "AUTH") ≡ true = (same_iff _ _).1 t in cc

  pub not-Proof-none :
      (bytes : Bytes)
      → compute_hmac hmac file_id key_hex ≡ none
      → ¬ Proof hmac file_id key_hex bytes
  not-Proof-none bytes e p = let c = p.computed in cc

  pub not-Proof_mac :
      (bytes mac : Bytes)
      → compute_hmac hmac file_id key_hex ≡ some mac
      → same (drop 4 bytes) mac ≡ false
      → ¬ Proof hmac file_id key_hex bytes
  not-Proof_mac bytes mac e differ p =
      let c = p.computed in
      let m : p.mac ≡ mac = cc in
      let d : drop 4 bytes ≡ mac = ap (drop 4) p.bytes_are ∙ m in
      let yes : same (drop 4 bytes) mac ≡ true = (same_iff _ _).1 d in cc

  reject-Ends :
      (buf : Bytes) (w0 w : World)
      → Got 36 w0 buf w
      → ¬ Proof hmac file_id key_hex buf
      → Ends (Admitted hmac file_id key_hex w0) (Refused hmac file_id key_hex w0) ⊥ (reject w)
  unfolding reject
  reject-Ends buf w0 w g wrong =
      Ends-fail _ (Partly (codes "FAIL") w) _ _ (then_fail (send_all (codes "FAIL") 4 w))
        (λ w' (cut, t).
          turned_away buf cut (g.read ∙ ap (◌++◌ buf) (sym t.inbox)) wrong
            (t.outbox ∙ ap (λ o. o ++ take cut (codes "FAIL")) g.kept.outbox)
            (t.files ∙ g.kept.files))
        (then_fail-Ends _ (codes "FAIL") w (send_all (codes "FAIL") 4 w)
          (send_all-Ends (codes "FAIL") w refl))

  accept_proof-Ends :
      (buf : Bytes) (w0 w : World)
      → Got 36 w0 buf w
      → Proof hmac file_id key_hex buf
      → Ends (Admitted hmac file_id key_hex w0) (Refused hmac file_id key_hex w0) ⊥ (accept_proof w)
  unfolding accept_proof
  accept_proof-Ends buf w0 w g p =
      Ends-fail _ (Partly (codes "AKOK") w) _ _ (send_all (codes "AKOK") 4 w)
        (λ w' (cut, t).
          broken_off buf cut (g.read ∙ ap (◌++◌ buf) (sym t.inbox)) p
            (t.outbox ∙ ap (λ o. o ++ take cut (codes "AKOK")) g.kept.outbox)
            (t.files ∙ g.kept.files))
        (Ends-weaken (Whole (codes "AKOK") w) _ _ _ (send_all (codes "AKOK") 4 w)
          (λ u w' t. record {
            bytes = buf;
            proof = p;
            read = g.read ∙ ap (◌++◌ buf) (sym t.inbox);
            answered = t.outbox ∙ ap (λ o. o ++ codes "AKOK") g.kept.outbox;
            files = t.files ∙ g.kept.files;
          })
          (send_all-Ends (codes "AKOK") w refl))

  check_proof-Ends :
      (buf : Bytes) (w0 w : World)
      → Got 36 w0 buf w
      → Ends
          (Admitted hmac file_id key_hex w0)
          (Refused hmac file_id key_hex w0)
          ⊥
          (check_proof hmac file_id key_hex buf w)
  unfolding check_proof
  check_proof-Ends buf w0 w g = elim (Bool-cases (same (take 4 buf) (codes "AUTH"))) [
    | inr e ↦ rw (e, check_proof) (reject-Ends buf w0 w g (not-Proof_head buf e))
    | inl e ↦ elim (Option-cases (compute_hmac hmac file_id key_hex)) [
      | inl n ↦ rw (e, n, check_proof) (reject-Ends buf w0 w g (not-Proof-none buf n))
      | inr (mac, m) ↦ elim (Bool-cases (same (drop 4 buf) mac)) [
        | inr d ↦ rw (e, m, d, check_proof) (reject-Ends buf w0 w g (not-Proof_mac buf mac m d))
        | inl d ↦
            rw (e, m, d, check_proof)
              (accept_proof-Ends buf w0 w g (record {
                mac = mac;
                computed = m;
                bytes_are =
                    sym (take-append-drop 4 buf)
                    ∙ ap₂ ◌++◌ ((same_iff (take 4 buf) (codes "AUTH")).0 e)
                        ((same_iff (drop 4 buf) mac).0 d);
              }))
      ]
    ]
  ]

  -- `ft_auth_recv`, against any peer and network, always stays inside what C defines. It returns 0
  -- only to a peer whose first 36 bytes are the proof that the shared key and the file id give, after
  -- answering "AKOK". Any other peer hears nothing or a beginning of "FAIL"; a failure after the
  -- right proof means that the answer broke off. No file is touched.
  pub auth_recv-Ends :
      (w : World)
      → Ends
          (Admitted hmac file_id key_hex w)
          (Refused hmac file_id key_hex w)
          ⊥
          (auth_recv hmac file_id key_hex w)
  unfolding auth_recv
  auth_recv-Ends w =
      bind-Ends (Got 36 w) _ _ _ (recv_all 36 w) _
        (Ends-fail (Got 36 w) (Kept w) _ ⊥ (recv_all 36 w) (λ v k. unheard k)
          (recv_all-Ends 36 w (omega arith)))
        (λ buf w1 g. check_proof-Ends buf w w1 g)
