-- ===== src/Net/Send.antt =====
-- What `ft_send_all` puts on the wire.
use sync_clipboard.Prelude.{
  Bool-cases, Bytes, List, Option-cases, [], ap, append-nil, append_assoc, arith, drop, inl, inr,
  length, length-drop, length-take, min, refl, some, suc, take, take-add, take-append-drop, ℕ, ◌++◌,
  ◌+◌, ◌-◌, ◌<◌, ◌==◌, ◌^◌, ◌∙◌, ◌∷◌, ◌≡◌, ◌≢◌, ◌≤◌,
}
use sync_clipboard.Net.{Plenty, Ret, World, done, fail, request, send_all, send_loop, undefined}

pub request-small : (n : ℕ) → n < 2 ^ 31 → request n ≡ some n
request-small n h = ground arith

pub request-le : (n q : ℕ) → request n ≡ some q → q ≤ n
request-le n q h = ground arith

-- A round in which the kernel takes `k` bytes or all that are left.
send_loop-step :
    (k : ℕ) (ks : List ℕ) (b : ℕ) (bs : Bytes) (w : World)
    → 0 < k
    → suc (length bs) < 2 ^ 31
    → let n = min k (suc (length bs)) in
      send_loop (k ∷ ks) (b ∷ bs) w
      ≡ send_loop ks (drop n (b ∷ bs)) (record w { outbox = w.outbox ++ take n (b ∷ bs) })
unfolding send_loop
send_loop-step k ks b bs w pos small = ground (arith, request-small (suc (length bs)) small)

-- With the peer reading and every call making progress, all bytes go out in order, however the
-- kernel cuts them up, and an allowance of `m` answers is left.
send_loop-done :
    (ks : List ℕ) (bs : Bytes) (w : World) (m : ℕ)
    → length bs < 2 ^ 31
    → Plenty (length bs + m) ks
    → (ls : List ℕ) × (send_loop ks bs w
        ≡ (done tt, record w { outbox = w.outbox ++ bs; answers = ls }))
      × Plenty m ls
send_loop-done ks [] w m small (ps, len) =
    (ks, rw append-nil (unfold send_loop in refl), (ps, omega arith))
send_loop-done [] (b ∷ bs) w m small (ps, len) = absurd (omega arith)
send_loop-done (k ∷ ks) (b ∷ bs) w m small ((p, ps), len) =
    let n : ℕ = min k (suc (length bs)) in
    let left : length (drop n (b ∷ bs)) ≡ suc (length bs) - n = length-drop n (b ∷ bs) in
    let w' : World = record w { outbox = w.outbox ++ take n (b ∷ bs) } in
    let (ls, e, plenty) =
      send_loop-done ks (drop n (b ∷ bs)) w' m (omega arith) (ps, omega arith) in
    (
      ls,
      send_loop-step k ks b bs w p small
          ∙ e
          ∙ ap (λ o. (done tt, record w { outbox = o; answers = ls }))
              (append_assoc w.outbox (take n (b ∷ bs)) (drop n (b ∷ bs))
                ∙ ap (◌++◌ w.outbox) (take-append-drop n (b ∷ bs))),
      plenty,
    )

-- Whatever the kernel answers: what goes out is the first `cut` bytes, nothing else of the world
-- changes but the answers, and 0 is returned only after the last byte.
pub record Sent (bs : Bytes) (w : World) (out : Ret (Unit {0}) × World) : Type 0 where
  pub cut : ℕ
  pub after : List ℕ
  pub world : out.1 ≡ record w { outbox = w.outbox ++ take cut bs; answers = after }
  pub whole : out.0 ≡ done tt → length bs ≤ cut

Sent-more :
    (n : ℕ) (bs : Bytes) (w : World) (out : Ret (Unit {0}) × World)
    → n ≤ length bs
    → Sent (drop n bs) (record w { outbox = w.outbox ++ take n bs }) out
    → Sent bs w out
Sent-more n bs w out h s = record {
  cut = n + s.cut;
  after = s.after;
  world =
      s.world
      ∙ ap (λ o. record w { outbox = o; answers = s.after })
          (append_assoc w.outbox (take n bs) (take s.cut (drop n bs))
            ∙ ap (◌++◌ w.outbox) (take-add n s.cut (n + s.cut) bs refl));
  whole = λ e. omega (arith, s.whole e, length-drop n bs);
}

Sent-nil :
    (ks : List ℕ) (bs : Bytes) (w : World) (r : Ret (Unit {0}))
    → r ≢ done tt
    → Sent bs w (r, record w { answers = ks })
Sent-nil ks bs w r h = record {
  cut = 0;
  after = ks;
  world = rw append-nil;
  whole = λ e. absurd (h e);
}

send_loop-Sent : (ks : List ℕ) (bs : Bytes) (w : World) → Sent bs w (send_loop ks bs w)
unfolding send_loop
send_loop-Sent ks [] w = record {
  cut = 0;
  after = ks;
  world = rw append-nil;
  whole = λ e. omega arith;
}
send_loop-Sent [] (b ∷ bs) w = record {
  cut = 0;
  after = [];
  world = rw append-nil;
  whole = λ e. cc;
}
send_loop-Sent (k ∷ ks) (b ∷ bs) w = elim (Option-cases (request (suc (length bs)))) [
  | inl e ↦ rw (e, send_loop) (Sent-nil ks (b ∷ bs) w undefined (λ x. cc))
  | inr (q, e) ↦
      rw (e, send_loop)
        (elim (Bool-cases (min k q == 0)) [
          | inl z ↦ rw z (Sent-nil ks (b ∷ bs) w fail (λ x. cc))
          | inr z ↦ rw z (
              Sent-more (min k q) (b ∷ bs) w _ (omega (arith, request-le (suc (length bs)) q e)) (
                send_loop-Sent ks (drop (min k q) (b ∷ bs))
                  (record w { outbox = w.outbox ++ take (min k q) (b ∷ bs) })))
        ])
]

-- The code as it is called: the first `len` bytes of a buffer that has them.
pub send_all-done :
    (buf : Bytes) (len : ℕ) (w : World) (m : ℕ)
    → len ≤ length buf
    → len < 2 ^ 31
    → Plenty (len + m) w.answers
    → (ls : List ℕ) × (send_all buf len w
        ≡ (done tt, record w { outbox = w.outbox ++ take len buf; answers = ls }))
      × Plenty m ls
unfolding send_all
send_all-done buf len w m e small (ps, l) =
    send_loop-done w.answers (take len buf) w m (omega (arith, length-take len buf))
      (ps, omega (arith, length-take len buf))

pub send_all-Sent : (buf : Bytes) (len : ℕ) (w : World) → Sent (take len buf) w (send_all buf len w)
unfolding send_all
send_all-Sent buf len w = send_loop-Sent w.answers (take len buf) w
