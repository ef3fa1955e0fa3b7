-- ===== src/Net/Recv.antt =====
-- What `ft_recv_all` reads from the wire.
use sync_clipboard.Prelude.{
  Bool-cases, Bytes, List, Option-cases, [], ap, append-nil, append_assoc, arith, drop, drop-add,
  drop-append, inl, inr, length, length-append, length-drop, min, refl, suc, take, take-add,
  take-append, zero, ℕ, ◌++◌, ◌+◌, ◌-◌, ◌<◌, ◌==◌, ◌^◌, ◌∙◌, ◌∷◌, ◌≡◌, ◌≢◌, ◌≤◌,
}
use sync_clipboard.Net.{Plenty, Ret, World, done, fail, recv_all, recv_loop, request, undefined}
use sync_clipboard.Net.Send.{request-le, request-small}

recv_loop-step :
    (k : ℕ) (ks : List ℕ) (m : ℕ) (got : Bytes) (w : World)
    → 0 < k
    → suc m < 2 ^ 31
    → suc m ≤ length w.inbox
    → let n = min k (suc m) in
      recv_loop (k ∷ ks) (suc m) got w
      ≡ recv_loop ks (suc m - n) (got ++ take n w.inbox) (record w { inbox = drop n w.inbox })
unfolding recv_loop
recv_loop-step k ks m got w pos small h =
    rw (request-small (suc m) small, recv_loop)
      (let e : min k (min (suc m) (length w.inbox)) ≡ min k (suc m) = omega arith in
        rw e (ground arith))

recv_loop-done :
    (ks : List ℕ) (n : ℕ) (got : Bytes) (w : World) (m : ℕ)
    → n < 2 ^ 31
    → n ≤ length w.inbox
    → Plenty (n + m) ks
    → (ls : List ℕ) × (recv_loop ks n got w
        ≡ (done (got ++ take n w.inbox), record w { inbox = drop n w.inbox; answers = ls }))
      × Plenty m ls
recv_loop-done ks zero got w m small h (ps, l) =
    (ks, rw append-nil (unfold recv_loop in refl), (ps, omega arith))
recv_loop-done [] (suc n) got w m small h (ps, l) = absurd (omega arith)
recv_loop-done (k ∷ ks) (suc n) got w m small h ((p, ps), l) =
    let c : ℕ = min k (suc n) in
    let w' : World = record w { inbox = drop c w.inbox } in
    let (ls, e, plenty) =
      recv_loop-done ks (suc n - c) (got ++ take c w.inbox) w' m (omega arith)
        (omega (arith, length-drop c w.inbox)) (ps, omega arith) in
    (
      ls,
      recv_loop-step k ks n got w p small h ∙ e ∙ (λ i. (
        done (glue c (omega arith) i),
        record w { inbox = rest c (omega arith) i; answers = ls },
      )),
      plenty,
    )
  where
    glue :
        (c : ℕ)
        → c ≤ suc n
        → (got ++ take c w.inbox) ++ take (suc n - c) (drop c w.inbox) ≡ got ++ take (suc n) w.inbox
    glue c le =
        append_assoc got _ _ ∙ ap (◌++◌ got) (take-add c (suc n - c) (suc n) w.inbox (omega arith))

    rest : (c : ℕ) → c ≤ suc n → drop (suc n - c) (drop c w.inbox) ≡ drop (suc n) w.inbox
    rest c le = drop-add c (suc n - c) (suc n) w.inbox (omega arith)

-- Whatever the kernel answers: the bytes taken off the wire are a first part of what waits there,
-- nothing else of the world changes but the answers, and 0 is returned only with all `n` bytes.
pub record Received (n : ℕ) (got : Bytes) (w : World) (out : Ret Bytes × World) : Type 0 where
  pub cut : ℕ
  pub after : List ℕ
  pub world : out.1 ≡ record w { inbox = drop cut w.inbox; answers = after }
  pub whole :
      (b : Bytes) → out.0 ≡ done b → (cut ≡ n) × (n ≤ length w.inbox) × (b ≡ got ++ take n w.inbox)

Received-nil :
    (ks : List ℕ) (n : ℕ) (got : Bytes) (w : World) (r : Ret Bytes)
    → ((b : Bytes) → r ≢ done b)
    → Received n got w (r, record w { answers = ks })
Received-nil ks n got w r h = record {
  cut = 0;
  after = ks;
  world = refl;
  whole = λ b e. absurd (h b e);
}

Received-more :
    (c n : ℕ) (got : Bytes) (w : World) (out : Ret Bytes × World)
    → c ≤ n
    → c ≤ length w.inbox
    → Received (n - c) (got ++ take c w.inbox) (record w { inbox = drop c w.inbox }) out
    → Received n got w out
Received-more c n got w out h l r = record {
  cut = c + r.cut;
  after = r.after;
  world =
      r.world
      ∙ ap (λ b. record w { inbox = b; answers = r.after })
          (drop-add c r.cut (c + r.cut) w.inbox refl);
  whole = λ b e.
      let (x, y, z) = r.whole b e in
      (
        omega arith,
        omega (arith, length-drop c w.inbox),
        z ∙ append_assoc got _ _ ∙ ap (◌++◌ got) (take-add c (n - c) n w.inbox (omega arith)),
      );
}

recv_loop-Received :
    (ks : List ℕ) (n : ℕ) (got : Bytes) (w : World) → Received n got w (recv_loop ks n got w)
unfolding recv_loop
recv_loop-Received ks zero got w = record {
  cut = 0;
  after = ks;
  world = refl;
  whole = λ b e. (refl, omega arith, rw append-nil (ground arith));
}
recv_loop-Received [] (suc n) got w = Received-nil [] (suc n) got w fail (λ b e. cc)
recv_loop-Received (k ∷ ks) (suc n) got w = elim (Option-cases (request (suc n))) [
  | inl e ↦ rw (e, recv_loop) (Received-nil ks (suc n) got w undefined (λ b x. cc))
  | inr (q, e) ↦
      rw (e, recv_loop)
        (elim (Bool-cases (min k (min q (length w.inbox)) == 0)) [
          | inl z ↦ rw z (Received-nil ks (suc n) got w fail (λ b x. cc))
          | inr z ↦
              let c : ℕ = min k (min q (length w.inbox)) in
              rw z (
                Received-more c (suc n) got w _ (omega (arith, request-le (suc n) q e))
                  (omega arith)
                  (recv_loop-Received ks (suc n - c) (got ++ take c w.inbox)
                    (record w { inbox = drop c w.inbox })))
        ])
]

pub recv_all-done :
    (n : ℕ) (b rest : Bytes) (w : World) (m : ℕ)
    → n < 2 ^ 31
    → length b ≡ n
    → w.inbox ≡ b ++ rest
    → Plenty (n + m) w.answers
    → (ls : List ℕ) × (recv_all n w ≡ (done b, record w { inbox = rest; answers = ls }))
      × Plenty m ls
unfolding recv_all
recv_all-done n b rest w m small l e plenty =
    let (ls, r, left) =
      recv_loop-done w.answers n [] w m small (omega (arith, ap length e, length-append b rest))
        plenty in
    (
      ls,
      r ∙ (λ i. (
        done ((ap (take n) e ∙ take-append n b rest l) i),
        record w { inbox = (ap (drop n) e ∙ drop-append n b rest l) i; answers = ls },
      )),
      left,
    )

pub recv_all-Received : (n : ℕ) (w : World) → Received n [] w (recv_all n w)
unfolding recv_all
recv_all-Received n w = recv_loop-Received w.answers n [] w
