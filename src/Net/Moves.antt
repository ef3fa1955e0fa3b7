-- ===== src/Net/Moves.antt =====
-- Total correctness of a sequence of sends and receives, one rule for each step.
use sync_clipboard.Prelude.{
  All, Bool, Bytes, List, [], ap, append-nil, append_assoc, arith, false, inl, inr, length, refl,
  same, take, true, ℕ, ◌++◌, ◌+◌, ◌<◌, ◌^◌, ◌∙◌, ◌∷◌, ◌≡◌, ◌≤◌, ◌⊎◌,
}
use sync_clipboard.Net.{
  Files, Io, Plenty, World, ask, done, next_grant, pure, recv_all, require, send_all, ◌>>=◌,
}
use sync_clipboard.Net.Send.{send_all-done}
use sync_clipboard.Net.Recv.{recv_all-done}

-- The network makes progress on the next `n` calls at least, and the system grants what is asked.
pub record Ready (n : ℕ) (w : World) : Type 0 where
  pub plenty : Plenty n w.answers
  pub granted : All (λ g. g ≡ true) w.grants

-- What has happened between two worlds.
pub record Effect (rest sent : Bytes) (w w' : World) : Type 0 where
  pub read : w'.inbox ≡ rest
  pub written : w'.outbox ≡ w.outbox ++ sent

-- With an allowance of `n` calls, `act` succeeds with `a`, reading exactly `recv` and sending
-- exactly `sent`; `touch` is what it does to the files.
pub record Moves {ℓ} {A : Type ℓ} (act : Io A) (n : ℕ) (recv sent : Bytes) (touch : Files → Files)
    (a : A) : Type ℓ where
  pub runs :
      (w : World) (m : ℕ) (rest : Bytes)
      → Ready (n + m) w
      → w.inbox ≡ recv ++ rest
      → (w' : World) × (act w ≡ (done a, w'))
        × Effect rest sent w w'
        × (w'.files ≡ touch w.files)
        × Ready m w'

abbrev pub untouched : Files → Files
untouched files = files

pub pure-Moves {ℓ} : {A : Type ℓ} (a : A) → Moves (pure a) 0 [] [] untouched a
pure-Moves a = record {
  runs = λ w m rest r e. (
    w,
    refl,
    record { read = e; written = rw append-nil },
    refl,
    record { plenty = (r.plenty.0, omega (arith, r.plenty.1)); granted = r.granted },
  );
}

pub require-Moves : (b : Bool) → b ≡ true → Moves (require b) 0 [] [] untouched tt
require-Moves true h = pure-Moves tt
require-Moves false h = cc

next_grant-Moves :
    (gs : List Bool) (w : World) (m : ℕ) (rest : Bytes)
    → All (λ g. g ≡ true) gs
    → Plenty m w.answers
    → w.inbox ≡ rest
    → (w' : World) × (next_grant gs w ≡ (done true, w'))
      × Effect rest [] w w'
      × (w'.files ≡ w.files)
      × (w'.answers ≡ w.answers)
      × ((w'.grants ≡ w.grants) ⊎ All (λ g. g ≡ true) w'.grants)
unfolding next_grant
next_grant-Moves [] w m rest gs p e =
    (w, refl, record { read = e; written = rw append-nil }, refl, refl, inl refl)
next_grant-Moves (g ∷ gs) w m rest (yes_g, all) p e = (
  record w { grants = gs },
  rw yes_g,
  record { read = e; written = rw append-nil },
  refl,
  refl,
  inr all,
)

pub ask-Moves : Moves ask 0 [] [] untouched true
unfolding ask
ask-Moves = record {
  runs = λ w m rest r e.
      let (w', a, eff, f, k, g) =
        next_grant-Moves w.grants w m rest r.granted (r.plenty.0, omega (arith, r.plenty.1)) e in
      (
        w',
        a,
        eff,
        f,
        record {
          plenty = rw k (r.plenty.0, omega (arith, r.plenty.1));
          granted = elim g [ inl same ↦ rw same r.granted | inr all ↦ all ];
        },
      );
}

pub send_all-Moves :
    (buf : Bytes) (len : ℕ)
    → len ≤ length buf
    → len < 2 ^ 31
    → Moves (send_all buf len) len [] (take len buf) untouched tt
send_all-Moves buf len h small = record {
  runs = λ w m rest r e.
      let (ls, s, plenty) = send_all-done buf len w m h small r.plenty in
      (
        record w { outbox = w.outbox ++ take len buf; answers = ls },
        s,
        record { read = e; written = refl },
        refl,
        record { plenty = plenty; granted = r.granted },
      );
}

pub recv_all-Moves :
    (n : ℕ) (b : Bytes) → n < 2 ^ 31 → length b ≡ n → Moves (recv_all n) n b [] untouched b
recv_all-Moves n b small l = record {
  runs = λ w m rest r e.
      let (ls, s, plenty) = recv_all-done n b rest w m small l e r.plenty in
      (
        record w { inbox = rest; answers = ls },
        s,
        record { read = refl; written = rw append-nil },
        refl,
        record { plenty = plenty; granted = r.granted },
      );
}

-- One step after another.
pub bind-Moves {ℓ κ} :
    {A : Type ℓ} {B : Type κ} (act : Io A) (f : A → Io B) {a : A} {b : B} {n k l : ℕ}
    {recv recv' both sent sent' out : Bytes} {touch touch' : Files → Files}
    → Moves act n recv sent touch a
    → Moves (f a) k recv' sent' touch' b
    → n + k ≡ l
    → recv ++ recv' ≡ both
    → sent ++ sent' ≡ out
    → Moves (act >>= f) l both out (λ files. touch' (touch files)) b
bind-Moves {A} {B} act f {a} {b} {n} {k} {l} {recv} {recv'} {both} {sent} {sent'} {out} {touch}
      {touch'} first second en er es =
    record {
      runs = λ w m rest r e.
          (after w m rest (
            first.runs w (k + m) (recv' ++ rest)
              (record { plenty = (r.plenty.0, omega (arith, r.plenty.1)); granted = r.granted })
              (e ∙ rw (← er) (append_assoc recv recv' rest))));
    }
  where
    after :
        (w : World) (m : ℕ) (rest : Bytes)
        → (w1 : World) × (act w ≡ (done a, w1))
          × Effect (recv' ++ rest) sent w w1
          × (w1.files ≡ touch w.files)
          × Ready (k + m) w1
        → (w' : World) × ((act >>= f) w ≡ (done b, w'))
          × Effect rest out w w'
          × (w'.files ≡ touch' (touch w.files))
          × Ready m w'
    after w m rest (w1, e1, eff, tch, ready) = join (second.runs w1 m rest ready eff.read)
      where
        join :
            (w2 : World) × (f a w1 ≡ (done b, w2))
              × Effect rest sent' w1 w2
              × (w2.files ≡ touch' w1.files)
              × Ready m w2
            → (w' : World) × ((act >>= f) w ≡ (done b, w'))
              × Effect rest out w w'
              × (w'.files ≡ touch' (touch w.files))
              × Ready m w'
        join (w2, e2, eff2, tch2, ready2) = (
          w2,
          rw e1 e2,
          record {
            read = eff2.read;
            written =
                eff2.written
                ∙ rw eff.written (append_assoc w.outbox sent sent' ∙ ap (◌++◌ w.outbox) es);
          },
          tch2 ∙ ap touch' tch,
          ready2,
        )
