-- ===== src/Net/Sound.antt =====
-- Partial correctness against any network: what holds when a call has succeeded, when it has
-- failed, and whether it stays inside what C defines.
use sync_clipboard.Prelude.{
  Bool, Bool-cases, Bytes, List, [], ap, ap₂, arith, drop, false, inl, inr, length, length-take,
  min, refl, subst, suc, sym, take, take-append-drop, true, zero, ℕ, ◌++◌, ◌-◌, ◌<◌, ◌==◌, ◌^◌, ◌∙◌,
  ◌∷◌, ◌≡◌, ◌≢◌,
}
use sync_clipboard.Net.{
  Io, Ret, World, ask, bind, done, fail, next_grant, recv_all, recv_loop, require, undefined,
}
use sync_clipboard.Net.Recv.{Received, recv_all-Received}
use sync_clipboard.Net.Send.{request-small}

-- `P` holds of a result and its world, `F` of the world that a failure leaves, and `U` says if the
-- third outcome is allowed.
abbrev pub Ends {ℓ} :
    {A : Type ℓ} → (A → World → Type 0) → (World → Type 0) → Type 0 → Ret A × World → Type 0
Ends P F U (done a, w) = P a w
Ends P F U (fail, w) = F w
Ends P F U (undefined, w) = U

pub bind-Ends {ℓ κ} :
    {A : Type ℓ} {B : Type κ} (Q : A → World → Type 0) (P : B → World → Type 0) (F : World → Type 0)
    (U : Type 0) (r : Ret A × World) (f : A → Io B)
    → Ends Q F U r
    → ((a : A) (w1 : World) → Q a w1 → Ends P F U (f a w1))
    → Ends P F U (bind r f)
bind-Ends Q P F U (done a, w1) f h k = k a w1 h
bind-Ends Q P F U (fail, w1) f h k = h
bind-Ends Q P F U (undefined, w1) f h k = h

pub Ends-eq-done {ℓ} :
    {A : Type ℓ} (P : A → World → Type 0) (F : World → Type 0) (U : Type 0) {r : Ret A × World}
    {a : A} {w : World}
    → r ≡ (done a, w)
    → Ends P F U r
    → P a w
Ends-eq-done P F U e h = subst (Ends P F U) e h

pub Ends-fail {ℓ} :
    {A : Type ℓ} (P : A → World → Type 0) (F G : World → Type 0) (U : Type 0) (r : Ret A × World)
    → ((w : World) → F w → G w)
    → Ends P F U r
    → Ends P G U r
Ends-fail P F G U (done a, w) k h = h
Ends-fail P F G U (fail, w) k h = k w h
Ends-fail P F G U (undefined, w) k h = h

pub Ends-weaken {ℓ} :
    {A : Type ℓ} (P Q : A → World → Type 0) (F : World → Type 0) (U : Type 0) (r : Ret A × World)
    → ((a : A) (w : World) → P a w → Q a w)
    → Ends P F U r
    → Ends Q F U r
Ends-weaken P Q F U (done a, w) k h = k a w h
Ends-weaken P Q F U (fail, w) k h = h
Ends-weaken P Q F U (undefined, w) k h = h

pub require-Ends :
    (P : Unit {0} → World → Type 0) (F : World → Type 0) (U : Type 0) (b : Bool) (w : World)
    → (b ≡ true → P tt w)
    → F w
    → Ends P F U (require b w)
require-Ends P F U true w h f = h refl
require-Ends P F U false w h f = f

-- What every receive keeps.
pub record Kept (w w' : World) : Type 0 where
  pub outbox : w'.outbox ≡ w.outbox
  pub files : w'.files ≡ w.files

-- Bytes that were received stood first in the inbox, as many as asked for.
pub record Got (n : ℕ) (w : World) (b : Bytes) (w' : World) : Type 0 where
  pub read : w.inbox ≡ b ++ w'.inbox
  pub size : length b ≡ n
  pub kept : Kept w w'

Received-Ends :
    (n : ℕ) (w : World) (r : Ret Bytes) (w' : World) (U : Type 0)
    → Received n [] w (r, w')
    → (r ≡ undefined → U)
    → Ends (Got n w) (Kept w) U (r, w')
Received-Ends n w (done b) w' U r u =
    let (cut_is, enough, b_is) = r.whole b refl in
    record {
      read =
          sym (take-append-drop n w.inbox)
          ∙ ap₂ ◌++◌ (sym b_is)
              (ap (λ k. drop k w.inbox) (sym cut_is) ∙ ap (λ v. v.inbox) (sym r.world));
      size = ap length b_is ∙ omega (arith, length-take n w.inbox);
      kept = record { outbox = ap (λ v. v.outbox) r.world; files = ap (λ v. v.files) r.world };
    }
Received-Ends n w fail w' U r u = record {
  outbox = ap (λ v. v.outbox) r.world;
  files = ap (λ v. v.files) r.world;
}
Received-Ends n w undefined w' U r u = u refl

recv_loop-defined :
    (ks : List ℕ) (n : ℕ) (got : Bytes) (w : World)
    → n < 2 ^ 31
    → (recv_loop ks n got w).0 ≢ undefined
unfolding recv_loop
recv_loop-defined ks zero got w h = λ e. cc
recv_loop-defined [] (suc n) got w h = λ e. cc
recv_loop-defined (k ∷ ks) (suc n) got w h =
    let c : ℕ = min k (min (suc n) (length w.inbox)) in
    rw (request-small (suc n) h, recv_loop)
      (elim (Bool-cases (c == 0)) [
        | inl z ↦ rw z (λ e. cc)
        | inr z ↦ rw z (
            recv_loop-defined ks (suc n - c) (got ++ take c w.inbox)
              (record w { inbox = drop c w.inbox }) (omega arith))
      ])

-- Below 2 GiB a receive stays inside what C defines, whatever the network does.
pub recv_all-Ends : (n : ℕ) (w : World) → n < 2 ^ 31 → Ends (Got n w) (Kept w) ⊥ (recv_all n w)
unfolding recv_all
recv_all-Ends n w small =
    Received-Ends n w _ _ ⊥ (recv_all-Received n w) (recv_loop-defined w.answers n [] w small)

-- At any length it is at least sound.
pub recv_all-Ends_any : (n : ℕ) (w : World) → Ends (Got n w) (Kept w) Unit (recv_all n w)
recv_all-Ends_any n w = Received-Ends n w _ _ Unit (recv_all-Received n w) (λ e. tt)

abbrev pub Asked : World → Bool → World → Type 0
Asked w g w' = Kept w w' × (w'.inbox ≡ w.inbox)

next_grant-Ends :
    (F : World → Type 0) (U : Type 0) (gs : List Bool) (w : World)
    → Ends (Asked w) F U (next_grant gs w)
unfolding next_grant
next_grant-Ends F U [] w = (record { outbox = refl; files = refl }, refl)
next_grant-Ends F U (g ∷ gs) w = (record { outbox = refl; files = refl }, refl)

pub ask-Ends : (F : World → Type 0) (U : Type 0) (w : World) → Ends (Asked w) F U (ask w)
unfolding ask
ask-Ends F U w = next_grant-Ends F U w.grants w
