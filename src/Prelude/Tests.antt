-- ===== src/Prelude/Tests.antt =====
-- Boolean tests on the native numbers, the conditional, and case lemmas that keep the equation.
use Prim.Native.Nat.{ℕ, zero, suc, ◌+◌, ◌≤◌, ◌<◌, compare, Ordering}
use mathlib.Core.Path.{◌≡◌, refl, sym, ap, ◌∙◌}
use mathlib.Core.Logic.{◌↔◌, ◌⊎◌, inl, inr}
use mathlib.Core.Bool.{Bool, true, false, ◌&&◌}
use mathlib.Core.Option.{Option, none, some}
use native.Mathlib.Omega.{arith}

abbrev pub ltb : ℕ → ℕ → Bool
ltb a b = elim (compare a b) [ Ordering.lt ↦ true | _ ↦ false ]

abbrev pub leb : ℕ → ℕ → Bool
leb a b = elim (compare a b) [ Ordering.gt ↦ false | _ ↦ true ]

infix 50 ◌==◌
abbrev pub ◌==◌ : ℕ → ℕ → Bool
a == b = elim (compare a b) [ Ordering.eq ↦ true | _ ↦ false ]

infix 1 if◌then◌else◌
abbrev pub if◌then◌else◌ {ℓ} : {A : Type ℓ} → Bool → A → A → A
if true then x else y = x
if false then x else y = y

pub ltb→lt : (a b : ℕ) → ltb a b ≡ true → a < b
ltb→lt a b h = ground arith

pub ltb→le : (a b : ℕ) → ltb a b ≡ false → b ≤ a
ltb→le a b h = ground arith

pub lt→ltb : (a b : ℕ) → a < b → ltb a b ≡ true
lt→ltb a b h = ground arith

pub le→ltb : (a b : ℕ) → b ≤ a → ltb a b ≡ false
le→ltb a b h = ground arith

pub leb→le : (a b : ℕ) → leb a b ≡ true → a ≤ b
leb→le a b h = ground arith

pub ==_iff : (a b : ℕ) → ((a == b) ≡ true) ↔ (a ≡ b)
==_iff a b = ground arith

pub &&-eq-true : (a b : Bool) → (a && b) ≡ true → (a ≡ true) × (b ≡ true)
&&-eq-true true b h = (refl, h)
&&-eq-true false b h = cc

pub ruleset tests = (arith, ltb→lt, ltb→le, lt→ltb, le→ltb, leb→le)

pub Bool-cases : (b : Bool) → (b ≡ true) ⊎ (b ≡ false)
Bool-cases true = inl refl
Bool-cases false = inr refl

pub Option-cases {ℓ} : {A : Type ℓ} (o : Option A) → (o ≡ none) ⊎ ((a : A) × (o ≡ some a))
Option-cases none = inl refl
Option-cases (some a) = inr (a, refl)

-- Every one of the `count` numbers from `start` on passes a test, which evaluation decides.
unfoldable pub sweep : (ℕ → Bool) → ℕ → ℕ → Bool
sweep test start zero = true
sweep test start (suc count) = sweep test (suc start) count && test start

pub sweep-eq-true :
    (test : ℕ → Bool) (start count : ℕ) {v : ℕ}
    → sweep test start count ≡ true
    → start ≤ v
    → v < start + count
    → test v ≡ true
unfolding sweep
sweep-eq-true test start zero swept from to = absurd (omega arith)
sweep-eq-true test start (suc count) {v} swept from to =
    let (later, now) = &&-eq-true (sweep test (suc start) count) (test start) swept in
    elim (Bool-cases (start == v)) [
      | inl e ↦ ap test (sym ((==_iff start v).0 e)) ∙ now
      | inr e ↦ sweep-eq-true test (suc start) count later (ground arith) (omega arith)
    ]

-- What follows of an optional value, and of none; with what holds of both outcomes of a test.
unfoldable pub maybe {ℓ κ} : {A : Type ℓ} {B : Type κ} → Option A → B → (A → B) → B
maybe none b f = b
maybe (some a) b f = f a

module _ {ℓ κ} {B : Type ℓ} (P : B → Type κ) where
  pub maybe-both {μ} :
      {A : Type μ} (o : Option A) (b : B) (f : A → B)
      → (o ≡ none → P b)
      → ((a : A) → o ≡ some a → P (f a))
      → P (maybe o b f)
  unfolding maybe
  maybe-both none b f h k = h refl
  maybe-both (some a) b f h k = k a refl

  pub if-both : (t : Bool) (x y : B) → (t ≡ true → P x) → (t ≡ false → P y) → P (if t then x else y)
  if-both true x y h k = h refl
  if-both false x y h k = k refl

-- What follows where the outcome is known.
pub maybe-at {ℓ κ} :
    {A : Type ℓ} {B : Type κ} (o : Option A) (a : A) (b : B) (f : A → B)
    → o ≡ some a
    → maybe o b f ≡ f a
unfolding maybe
maybe-at o a b f e = ap (λ p. maybe p b f) e

pub if-at {ℓ} : {A : Type ℓ} (t : Bool) (x y : A) → t ≡ true → (if t then x else y) ≡ x
if-at t x y e = ap (λ u. if u then x else y) e

-- Two follow-ups of the same value, related in both outcomes.
pub maybe-related {ℓ κ ν μ} :
    {A : Type ℓ} {B : Type κ} {B' : Type ν} (R : B → B' → Type μ) (o : Option A) (b : B) (f : A → B)
    (b' : B') (f' : A → B')
    → R b b'
    → ((a : A) → R (f a) (f' a))
    → R (maybe o b f) (maybe o b' f')
unfolding maybe
maybe-related R none b f b' f' h k = h
maybe-related R (some a) b f b' f' h k = k a

pub true_is_false : true ≡ false → ⊥
true_is_false p = cc

pub none_is_some {ℓ} : {A : Type ℓ} (a : A) → none ≡ some a → ⊥
none_is_some a p = cc
