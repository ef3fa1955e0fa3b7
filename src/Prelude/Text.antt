-- ===== src/Prelude/Text.antt =====
-- C strings as lists of byte values, without the closing NUL; fixed byte constants from literals.
use Prim.Native.Nat.{ℕ}
use Prim.Native.Char.{code}
use Prim.Native.String.{String}
use mathlib.Core.Path.{◌≡◌}
use mathlib.Core.Logic.{◌↔◌}
use mathlib.Core.Bool.{Bool, true, false, ◌&&◌, ◌||◌}
use mathlib.Core.Option.{Option, none, some}
use mathlib.Core.List.{List, [], ◌∷◌}
use native.Mathlib.Omega.{arith}
use sync_clipboard.Prelude.Tests.{if◌then◌else◌, ◌==◌}

abbrev pub Bytes : Type 0
Bytes = List ℕ

-- The code points of a literal: its bytes, since every literal here is ASCII.
abbrev pub codes : String → Bytes
codes String.[] = []
codes (String.◌∷◌ c s) = code c ∷ codes s

-- `strcmp(a, b) == 0`, and `memcmp` over two blocks of the same length.
unfoldable pub same : Bytes → Bytes → Bool
same [] [] = true
same (x ∷ xs) (y ∷ ys) = x == y && same xs ys
same _ _ = false

pub same_iff : (a b : Bytes) → (same a b ≡ true) ↔ (a ≡ b)
unfolding same
same_iff (x ∷ a) (y ∷ b) = ground (arith, same_iff a b)
same_iff _ _ = ground arith

pub same_refl : (a : Bytes) → same a a ≡ true
same_refl a = (same_iff a a).1 (λ i. a)

-- `strncmp(s, p, strlen(p)) == 0`, which for a literal p is also `strstr(s, p) == s`.
abbrev pub starts_with : Bytes → Bytes → Bool
starts_with [] s = true
starts_with (x ∷ p) [] = false
starts_with (x ∷ p) (y ∷ s) = x == y && starts_with p s

-- `strstr(s, p) != NULL`
unfoldable pub contains : Bytes → Bytes → Bool
contains p [] = starts_with p []
contains p (y ∷ s) = starts_with p (y ∷ s) || contains p s

-- `char *at = strchr(s, c); if (at) *at = '\0';`
unfoldable pub cut_at : ℕ → Bytes → Bytes
cut_at c [] = []
cut_at c (x ∷ s) = let rest = cut_at c s in if x == c then [] else x ∷ rest

-- What stands behind the first c, if there is one.
unfoldable pub behind : ℕ → Bytes → Option Bytes
behind c [] = none
behind c (x ∷ s) = let rest = behind c s in if x == c then some s else rest

-- What stands behind the last c, if there is one: `strrchr` and one step on.
unfoldable pub behind_last : ℕ → Bytes → Option Bytes
behind_last c [] = none
behind_last c (x ∷ s) = elim (behind_last c s) [
  | some rest ↦ some rest
  | none ↦ if x == c then some s else none
]
