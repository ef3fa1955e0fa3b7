-- ===== src/Client/X11/Reads.antt =====
-- linux/main.c: what a read of an X11 selection gives, and the list of targets.
use sync_clipboard.Client.X11.{Part, names_loop, refresh_types, size_minus, wait_value}
use sync_clipboard.Prelude.{
  Bytes, List, Option, [], arith, if-both, if◌then◌else◌, length, length-append, length-take, ltb,
  ltb→lt, maybe, maybe-both, take, ℕ, ◌++◌, ◌+◌, ◌-◌, ◌<◌, ◌==◌, ◌^◌, ◌∷◌, ◌≡◌, ◌≤◌,
}
use sync_clipboard.Windows.Board.{DynBuf}

-- The parts of an incremental transfer up to the first that does not come in time, is not there or is
-- empty, one behind the other.
unfoldable pub arrived : List Part → Bytes
arrived [] = []
arrived (p ∷ parts) =
    let rest = arrived parts in
    let from_here : Bytes =
      maybe p.bytes [] (λ chunk. if length chunk == 0 then [] else chunk ++ rest) in
    if wait_value 200 p.rounds then from_here else []

-- The bytes are the parts so far and those that arrive, and lie within the capacity.
abbrev Gathers : Bytes → DynBuf → DynBuf → Type 0
Gathers came b d = (d.bytes ≡ b.bytes ++ came) × (length d.bytes ≤ d.cap)

names_loop-fits :
    (names : List (Option Bytes)) (size at : ℕ) (buf : Bytes)
    → 64 ≤ size
    → size < 2 ^ 64
    → length buf ≤ at
    → length buf < size
    → length (names_loop size at buf names) < size
unfolding names_loop
names_loop-fits [] size at buf large word below fits = fits
names_loop-fits (name ∷ names) size at buf large word below fits =
    let P : Bytes → Type 0 = λ s. length s < size in
    let gap : size_minus size 64 ≡ size - 64 = omega (arith, large, word) in
    if-both P (ltb at (size_minus size 64)) _ _
      (λ e.
        let early = ltb→lt at (size_minus size 64) e in
        let room : size_minus size at ≡ size - at = omega (arith, large, word, gap, early) in
        maybe-both P name _ _ (λ n. names_loop-fits names size at buf large word below fits)
          (λ s n.
            let added = take (size_minus size at - 1) (s ++ b'\n' ∷ []) in
            let a = length-take (size_minus size at - 1) (s ++ b'\n' ∷ []) in
            let b = length-append s (b'\n' ∷ []) in
            let c = length-append buf added in
            names_loop-fits names size (at + length s + 1) (buf ++ added) large word
              (omega (arith, a, b, c, below)) (omega (arith, a, c, below, early, room, gap))))
      (λ e. fits)

-- However many targets the owner of the selection has, and however long their names are, the list of
-- types and its NUL stay inside their buffer, if that has 64 bytes at least.
pub refresh_types-fits :
    (size : ℕ) (targets : Option (List (Option Bytes)))
    → 64 ≤ size
    → size < 2 ^ 64
    → length (refresh_types size targets) + 1 ≤ size
unfolding refresh_types
refresh_types-fits size targets large word =
    maybe-both (λ (s : Bytes). length s + 1 ≤ size) targets _ _ (λ e. omega (arith, large))
      (λ names e.
        let fits =
          names_loop-fits names size 0 [] large word (omega arith) (omega (arith, large)) in
        omega (arith, fits))
