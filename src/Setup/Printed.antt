-- ===== src/Setup/Printed.antt =====
-- common/ft/ft_addr.c: the port as "%d" prints it and `atoi` reads it.
use sync_clipboard.Prelude.Int.{ℤ, pos, signed32, to_u64}
use sync_clipboard.Codec.{is_space, skip_space}
use sync_clipboard.Config.Number.{signed_value, atoi, digits_value}
use sync_clipboard.Prelude.{
  ltb→lt, ◌<◌, subst, if-both, lt→ltb, ◌==◌, ◌%◌, ◌/◌, if-at, leb, zero, ◌*◌, ℕ, refl, ◌+◌, arith,
  length, All-append, Bytes, ◌&&◌, true, ltb, ◌-◌, min, false, true_is_false, sym, length-append,
  ◌≡◌, ◌^◌, [], All, suc, ◌∙◌, ◌≤◌, ◌∷◌, ◌++◌, ap,
}
use sync_clipboard.Setup.{print_int, print_loop}

abbrev pub IsDigits : Bytes → Type 0
IsDigits s = All (λ c. (b'0' ≤ c) × (c ≤ b'9')) s

digit_test : (c : ℕ) → b'0' ≤ c → c ≤ b'9' → (leb b'0' c && leb c b'9') ≡ true
digit_test c low high = ground arith

-- One digit more.
digits_value-append :
    (s : Bytes) (acc d : ℕ)
    → IsDigits s
    → d < 10
    → digits_value acc (s ++ (b'0' + d) ∷ []) ≡ digits_value acc s * 10 + d
unfolding digits_value
digits_value-append [] acc d h small =
    let is = digit_test (b'0' + d) (omega arith) (omega arith) in rw is (omega arith)
digits_value-append (c ∷ s) acc d ((low, high), h) small =
    let is = digit_test c low high in
    rw is (digits_value-append s (acc * 10 + (c - b'0')) d h small)

pub print_loop-IsDigits : (fuel n : ℕ) → IsDigits (print_loop fuel n)
unfolding print_loop
print_loop-IsDigits zero n = tt
print_loop-IsDigits (suc fuel) n =
    let last = b'0' + n % 10 in
    let digit : (b'0' ≤ last) × (last ≤ b'9') = (omega arith, omega arith) in
    if-both IsDigits (ltb n 10) _ _ (λ e. (digit, tt))
      (λ e.
        All-append (λ c. (b'0' ≤ c) × (c ≤ b'9')) (print_loop fuel (n / 10)) (last ∷ [])
          (print_loop-IsDigits fuel (n / 10)) (digit, tt))

-- With fuel for all digits the value is the number, and there is a digit for each power of ten.
print_loop-value : (fuel n : ℕ) → n < 10 ^ fuel → digits_value 0 (print_loop fuel n) ≡ n
unfolding print_loop digits_value
print_loop-value zero n small = omega (arith, small)
print_loop-value (suc fuel) n small =
    let P : Bytes → Type 0 = λ s. digits_value 0 s ≡ n in
    let front = print_loop fuel (n / 10) in
    if-both P (ltb n 10) _ _
      (λ e. digits_value-append [] 0 (n % 10) tt (omega arith) ∙ omega (arith, ltb→lt n 10 e))
      (λ e.
        let ih = print_loop-value fuel (n / 10) (omega (arith, small)) in
        digits_value-append front 0 (n % 10) (print_loop-IsDigits fuel (n / 10)) (omega arith)
        ∙ omega (arith, ih))

pub length-print_loop : (fuel n : ℕ) → length (print_loop fuel n) ≤ fuel
unfolding print_loop
length-print_loop zero n = omega arith
length-print_loop (suc fuel) n =
    if-both (λ (s : Bytes). length s ≤ suc fuel) (ltb n 10) _ _ (λ e. omega arith)
      (λ e.
        let last : Bytes = (b'0' + n % 10) ∷ [] in
        omega
          (arith, length-append (print_loop fuel (n / 10)) last, length-print_loop fuel (n / 10)))

not_space : (c : ℕ) → b'0' ≤ c → c ≤ b'9' → is_space c ≡ false
unfolding is_space
not_space c low high = ground arith

-- A number of digits that fits an `int`.
atoi_digits :
    (c : ℕ) (s : Bytes)
    → IsDigits (c ∷ s)
    → digits_value 0 (c ∷ s) < 2 ^ 31
    → atoi (c ∷ s) ≡ pos (digits_value 0 (c ∷ s))
unfolding atoi skip_space signed_value
atoi_digits c s ((low, high), h) small =
    let v = digits_value 0 (c ∷ s) in
    let P : Bytes → Type 0 = λ t. signed32 (to_u64 (signed_value t) % 2 ^ 32) ≡ pos v in
    let Q : ℤ → Type 0 = λ z. signed32 (to_u64 z % 2 ^ 32) ≡ pos v in
    let whole : min v (2 ^ 63 - 1) % 2 ^ 64 % 2 ^ 32 ≡ v = omega (arith, small) in
    if-both P (is_space c) _ _ (λ e. absurd (true_is_false (sym e ∙ not_space c low high)))
      (λ e.
        if-both Q (c == b'-') _ _ (λ m. absurd (ground arith))
          (λ m.
            if-both Q (c == b'+') _ _ (λ p. absurd (ground arith))
              (λ p.
                ap (λ w. signed32 w) whole ∙ if-at (ltb v (2 ^ 31)) _ _ (lt→ltb v (2 ^ 31) small))))

snoc_cons : (xs : Bytes) (d : ℕ) → (c : ℕ) × (s : Bytes) × (xs ++ d ∷ [] ≡ c ∷ s)
snoc_cons [] d = (d, [], refl)
snoc_cons (x ∷ xs) d = (x, xs ++ d ∷ [], refl)

print_loop-cons : (fuel n : ℕ) → (c : ℕ) × (s : Bytes) × (print_loop (suc fuel) n ≡ c ∷ s)
unfolding print_loop
print_loop-cons fuel n =
    if-both (λ (t : Bytes). (c : ℕ) × (s : Bytes) × (t ≡ c ∷ s)) (ltb n 10) _ _
      (λ e. (b'0' + n % 10, [], refl)) (λ e. snoc_cons (print_loop fuel (n / 10)) (b'0' + n % 10))

-- `atoi` reads what "%d" printed.
pub atoi-print_int : (n : ℕ) → n < 2 ^ 31 → atoi (print_int n) ≡ pos n
unfolding print_int
atoi-print_int n small =
    let (c, s, e) = print_loop-cons 9 n in
    let value = print_loop-value 10 n (omega arith) in
    let is : IsDigits (c ∷ s) = subst IsDigits e (print_loop-IsDigits 10 n) in
    let v : digits_value 0 (c ∷ s) ≡ n = ap (digits_value 0) (sym e) ∙ value in
    ap atoi e ∙ atoi_digits c s is (omega (arith, v, small)) ∙ ap (λ w. pos w) v
