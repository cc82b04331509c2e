-- ===== src/Verification/Stoi/Laws.antt =====
-- A number that is printed is read again.
use trustflow.Base.{
  ℕ, zero, suc, ◌+◌, ◌-◌, ◌*◌, ◌/◌, ◌%◌, ◌^◌, ◌<◌, ◌≡◌, ◌≢◌, ◌∙◌, refl, arith, ltb, leb, true,
  false, inl, inr, Bool-cases, [], ◌∷◌, Str, ap, ◌==◌,
}
use native.Mathlib.Nat.{pow-suc}
use trustflow.Base.Int.{pos}
use trustflow.Base.Decimal.{decimal_digits, to_string}
use trustflow.Verification.Stoi.{
  value, stoi, is_space, is_digit, skip_spaces, digits, unsigned_part, signed_part,
}

digit_read : (a d : ℕ) (s : Str) → d < 10 → digits a ((48 + d) ∷ s) ≡ digits (10 * a + d) s
unfolding digits is_digit
digit_read a d s h =
    let low : leb 48 (48 + d) ≡ true = ground arith in
    let high : leb (48 + d) 57 ≡ true = ground arith in
    let same : 10 * a + (48 + d - 48) ≡ 10 * a + d = omega arith in rw (low, high, same)

ltb→lt : (a b : ℕ) → ltb a b ≡ true → a < b
ltb→lt a b h = ground arith

small_digit : (n : ℕ) → n < 10 → 10 * 0 + n % 10 ≡ n
small_digit n h = omega arith

digits_read : (f n : ℕ) (s : Str) → n < 10 ^ suc f → digits 0 (decimal_digits f n s) ≡ digits n s
unfolding decimal_digits
digits_read zero n s h = digit_read 0 (n % 10) s (omega arith) ∙ ap (λ m. digits m s) (omega arith)
digits_read (suc f) n s h = elim (Bool-cases (ltb n 10)) [
  | inl e ↦
      rw e (
        digit_read 0 (n % 10) s (omega arith)
        ∙ ap (λ m. digits m s) (small_digit n (ltb→lt n 10 e)))
  | inr e ↦ rw e (
      digits_read f (n / 10) ((48 + n % 10) ∷ s) (omega (arith, pow-suc 10 (suc f)))
      ∙ digit_read (n / 10) (n % 10) s (omega arith)
      ∙ ap (λ m. digits m s) (omega arith))
]

-- The first character is a digit.
IsDigits : Str → Type 0
IsDigits s = (d : ℕ) × (rest : Str) × (s ≡ (48 + d) ∷ rest) × (d < 10)

first_digit : (f n : ℕ) (s : Str) → IsDigits (decimal_digits f n s)
unfolding decimal_digits IsDigits
first_digit zero n s = (n % 10, s, refl, omega arith)
first_digit (suc f) n s = elim (Bool-cases (ltb n 10)) [
  | inl e ↦ (n % 10, s, rw e, omega arith)
  | inr e ↦ rw e (first_digit f (n / 10) ((48 + n % 10) ∷ s))
]

skip_digit : (d : ℕ) (rest : Str) → d < 10 → skip_spaces ((48 + d) ∷ rest) ≡ (48 + d) ∷ rest
unfolding skip_spaces is_space
skip_digit d rest h =
    let not_blank : (48 + d == 32) ≡ false = ground arith in
    let not_control : leb (48 + d) 13 ≡ false = ground arith in
    let above : leb 9 (48 + d) ≡ true = ground arith in rw (not_blank, above, not_control)

signed_digit :
    (d n : ℕ) (rest : Str)
    → d < 10
    → digits 0 ((48 + d) ∷ rest) ≡ n
    → n < 2 ^ 31
    → signed_part ((48 + d) ∷ rest) ≡ value (pos n)
unfolding signed_part unsigned_part is_digit
signed_digit d n rest h e lt =
    let not_minus : (48 + d == 45) ≡ false = ground arith in
    let not_plus : (48 + d == 43) ≡ false = ground arith in
    let low : leb 48 (48 + d) ≡ true = ground arith in
    let high : leb (48 + d) 57 ≡ true = ground arith in
    let fits : leb n 2147483647 ≡ true = ground arith in
    rw (not_minus, not_plus, low, high, e, fits)

-- A number that fits an `int` is what its decimal digits are read as.
pub stoi-to_string : (n : ℕ) → n < 2 ^ 31 → stoi (to_string n) ≡ value (pos n)
unfolding stoi to_string IsDigits
stoi-to_string n h =
    let (d, rest, same, small) = first_digit 19 n [] in
    let read : digits 0 (decimal_digits 19 n []) ≡ n = digits_read 19 n [] (omega arith) in
    rw (same, skip_digit d rest small) (signed_digit d n rest small (rw same at read) h)

pub to_string_some : (n : ℕ) → to_string n ≢ []
unfolding to_string IsDigits
to_string_some n h = let (d, rest, same, small) = first_digit 19 n [] in cc (same, h)
