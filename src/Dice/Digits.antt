-- ===== src/Dice/Digits.antt =====
-- Reading the digits that were written.
use wenyouzhan.Common.{
  Text, ℕ, zero, suc, ◌+◌, ◌-◌, ◌*◌, ◌/◌, ◌%◌, ◌^◌, ◌<◌, ◌≡◌, refl, ap, true, false, Bool-cases,
  some, [], ◌∷◌, ◌++◌, ltb, arith, inl, inr,
}
use wenyouzhan.Dice.{is_digit, is_space, skip, read_digits, number, digits_on, digits}

-- The text is empty or does not go on with a digit.
abbrev pub NoDigit : Text → Type 0
NoDigit [] = Unit
NoDigit (c ∷ s) = is_digit c ≡ false

append_assoc : (xs ys zs : Text) → (xs ++ ys) ++ zs ≡ xs ++ (ys ++ zs)
append_assoc [] ys zs = refl
append_assoc (x ∷ xs) ys zs = ap (λ t. x ∷ t) (append_assoc xs ys zs)

pub append_nil : (xs : Text) → xs ++ [] ≡ xs
append_nil [] = refl
append_nil (x ∷ xs) = ap (λ t. x ∷ t) (append_nil xs)

read_digits-digits_on :
    (fuel n : ℕ) (rest : Text)
    → n < 10 ^ fuel
    → read_digits (digits_on fuel n ++ rest) 0 ≡ read_digits rest n
unfolding read_digits digits_on
read_digits-digits_on zero n rest h = (let e : n ≡ 0 = omega arith in rw e refl)
read_digits-digits_on (suc fuel) n rest h = elim (Bool-cases (ltb n 10)) [
  | inl small ↦
      let is_one : is_digit (48 + n) ≡ true = ground arith in
      let same : 0 + (48 + n - 48) ≡ n = omega arith in rw (small, is_one, same) refl
  | inr big ↦
      let is_one : is_digit (48 + n % 10) ≡ true = ground arith in
      let same : n / 10 * 10 + (48 + n % 10 - 48) ≡ n = omega arith in
      rw
        (
          big,
          append_assoc (digits_on fuel (n / 10)) ((48 + n % 10) ∷ []) rest,
          read_digits-digits_on fuel (n / 10) ((48 + n % 10) ∷ rest) (omega arith),
          is_one,
          same,
        )
        refl
]

-- What was written begins with a digit.
digits_on-head :
    (fuel n : ℕ) (rest : Text)
    → (c : ℕ) × (t : Text) × (digits_on (suc fuel) n ++ rest ≡ c ∷ t) × (is_digit c ≡ true)
unfolding digits_on
digits_on-head zero n rest = elim (Bool-cases (ltb n 10)) [
  | inl small ↦ (48 + n, rest, rw small refl, ground arith)
  | inr big ↦ (48 + n % 10, rest, rw big refl, ground arith)
]
digits_on-head (suc fuel) n rest = elim (Bool-cases (ltb n 10)) [
  | inl small ↦ (48 + n, rest, rw small refl, ground arith)
  | inr big ↦
      let (c, t, e, d) = digits_on-head fuel (n / 10) ((48 + n % 10) ∷ rest) in
      (c, t, rw (big, append_assoc (digits_on (suc fuel) (n / 10)) ((48 + n % 10) ∷ []) rest) e, d)
]

digits-head :
    (n : ℕ) (rest : Text) → (c : ℕ) × (t : Text) × (digits n ++ rest ≡ c ∷ t) × (is_digit c ≡ true)
unfolding digits
digits-head n rest = digits_on-head 19 n rest

read_digits-end : (n : ℕ) (rest : Text) → NoDigit rest → read_digits rest n ≡ (n, rest)
unfolding read_digits
read_digits-end n [] h = refl
read_digits-end n (c ∷ s) h = rw h refl

number-head :
    (s t : Text) (c : ℕ) → s ≡ c ∷ t → is_digit c ≡ true → number s ≡ some (read_digits s 0)
unfolding number
number-head s t c e d = rw (e, d) refl

-- A number that was written is read, with what follows it.
pub number-digits :
    (n : ℕ) (rest : Text) → n < 10 ^ 20 → NoDigit rest → number (digits n ++ rest) ≡ some (n, rest)
unfolding digits
number-digits n rest h apart =
    let (c, t, e, d) = digits-head n rest in
    rw
      (
        number-head (digits n ++ rest) t c e d,
        read_digits-digits_on 20 n rest h,
        read_digits-end n rest apart,
      )
      refl

skip-head : (s t : Text) (c : ℕ) → s ≡ c ∷ t → is_digit c ≡ true → skip s ≡ s
unfolding skip
skip-head s t c e d = (let apart : is_space c ≡ false = ground arith in rw (e, apart) refl)

pub skip-digits : (n : ℕ) (rest : Text) → skip (digits n ++ rest) ≡ digits n ++ rest
skip-digits n rest = (let (c, t, e, d) = digits-head n rest in skip-head (digits n ++ rest) t c e d)
