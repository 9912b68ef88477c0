-- ===== src/Dice/RoundTrip.antt =====
-- Reading back the notation that `parse` writes.
use wenyouzhan.Common.{
  Text, ℕ, zero, suc, ◌^◌, ◌≤◌, ◌<◌, ◌≡◌, refl, ◌∙◌, Bool-cases, Option, none, some, [], ◌∷◌, ◌++◌,
  arith, inl, inr,
}
use wenyouzhan.Common.Int.{ℤ, pos, negsuc}
use wenyouzhan.Exception.{Result, ok, err}
use wenyouzhan.Dice.{
  skip, number, digits, quantity_part, after_d, last_number, modifier_part, modifier_text,
  notation_text, ParsedDiceNotation, out_of_bounds, magnitude, checked, parse_rest, parse,
  invalid_notation,
}
use wenyouzhan.Dice.Digits.{NoDigit, number-digits, skip-digits, append_nil}

skip-digits_alone : (n : ℕ) → skip (digits n) ≡ digits n
skip-digits_alone n = rw (append_nil (digits n)) at (skip-digits n [])

number-digits_alone : (n : ℕ) → n < 10 ^ 20 → number (digits n) ≡ some (n, [])
number-digits_alone n h = rw (append_nil (digits n)) at (number-digits n [] h tt)

last_number-digits : (n : ℕ) → n < 10 ^ 20 → last_number (digits n) ≡ some n
unfolding last_number skip
last_number-digits n h = rw (last_number, skip-digits_alone n, number-digits_alone n h) refl

modifier_part-text : (m : ℤ) → magnitude m ≤ 10_000 → modifier_part (modifier_text m) ≡ some m
unfolding modifier_part modifier_text
modifier_part-text (pos zero) h = refl
modifier_part-text (pos (suc n)) h = rw (last_number-digits (suc n) (omega arith)) refl
modifier_part-text (negsuc n) h = rw (last_number-digits (suc n) (omega arith)) (ground arith)

-- What follows the sides does not go on with a digit or a space.
modifier_text-NoDigit : (m : ℤ) → NoDigit (modifier_text m)
unfolding modifier_text
modifier_text-NoDigit (pos zero) = tt
modifier_text-NoDigit (pos (suc n)) = refl
modifier_text-NoDigit (negsuc n) = refl

skip-modifier_text : (m : ℤ) → skip (modifier_text m) ≡ modifier_text m
unfolding modifier_text skip
skip-modifier_text (pos zero) = refl
skip-modifier_text (pos (suc n)) = refl
skip-modifier_text (negsuc n) = refl

parse_rest-text :
    (q s : ℕ) (m : ℤ)
    → s ≤ 1_000
    → magnitude m ≤ 10_000
    → parse_rest q (100 ∷ (digits s ++ modifier_text m)) ≡ checked q s m
unfolding parse_rest after_d
parse_rest-text q s m h h' =
    rw
      (
        parse_rest,
        after_d,
        skip-digits s (modifier_text m),
        number-digits s (modifier_text m) (omega arith) (modifier_text-NoDigit m),
        skip-modifier_text m,
        modifier_part-text m h',
      )
      refl

skip_d : (t : Text) → skip (100 ∷ t) ≡ 100 ∷ t
unfolding skip
skip_d t = refl

-- The canonical notation of a quantity, sides and a modifier within the bounds is read back as
-- these three.
pub parse-notation_text :
    (q s : ℕ) (m : ℤ)
    → q ≤ 100
    → s ≤ 1_000
    → magnitude m ≤ 10_000
    → parse (notation_text q s m) ≡ checked q s m
unfolding parse notation_text quantity_part
parse-notation_text q s m hq hs hm =
    let rest = 100 ∷ (digits s ++ modifier_text m) in
    rw
      (
        skip-digits q rest,
        quantity_part,
        number-digits q rest (omega arith) refl,
        skip_d (digits s ++ modifier_text m),
        parse_rest-text q s m hs hm,
      )
      refl

checked_ok :
    (q s : ℕ) (m : ℤ) (p : ParsedDiceNotation)
    → checked q s m ≡ ok p
    → (1 ≤ q)
      × (q ≤ 100)
      × (2 ≤ s)
      × (s ≤ 1_000)
      × (magnitude m ≤ 10_000)
      × (p ≡ record { notation = notation_text q s m; quantity = q; sides = s; modifier = m })
unfolding checked
checked_ok q s m p h = elim (Bool-cases (out_of_bounds q s m)) [
  | inl out ↦ absurd (let e = rw out at h in cc)
  | inr within ↦
      let e = rw within at h in
      (ground arith, ground arith, ground arith, ground arith, ground arith, cc)
]

-- Whatever is parsed comes out of the tests.
parse_rest_ok :
    (q : ℕ) (t : Text) (p : ParsedDiceNotation)
    → parse_rest q t ≡ ok p
    → (s : ℕ) × (m : ℤ) × (checked q s m ≡ ok p)
unfolding parse_rest
parse_rest_ok q t p h = by_d (after_d t) h
  where
    by_modifier :
        (s : ℕ) (x : Option ℤ)
        → (elim x as (λ _. Result ParsedDiceNotation) [
          | none ↦ err invalid_notation
          | some m ↦ checked q s m
        ])
          ≡ ok p
        → (s : ℕ) × (m : ℤ) × (checked q s m ≡ ok p)
    by_modifier s none e = cc
    by_modifier s (some m) e = (s, m, e)

    by_sides :
        (x : Option (ℕ × Text))
        → (elim x as (λ _. Result ParsedDiceNotation) [
          | none ↦ err invalid_notation
          | some (s, u) ↦ elim (modifier_part (skip u)) [
            | none ↦ err invalid_notation
            | some m ↦ checked q s m
          ]
        ])
          ≡ ok p
        → (s : ℕ) × (m : ℤ) × (checked q s m ≡ ok p)
    by_sides none e = cc
    by_sides (some (s, u)) e = by_modifier s (modifier_part (skip u)) e

    by_d :
        (x : Option Text)
        → (elim x as (λ _. Result ParsedDiceNotation) [
          | none ↦ err invalid_notation
          | some t ↦ elim (number (skip t)) [
            | none ↦ err invalid_notation
            | some (s, u) ↦ elim (modifier_part (skip u)) [
              | none ↦ err invalid_notation
              | some m ↦ checked q s m
            ]
          ]
        ])
          ≡ ok p
        → (s : ℕ) × (m : ℤ) × (checked q s m ≡ ok p)
    by_d none e = cc
    by_d (some t) e = by_sides (number (skip t)) e

-- What `parse` accepts is a quantity from 1 to 100, sides from 2 to 1000 and a modifier of at most
-- 10000 either way, and the notation that it gives is read back as the same result.
pub parse_canonical :
    (t : Text) (p : ParsedDiceNotation)
    → parse t ≡ ok p
    → (1 ≤ p.quantity)
      × (p.quantity ≤ 100)
      × (2 ≤ p.sides)
      × (p.sides ≤ 1_000)
      × (magnitude p.modifier ≤ 10_000)
      × (parse p.notation ≡ ok p)
unfolding parse
parse_canonical t p h =
    let q = (quantity_part (skip t)).0 in
    let (s, m, e) = parse_rest_ok q (quantity_part (skip t)).1 p h in
    let (q1, q2, s1, s2, m1, same) = checked_ok q s m p e in
    rw same (q1, q2, s1, s2, m1, rw (← same) (parse-notation_text q s m q2 s2 m1 ∙ e))
