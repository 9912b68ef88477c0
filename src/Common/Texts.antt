-- ===== src/Common/Texts.antt =====
-- Texts as lists of UTF-16 code units, and what is cut off them.
use Prim.Native.Nat.{ℕ, zero, suc}
use mathlib.Core.Path.{◌≡◌, refl, ap}
use mathlib.Core.List.{List, [], ◌∷◌, ◌++◌}
use native.Mathlib.Omega.{arith}
use wenyouzhan.Common.Tests.{if◌then◌else◌, ltb}
use wenyouzhan.Common.Table.{length}

abbrev pub Text : Type 0
Text = List ℕ

module _ {ℓ} {A : Type ℓ} where
  -- `slice(0, n)`
  unfoldable pub take : ℕ → List A → List A
  take zero xs = []
  take (suc n) [] = []
  take (suc n) (x ∷ xs) = x ∷ take n xs

  pub length-take :
      (n : ℕ) (xs : List A) → length (take n xs) ≡ (if ltb n (length xs) then n else length xs)
  unfolding take
  length-take zero [] = refl
  length-take zero (x ∷ xs) = ground arith
  length-take (suc n) [] = ground arith
  length-take (suc n) (x ∷ xs) = ground (arith, length-take n xs)

  -- What is taken is the beginning.
  pub take_prefix : (n : ℕ) (xs : List A) → (rest : List A) × (xs ≡ take n xs ++ rest)
  unfolding take
  take_prefix zero xs = (xs, refl)
  take_prefix (suc n) [] = ([], refl)
  take_prefix (suc n) (x ∷ xs) = let (rest, e) = take_prefix n xs in (rest, ap (λ ys. x ∷ ys) e)
