-- ===== src/Common/Table.antt =====
-- A database table is the list of its rows in the order of insertion. These are the Prisma calls
-- on it: `findUnique`/`findFirst`, `update` by a unique key, `updateMany`, `deleteMany`, `count`.
use Prim.Native.Nat.{ℕ, suc, ◌+◌}
use mathlib.Core.Path.{◌≡◌, refl, subst}
use mathlib.Core.Logic.{inl, inr, ◌≢◌}
use mathlib.Core.Bool.{Bool, true, false}
use mathlib.Core.Option.{Option, none, some}
use mathlib.Core.List.{List, [], ◌∷◌, ◌++◌}
use native.Mathlib.Omega.{arith}
use wenyouzhan.Common.Tests.{if◌then◌else◌, Bool-cases}

module _ {ℓ} {A : Type ℓ} where
  abbrev pub length : List A → ℕ
  length [] = 0
  length (x ∷ xs) = suc (length xs)

  abbrev pub All {κ} : (A → Type κ) → List A → Type κ
  All P [] = Unit
  All P (x ∷ xs) = P x × All P xs

  pub find_first : (A → Bool) → List A → Option A
  find_first p [] = none
  find_first p (x ∷ xs) = if p x then some x else find_first p xs

  -- `findUnique` by a unique key, with further conditions on the row.
  abbrev pub find_unique : (A → Bool) → (A → Bool) → List A → Option A
  find_unique key q xs = elim (find_first key xs) [
    | none ↦ none
    | some x ↦ if q x then some x else none
  ]

  pub has_row : (A → Bool) → List A → Bool
  has_row p [] = false
  has_row p (x ∷ xs) = if p x then true else has_row p xs

  pub count_where : (A → Bool) → List A → ℕ
  count_where p [] = 0
  count_where p (x ∷ xs) = if p x then suc (count_where p xs) else count_where p xs

  -- `update` by a unique key: one row changes.
  pub update_first : (A → Bool) → (A → A) → List A → List A
  update_first p f [] = []
  update_first p f (x ∷ xs) = if p x then f x ∷ xs else x ∷ update_first p f xs

  -- `updateMany`: every matching row changes.
  pub update_where : (A → Bool) → (A → A) → List A → List A
  update_where p f [] = []
  update_where p f (x ∷ xs) = (if p x then f x else x) ∷ update_where p f xs

  pub remove_where : (A → Bool) → List A → List A
  remove_where p [] = []
  remove_where p (x ∷ xs) = if p x then remove_where p xs else x ∷ remove_where p xs

  pub sum_of : (A → ℕ) → List A → ℕ
  sum_of f [] = 0
  sum_of f (x ∷ xs) = f x + sum_of f xs

  -- `create`: the new row comes last.
  abbrev pub insert : A → List A → List A
  insert x xs = xs ++ x ∷ []

-- Named on an `unfolding` line, this opens all of the above.
unfoldable pub tables : Unit {0}
unfolding find_first has_row count_where update_first update_where remove_where sum_of
tables = tt

module _ {ℓ} {A : Type ℓ} where
  pub find_first-satisfies :
      (p : A → Bool) (xs : List A) (x : A) → find_first p xs ≡ some x → p x ≡ true
  unfolding tables
  find_first-satisfies p [] x h = cc
  find_first-satisfies p (y ∷ xs) x h = ground (arith, find_first-satisfies p xs x)

  pub find_first-insert-none :
      (p : A → Bool) (xs : List A) (x : A)
      → find_first p xs ≡ none
      → find_first p (insert x xs) ≡ (if p x then some x else none)
  unfolding tables
  find_first-insert-none p [] x h = refl
  find_first-insert-none p (y ∷ xs) x h = ground (arith, find_first-insert-none p xs x)

  pub find_first-insert-some :
      (p : A → Bool) (xs : List A) (x y : A)
      → find_first p xs ≡ some y
      → find_first p (insert x xs) ≡ some y
  unfolding tables
  find_first-insert-some p [] x y h = cc
  find_first-insert-some p (z ∷ xs) x y h = ground (arith, find_first-insert-some p xs x y)

  -- The updated row is found by the same key where the update keeps the key.
  pub find_first-update_first_self :
      (p : A → Bool) (f : A → A) (xs : List A) (x : A)
      → p (f x) ≡ true
      → find_first p xs ≡ some x
      → find_first p (update_first p f xs) ≡ some (f x)
  unfolding tables
  find_first-update_first_self p f [] x k h = cc
  find_first-update_first_self p f (y ∷ xs) x k h =
      ground (arith, find_first-update_first_self p f xs x k)

  pub sum_of-insert : (f : A → ℕ) (xs : List A) (x : A) → sum_of f (insert x xs) ≡ sum_of f xs + f x
  unfolding tables
  sum_of-insert f [] x = omega arith
  sum_of-insert f (y ∷ xs) x = omega (arith, sum_of-insert f xs x)

  -- The column's sum moves by what the one updated row moves.
  pub sum_of-update_first :
      (c : A → ℕ) (p : A → Bool) (f : A → A) (xs : List A) (x : A)
      → find_first p xs ≡ some x
      → sum_of c (update_first p f xs) + c x ≡ sum_of c xs + c (f x)
  unfolding tables
  sum_of-update_first c p f [] x h = cc
  sum_of-update_first c p f (y ∷ xs) x h = ground (arith, sum_of-update_first c p f xs x)

  pub update_first-none :
      (p : A → Bool) (f : A → A) (xs : List A) → find_first p xs ≡ none → update_first p f xs ≡ xs
  unfolding tables
  update_first-none p f [] h = refl
  update_first-none p f (y ∷ xs) h = ground (arith, update_first-none p f xs)

  pub has_row-insert :
      (p : A → Bool) (xs : List A) (x : A)
      → has_row p (insert x xs) ≡ (if has_row p xs then true else p x)
  unfolding tables
  has_row-insert p [] x = ground arith
  has_row-insert p (y ∷ xs) x = ground (arith, has_row-insert p xs x)

  pub length-insert : (xs : List A) (x : A) → length (insert x xs) ≡ length xs + 1
  length-insert [] x = omega arith
  length-insert (y ∷ xs) x = omega (arith, length-insert xs x)

  pub count_where-insert :
      (p : A → Bool) (xs : List A) (x : A)
      → count_where p (insert x xs) ≡ count_where p xs + (if p x then 1 else 0)
  unfolding tables
  count_where-insert p [] x = ground arith
  count_where-insert p (y ∷ xs) x = ground (arith, count_where-insert p xs x)

  pub All-insert {κ} : (P : A → Type κ) (xs : List A) (x : A) → All P xs → P x → All P (insert x xs)
  All-insert P [] x h k = (k, tt)
  All-insert P (y ∷ xs) x h k = (h.0, All-insert P xs x h.1 k)

  pub All-find_first {κ} :
      (P : A → Type κ) (p : A → Bool) (xs : List A) (x : A)
      → All P xs
      → find_first p xs ≡ some x
      → P x
  unfolding tables
  All-find_first P p [] x h e = cc
  All-find_first P p (y ∷ xs) x h e = elim (Bool-cases (p y)) [
    | inl hit ↦ (let same : y ≡ x = ground arith in subst P same h.0)
    | inr miss ↦ All-find_first P p xs x h.1 (rw miss at e)
  ]

  -- An update of the row that is found keeps what it keeps of that row.
  pub All-update_first {κ} :
      (P : A → Type κ) (p : A → Bool) (f : A → A) (xs : List A)
      → ((x : A) → find_first p xs ≡ some x → P x → P (f x))
      → All P xs
      → All P (update_first p f xs)
  unfolding tables
  All-update_first P p f [] step h = tt
  All-update_first P p f (y ∷ xs) step h = elim (Bool-cases (p y)) [
    | inl hit ↦ rw hit (step y (rw hit) h.0, h.1)
    | inr miss ↦ rw miss (h.0, All-update_first P p f xs (λ x e k. step x (rw miss e) k) h.1)
  ]

  -- A key that the updates leave alone selects a row after them if it did before.
  pub find_first-update_first_keeps :
      (p q : A → Bool) (f : A → A) (xs : List A)
      → ((x : A) → q (f x) ≡ q x)
      → find_first q xs ≢ none
      → find_first q (update_first p f xs) ≢ none
  unfolding tables
  find_first-update_first_keeps p q f [] k h = h
  find_first-update_first_keeps p q f (y ∷ xs) k h =
      ground (arith, k y, find_first-update_first_keeps p q f xs k)
