-- ===== src/Common/Updates.antt =====
-- What updates and removals of rows do to lookups, counts and tests of all rows.
use Prim.Native.Nat.{ℕ, ◌+◌, ◌≤◌}
use mathlib.Core.Path.{◌≡◌, refl}
use mathlib.Core.Logic.{inl, inr}
use mathlib.Core.Bool.{Bool, true, false}
use mathlib.Core.Option.{none, some}
use mathlib.Core.List.{List, [], ◌∷◌, ◌++◌}
use native.Mathlib.Omega.{arith}
use wenyouzhan.Common.Tests.{if◌then◌else◌, Bool-cases}
use wenyouzhan.Common.Table.{
  All, find_first, count_where, sum_of, update_first, update_where, remove_where, insert, tables,
}

module _ {ℓ} {A : Type ℓ} where
  -- A key that selects other rows than the updated ones finds what it found before.
  pub find_first-update_first_other :
      (p q : A → Bool) (f : A → A) (xs : List A)
      → ((x : A) → p x ≡ true → (q x ≡ false) × (q (f x) ≡ false))
      → find_first q (update_first p f xs) ≡ find_first q xs
  unfolding tables
  find_first-update_first_other p q f [] apart = refl
  find_first-update_first_other p q f (y ∷ xs) apart =
      ground (arith, apart y, find_first-update_first_other p q f xs apart)

  -- Two updates of the same row are one.
  pub update_first_twice :
      (p : A → Bool) (f g : A → A) (xs : List A)
      → ((x : A) → p x ≡ true → p (f x) ≡ true)
      → update_first p g (update_first p f xs) ≡ update_first p (λ x. g (f x)) xs
  unfolding tables
  update_first_twice p f g [] keeps = refl
  update_first_twice p f g (y ∷ xs) keeps =
      ground (arith, keeps y, update_first_twice p f g xs keeps)

  -- What an update leaves alone in each row it leaves alone in the counts.
  pub count_where-update_where :
      (p q : A → Bool) (f : A → A) (xs : List A)
      → ((x : A) → q (f x) ≡ q x)
      → count_where q (update_where p f xs) ≡ count_where q xs
  unfolding tables
  count_where-update_where p q f [] keeps = refl
  count_where-update_where p q f (y ∷ xs) keeps =
      ground (arith, keeps y, count_where-update_where p q f xs keeps)

  pub count_where-update_where_le :
      (p q : A → Bool) (f : A → A) (xs : List A)
      → ((x : A) → q (f x) ≡ q x)
      → count_where q (update_where p f xs) ≤ count_where q xs
  count_where-update_where_le p q f xs keeps =
      omega (arith, count_where-update_where p q f xs keeps)

  -- A removal takes from a count what it selects, or nothing where the two tests exclude each other.
  pub count_where-remove_where_self :
      (p : A → Bool) (xs : List A) → count_where p (remove_where p xs) ≡ 0
  unfolding tables
  count_where-remove_where_self p [] = refl
  count_where-remove_where_self p (y ∷ xs) = ground (arith, count_where-remove_where_self p xs)

  pub count_where-remove_where_other :
      (p q : A → Bool) (xs : List A)
      → ((x : A) → p x ≡ true → q x ≡ false)
      → count_where q (remove_where p xs) ≡ count_where q xs
  unfolding tables
  count_where-remove_where_other p q [] apart = refl
  count_where-remove_where_other p q (y ∷ xs) apart =
      ground (arith, apart y, count_where-remove_where_other p q xs apart)

  pub count_where-remove_where_le :
      (p q : A → Bool) (xs : List A) → count_where q (remove_where p xs) ≤ count_where q xs
  unfolding tables
  count_where-remove_where_le p q [] = omega arith
  count_where-remove_where_le p q (y ∷ xs) = ground (arith, count_where-remove_where_le p q xs)

  pub All-remove_where {κ} :
      (P : A → Type κ) (p : A → Bool) (xs : List A) → All P xs → All P (remove_where p xs)
  unfolding tables
  All-remove_where P p [] h = tt
  All-remove_where P p (y ∷ xs) h = elim (Bool-cases (p y)) [
    | inl hit ↦ rw hit (All-remove_where P p xs h.1)
    | inr miss ↦ rw miss (h.0, All-remove_where P p xs h.1)
  ]

  pub All-update_where {κ} :
      (P : A → Type κ) (p : A → Bool) (f : A → A) (xs : List A)
      → ((x : A) → P x → P (f x))
      → All P xs
      → All P (update_where p f xs)
  unfolding tables
  All-update_where P p f [] step h = tt
  All-update_where P p f (y ∷ xs) step h = elim (Bool-cases (p y)) [
    | inl hit ↦ rw hit (step y h.0, All-update_where P p f xs step h.1)
    | inr miss ↦ rw miss (h.0, All-update_where P p f xs step h.1)
  ]

  -- A test that no row of a list can meet finds and counts nothing.
  pub find_first-absent :
      (p : A → Bool) (xs : List A) → All (λ x. p x ≡ false) xs → find_first p xs ≡ none
  unfolding tables
  find_first-absent p [] h = refl
  find_first-absent p (y ∷ xs) h = ground (arith, h.0, find_first-absent p xs h.1)

  pub count_where-none :
      (p : A → Bool) (xs : List A) → All (λ x. p x ≡ false) xs → count_where p xs ≡ 0
  unfolding tables
  count_where-none p [] h = refl
  count_where-none p (y ∷ xs) h = ground (arith, h.0, count_where-none p xs h.1)

  -- An update that only the last row can meet.
  pub update_first-insert_absent :
      (p : A → Bool) (f : A → A) (xs : List A) (x : A)
      → All (λ y. p y ≡ false) xs
      → p x ≡ true
      → update_first p f (insert x xs) ≡ insert (f x) xs
  unfolding tables
  update_first-insert_absent p f [] x h hit = ground (arith, hit)
  update_first-insert_absent p f (y ∷ xs) x h hit =
      ground (arith, h.0, update_first-insert_absent p f xs x h.1 hit)

  pub All-map {κ κ'} :
      {P : A → Type κ} {Q : A → Type κ'} (f : (x : A) → P x → Q x) (xs : List A)
      → All P xs
      → All Q xs
  All-map f [] h = tt
  All-map f (y ∷ xs) h = (f y h.0, All-map f xs h.1)

module _ {ℓ} {A : Type ℓ} where
  -- A row that is found and not selected is found after an update that keeps the key.
  pub find_first-update_where_kept :
      (p q : A → Bool) (f : A → A) (xs : List A) (x : A)
      → ((y : A) → q (f y) ≡ q y)
      → find_first q xs ≡ some x
      → p x ≡ false
      → find_first q (update_where p f xs) ≡ some x
  unfolding tables
  find_first-update_where_kept p q f [] x keeps found miss = cc
  find_first-update_where_kept p q f (y ∷ xs) x keeps found miss =
      ground (arith, keeps y, find_first-update_where_kept p q f xs x keeps)

  pub sum_of-update_where :
      (g : A → ℕ) (p : A → Bool) (f : A → A) (xs : List A)
      → ((x : A) → g (f x) ≡ g x)
      → sum_of g (update_where p f xs) ≡ sum_of g xs
  unfolding tables
  sum_of-update_where g p f [] keeps = refl
  sum_of-update_where g p f (y ∷ xs) keeps =
      ground (arith, keeps y, sum_of-update_where g p f xs keeps)

  pub count_where-append :
      (p : A → Bool) (xs ys : List A)
      → count_where p (xs ++ ys) ≡ count_where p xs + count_where p ys
  unfolding tables
  count_where-append p [] ys = ground arith
  count_where-append p (x ∷ xs) ys = ground (arith, count_where-append p xs ys)

  pub find_first-update_where_self :
      (p : A → Bool) (f : A → A) (xs : List A) (x : A)
      → ((y : A) → p (f y) ≡ p y)
      → find_first p xs ≡ some x
      → find_first p (update_where p f xs) ≡ some (f x)
  unfolding tables
  find_first-update_where_self p f [] x keeps found = cc
  find_first-update_where_self p f (y ∷ xs) x keeps found =
      ground (arith, keeps y, find_first-update_where_self p f xs x keeps)

  -- What a removal selects is not found, and the rest as before.
  pub find_first-remove_where_self :
      (p : A → Bool) (xs : List A) → find_first p (remove_where p xs) ≡ none
  unfolding tables
  find_first-remove_where_self p [] = refl
  find_first-remove_where_self p (y ∷ xs) = ground (arith, find_first-remove_where_self p xs)

  pub find_first-remove_where_other :
      (p q : A → Bool) (xs : List A)
      → ((x : A) → p x ≡ true → q x ≡ false)
      → find_first q (remove_where p xs) ≡ find_first q xs
  unfolding tables
  find_first-remove_where_other p q [] apart = refl
  find_first-remove_where_other p q (y ∷ xs) apart =
      ground (arith, apart y, find_first-remove_where_other p q xs apart)

  -- What is found after an update was found before it.
  pub find_first-update_where_back :
      (p q : A → Bool) (f : A → A) (xs : List A) (x : A)
      → ((y : A) → q (f y) ≡ q y)
      → find_first q (update_where p f xs) ≡ some x
      → (y : A) × (find_first q xs ≡ some y) × (x ≡ (if p y then f y else y))
  unfolding tables
  find_first-update_where_back p q f [] x keeps found = cc
  find_first-update_where_back p q f (y ∷ xs) x keeps found = elim (Bool-cases (q y)) [
    | inl hit ↦ (y, rw hit refl, ground (arith, keeps y, hit, found))
    | inr miss ↦
        let rest : find_first q (update_where p f xs) ≡ some x =
          ground (arith, keeps y, miss, found) in
        let (z, there, same) = find_first-update_where_back p q f xs x keeps rest in
        (z, rw miss there, same)
  ]
