-- ===== src/Access/Sets.antt =====
-- The id lists of src/access/ as sets.
use wenyouzhan.Common.{
  ℕ, ◌≡◌, inl, inr, refl, Bool, not, ◌&&◌, ◌||◌, Bool-cases, List, [], ◌∷◌, ◌==◌, arith, has_row,
  tables,
}
use wenyouzhan.Store.Rows.{UserBlock}
use wenyouzhan.Access.Blocks.{contains, without, distinct, blockers_of, blocked_of, blocks_row}
use wenyouzhan.Access.Threads.{keep}

pub contains-without :
    (a b : ℕ) (xs : List ℕ) → contains b (without a xs) ≡ (contains b xs && not (b == a))
unfolding without tables
contains-without a b [] = ground arith
contains-without a b (x ∷ xs) = ground (arith, contains-without a b xs)

pub contains-distinct : (b : ℕ) (xs : List ℕ) → contains b (distinct xs) ≡ contains b xs
unfolding distinct tables
contains-distinct b [] = refl
contains-distinct b (x ∷ xs) =
    ground (arith, contains-distinct b xs, contains-without x b (distinct xs))

pub contains-keep :
    (p : ℕ → Bool) (b : ℕ) (xs : List ℕ) → contains b (keep p xs) ≡ (contains b xs && p b)
unfolding keep tables
contains-keep p b [] = refl
contains-keep p b (x ∷ xs) = elim (Bool-cases (x == b)) [
  | inl same ↦ (let e : x ≡ b = ground arith in ground (arith, contains-keep p b xs))
  | inr other ↦ ground (arith, contains-keep p b xs)
]

pub contains-blockers_of :
    (a b : ℕ) (rows : List UserBlock)
    → contains b (blockers_of a rows) ≡ has_row (blocks_row b a) rows
unfolding blockers_of tables
contains-blockers_of a b [] = refl
contains-blockers_of a b (r ∷ rows) = ground (arith, contains-blockers_of a b rows)

pub contains-blocked_of :
    (a b : ℕ) (rows : List UserBlock)
    → contains b (blocked_of a rows) ≡ has_row (blocks_row a b) rows
unfolding blocked_of tables
contains-blocked_of a b [] = refl
contains-blocked_of a b (r ∷ rows) = ground (arith, contains-blocked_of a b rows)

-- A test in two parts.
pub has_row-or :
    {A : Type 0} (p q : A → Bool) (xs : List A)
    → has_row (λ x. p x || q x) xs ≡ (has_row p xs || has_row q xs)
unfolding tables
has_row-or p q [] = refl
has_row-or p q (x ∷ xs) = ground (arith, has_row-or p q xs)
