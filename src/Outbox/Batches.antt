-- ===== src/Outbox/Batches.antt =====
-- Batches whose listeners succeed.
use wenyouzhan.Common.{
  ℕ, zero, suc, ◌+◌, ◌≤◌, ◌≡◌, Bool, true, not, ◌&&◌, Bool-cases, List, [], ◌∷◌, ◌==◌, leb, ltb,
  arith, tables, if◌then◌else◌, is_none, update_where, All, All-map, has_row, count_where, length,
  inl, inr,
}
use wenyouzhan.Outbox.{Event, Outbox, is_due, leased, claim, is_open, processed}

abbrev pub is_pending : Event → Bool
is_pending r = is_none r.processed_at

abbrev pub pending_count : Outbox → ℕ
pending_count o = count_where is_pending o.rows

abbrev pub is_among : ℕ → List Event → Bool
is_among k cs = has_row (λ c. c.id == k) cs

-- Pending, and not of a claimed event.
abbrev pub is_left : List Event → Event → Bool
is_left cs r = is_pending r && not (is_among r.id cs)

-- Every pending event can be claimed from `t` on.
abbrev pub AllDue : ℕ → Outbox → Type 0
AllDue t o = All (λ r. is_pending r ≡ true → leb r.available_at t ≡ true) o.rows

-- The same, but for the claimed events.
abbrev pub LeftDue : ℕ → List Event → Event → Type 0
LeftDue t cs r = is_left cs r ≡ true → leb r.available_at t ≡ true

fewer_left :
    (c : Event) (cs rows : List Event)
    → count_where (is_left (c ∷ cs)) rows ≤ count_where (is_left cs) rows
unfolding tables
fewer_left c cs [] = omega arith
fewer_left c cs (r ∷ rows) = ground (arith, fewer_left c cs rows)

-- The claimed events leave that many fewer.
pub claim-left :
    (limit now : ℕ) (rows : List Event)
    → count_where (is_left (claim limit now rows).0) (claim limit now rows).1
        + length (claim limit now rows).0
      ≤ count_where is_pending rows
unfolding claim tables
claim-left zero now [] = omega arith
claim-left zero now (r ∷ rows) = ground (arith, claim-left zero now rows)
claim-left (suc limit) now [] = omega arith
claim-left (suc limit) now (r ∷ rows) = ground (
  arith,
  claim-left limit now rows,
  claim-left (suc limit) now rows,
  fewer_left (leased now r) (claim limit now rows).0 (claim limit now rows).1,
)

pub claim-length :
    (limit now : ℕ) (rows : List Event)
    → length (claim limit now rows).0
      ≡ (if ltb limit (count_where (is_due now) rows) then limit else count_where (is_due now) rows)
unfolding claim tables
claim-length zero now rows = ground arith
claim-length (suc limit) now [] = ground arith
claim-length (suc limit) now (r ∷ rows) =
    ground (arith, claim-length limit now rows, claim-length (suc limit) now rows)

pub claim-LeftDue :
    (limit now t : ℕ) (rows : List Event)
    → All (λ r. is_pending r ≡ true → leb r.available_at t ≡ true) rows
    → All (LeftDue t (claim limit now rows).0) (claim limit now rows).1
unfolding claim tables
claim-LeftDue zero now t rows h = All-map (λ r g. ground (arith, g)) rows h
claim-LeftDue (suc limit) now t [] h = tt
claim-LeftDue (suc limit) now t (r ∷ rows) h = elim (Bool-cases (is_due now r)) [
  | inl due ↦ rw due (
    λ left. ground arith,
    All-map (λ x g left. ground (arith, g)) (claim limit now rows).1
        (claim-LeftDue limit now t rows h.1),
  )
  | inr later ↦ rw later (λ left. ground (arith, h.0), claim-LeftDue (suc limit) now t rows h.1)
]

-- A confirmation takes its event off.
pub confirm-left :
    (now : ℕ) (c : Event) (cs rows : List Event)
    → count_where (is_left cs) (update_where (is_open c.id) (processed now) rows)
      ≤ count_where (is_left (c ∷ cs)) rows
unfolding tables
confirm-left now c cs [] = omega arith
confirm-left now c cs (r ∷ rows) = ground (arith, confirm-left now c cs rows)

pub confirm-LeftDue :
    (now t : ℕ) (c : Event) (cs rows : List Event)
    → All (LeftDue t (c ∷ cs)) rows
    → All (LeftDue t cs) (update_where (is_open c.id) (processed now) rows)
unfolding tables
confirm-LeftDue now t c cs [] h = tt
confirm-LeftDue now t c cs (r ∷ rows) h =
    (λ left. ground (arith, h.0, left), confirm-LeftDue now t c cs rows h.1)
