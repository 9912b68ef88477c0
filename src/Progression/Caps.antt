-- ===== src/Progression/Caps.antt =====
-- The daily caps of experience grants.
use wenyouzhan.Common.{
  ℕ, ◌≤◌, ◌<◌, ◌≡◌, List, some, arith, All, Option-cases, inl, inr, find_first,
  find_first-insert-none, All-insert, All-update_first,
}
use wenyouzhan.Exception.{ok}
use wenyouzhan.Store.{Store}
use wenyouzhan.Store.Keys.{Counter, column, GrantableType}
use wenyouzhan.Store.Rows.{ExperienceDailyStat}
use wenyouzhan.Progression.Rules.{experience_rules}
use wenyouzhan.Progression.Grants.{grant_cases}
use wenyouzhan.Progression.{
  GrantExperienceInput, GrantExperienceResult, grant_in_transaction, is_stat, stat_row, stat_rows,
  new_stat, count_grant, date_of,
}

-- The cap of each counter, whichever rule counts on it.
abbrev pub CapsHold : Store → Type 0
CapsHold s =
    All
      (λ r.
        (t : GrantableType)
        → r.counts (experience_rules t).counter ≤ (experience_rules t).daily_cap)
      s.experience_stats

column_injective : (c d : Counter) → column c ≡ column d → c ≡ d
column_injective c d h = ground arith

-- Rules that count on one column have one cap.
shared_cap :
    (t u : GrantableType)
    → (experience_rules t).counter ≡ (experience_rules u).counter
    → (experience_rules t).daily_cap ≡ (experience_rules u).daily_cap
unfolding experience_rules
shared_cap t u h = ground arith

abbrev IsCapped : ExperienceDailyStat → Type 0
IsCapped r =
    (t : GrantableType) → r.counts (experience_rules t).counter ≤ (experience_rules t).daily_cap

find_first-stat_rows :
    (u d : ℕ) (rows : List ExperienceDailyStat)
    → find_first (is_stat u d) (stat_rows u d rows) ≡ some (stat_row u d rows)
unfolding stat_rows stat_row
find_first-stat_rows u d rows =
    ground (arith, find_first-insert-none (is_stat u d) rows (new_stat u d))

stat_rows-IsCapped :
    (u d : ℕ) (rows : List ExperienceDailyStat)
    → All IsCapped rows
    → All IsCapped (stat_rows u d rows)
unfolding stat_rows
stat_rows-IsCapped u d rows h = elim (Option-cases (find_first (is_stat u d) rows)) [
  | inl new ↦ rw (new, stat_rows) (All-insert IsCapped rows (new_stat u d) h (λ t. omega arith))
  | inr (r, old) ↦ rw (old, stat_rows) h
]

-- Counting a grant below the cap leaves the row within its caps.
count_grant-IsCapped :
    (t : GrantableType) (r : ExperienceDailyStat)
    → r.counts (experience_rules t).counter < (experience_rules t).daily_cap
    → IsCapped r
    → IsCapped (count_grant (experience_rules t) r)
count_grant-IsCapped t r below h u = ground (
  arith,
  h u,
  shared_cap u t,
  column_injective (experience_rules u).counter (experience_rules t).counter,
)

-- Every grant, made or refused, keeps every counter of every user and day within its cap.
pub grant-CapsHold :
    (now : ℕ) (i : GrantExperienceInput) (s s' : Store) (r : GrantExperienceResult)
    → CapsHold s
    → grant_in_transaction now i s ≡ ok (r, s')
    → CapsHold s'
grant-CapsHold now i s s' r h e =
    let rows = stat_rows-IsCapped i.user_id (date_of now i) s.experience_stats h in
    elim (grant_cases now i s s' r e) [
      | inl (_, _, _, inl same) ↦ rw same h
      | inl (_, _, _, inr same) ↦ rw same rows
      | inr (u, _, _, _, _, _, below, stats) ↦ rw stats (
          All-update_first IsCapped _ _ _
            (λ x found.
              count_grant-IsCapped i.grant_type x
                (ground (arith, find_first-stat_rows i.user_id (date_of now i) s.experience_stats)))
            rows)
    ]
