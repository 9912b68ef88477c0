-- ===== src/Progression/Grants.antt =====
-- What a grant of experience does, and why it is made only once.
use wenyouzhan.Common.{
  ℕ, ◌+◌, ◌<◌, ◌⊎◌, ◌≡◌, ◌≢◌, true, false, none, some, arith, ◌==◌, Bool-cases, Option-cases, inl,
  inr, update_first, find_first-insert-none,
}
use wenyouzhan.Exception.{ok}
use wenyouzhan.Store.{Store}
use wenyouzhan.Store.Keys.{ExperienceKey, experience_key_eq, check_in_key, reversal_key, caller_key}
use wenyouzhan.Store.Rows.{User}
use wenyouzhan.Progression.Rules.{experience_rules}
use wenyouzhan.Progression.{
  GrantExperienceInput, GrantExperienceResult, grant_in_transaction, grant_to_user, award,
  user_by_id, event_by_key, is_stat, stat_row, stat_rows, new_event, count_grant, set_experience,
  date_of, refused,
}

experience_key_eq_refl : (k : ExperienceKey) → experience_key_eq k k ≡ true
experience_key_eq_refl (check_in_key u d) = ground arith
experience_key_eq_refl (reversal_key i) = ground arith
experience_key_eq_refl (caller_key t) = ground arith

-- A key that an award has used is found from then on.
award_key :
    (now : ℕ) (i : GrantExperienceInput) (u : User) (s s' : Store) (r : GrantExperienceResult)
    → event_by_key i.idempotency_key s ≡ none
    → award now i u s ≡ ok (r, s')
    → event_by_key i.idempotency_key s' ≢ none
unfolding award
award_key now i u s s' r free h = ground (
  arith,
  experience_key_eq_refl i.idempotency_key,
  find_first-insert-none (λ e. experience_key_eq e.idempotency_key i.idempotency_key)
      s.experience_events (new_event i (experience_rules i.grant_type) (date_of now i) s.next_id),
)

known_key_refused :
    (now : ℕ) (j : GrantExperienceInput) (s : Store)
    → event_by_key j.idempotency_key s ≢ none
    → (level experience : ℕ) × (grant_in_transaction now j s ≡ ok (refused level experience, s))
unfolding grant_in_transaction grant_to_user
known_key_refused now j s known = elim (Option-cases (user_by_id j.user_id s)) [
  | inl missing ↦ (1, 0, ground arith)
  | inr (u, found) ↦ (u.level, u.experience, ground arith)
]

grant_key :
    (now : ℕ) (i : GrantExperienceInput) (s s' : Store) (r : GrantExperienceResult)
    → grant_in_transaction now i s ≡ ok (r, s')
    → r.granted_now ≡ true
    → event_by_key i.idempotency_key s' ≢ none
unfolding grant_in_transaction grant_to_user
grant_key now i s s' r h g = elim (Option-cases (user_by_id i.user_id s)) [
  | inl missing ↦ absurd (ground arith)
  | inr (u, found) ↦ ground (
    arith,
    award_key now i u
        (record s { experience_stats = stat_rows i.user_id (date_of now i) s.experience_stats }) s'
        r,
  )
]

-- A grant that was made is not made again: whatever is asked later under its key, for any user and
-- any type of event, is refused with a gain of 0, and the database stays as it is.
pub grant_once :
    (now later : ℕ) (i j : GrantExperienceInput) (s s' : Store) (r : GrantExperienceResult)
    → grant_in_transaction now i s ≡ ok (r, s')
    → r.granted_now ≡ true
    → j.idempotency_key ≡ i.idempotency_key
    → (level experience : ℕ) × (grant_in_transaction later j s' ≡ ok (refused level experience, s'))
grant_once now later i j s s' r h g e =
    known_key_refused later j s' (rw e (grant_key now i s s' r h g))

-- The two ways a grant can end: nothing but a new row of zero counters, or the three writes.
abbrev pub Refuses : ℕ → GrantExperienceInput → Store → GrantExperienceResult × Store → Type 0
Refuses now i s (r, s') =
    (r.granted_now ≡ false)
    × (r.delta ≡ 0)
    × (s'.users ≡ s.users)
    × ((s'.experience_stats ≡ s.experience_stats)
        ⊎ (s'.experience_stats ≡ stat_rows i.user_id (date_of now i) s.experience_stats))

abbrev pub Awards : ℕ → GrantExperienceInput → Store → GrantExperienceResult × Store → Type 0
Awards now i s (r, s') =
    let rule = experience_rules i.grant_type in
    let day = date_of now i in
    (u : User) × (user_by_id i.user_id s ≡ some u)
    × (u.deleted_at ≡ none)
    × (r.granted_now ≡ true)
    × (r.delta ≡ rule.delta)
    × (s'.users
        ≡ update_first (λ v. v.id == i.user_id) (set_experience (u.experience + rule.delta))
            s.users)
    × ((stat_row i.user_id day s.experience_stats).counts rule.counter < rule.daily_cap)
    × (s'.experience_stats
        ≡ update_first (is_stat i.user_id day) (count_grant rule)
            (stat_rows i.user_id day s.experience_stats))

pub grant_cases :
    (now : ℕ) (i : GrantExperienceInput) (s s' : Store) (r : GrantExperienceResult)
    → grant_in_transaction now i s ≡ ok (r, s')
    → Refuses now i s (r, s') ⊎ Awards now i s (r, s')
unfolding grant_in_transaction grant_to_user award
grant_cases now i s s' r h = elim (Option-cases (user_by_id i.user_id s)) [
  | inl missing ↦ inl (ground arith)
  | inr (u, found) ↦ elim (Bool-cases r.granted_now) [
    | inl made ↦
        inr (u, found, ground arith, made, ground arith, ground arith, ground arith, ground arith)
    | inr not_made ↦ inl (ground arith)
  ]
]
