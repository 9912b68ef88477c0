-- ===== src/Tests/Progression.antt =====
use wenyouzhan.Common.{
  ℕ, if◌then◌else◌, ◌==◌, false, ◌≡◌, refl, ◌+◌, ◌≤◌, true, none, some, arith, sum_of, tables,
}
use wenyouzhan.Exception.{ok, err}
use wenyouzhan.Store.{Store, add_event}
use wenyouzhan.Store.Keys.{caller_key, thread_published}
use wenyouzhan.Store.Rows.{User}
use wenyouzhan.Progression.{
  GrantExperienceInput, GrantExperienceResult, grant_in_transaction, grant_to_user, award, stat_row,
  stat_rows, refused, reverse, reverse_event, user_by_id,
}
use wenyouzhan.Progression.Rules.{
  experience_rules, level_for_experience, Progression, progression_for, beijing_date_key,
}
use wenyouzhan.Progression.Levels.{level_mono, level-bounds}
use wenyouzhan.Progression.Grants.{grant_once}
use wenyouzhan.Progression.Caps.{CapsHold, grant-CapsHold}
use wenyouzhan.Progression.Accounts.{LevelsMatch, grant-LevelsMatch, grant_experience}
use wenyouzhan.Tests.Sample.{db, user, value_or}

code : Unit {0}
unfolding grant_in_transaction grant_to_user award stat_row stat_rows reverse reverse_event
    experience_rules level_for_experience progression_for beijing_date_key add_event tables
code = tt

-- 2026-08-01 00:00 in Beijing.
abbrev now : ℕ
now = 1785513600000

abbrev published : GrantExperienceInput
published = record {
  user_id = 10;
  grant_type = thread_published;
  idempotency_key = caller_key 5;
  occurred_at = none;
  source_id = none;
}

abbrev granted : GrantExperienceResult × Store
unfolding code
granted = value_or (refused 1 0, db) (grant_in_transaction now published db)

granted_lem : grant_in_transaction now published db ≡ ok (granted.0, granted.1)
unfolding code
granted_lem = refl

-- 49 + 30 reaches level 2; the event is announced.
granted_values :
    (granted.0.granted_now ≡ true)
    × (granted.0.delta ≡ 30)
    × (granted.0.progression.level ≡ 2)
    × (user_by_id 10 granted.1 ≡ some (user 10 79 2))
unfolding code
granted_values = (refl, refl, refl, refl)

abbrev event_id : ℕ
event_id = 1000

abbrev reversed : Progression × Store
unfolding code
reversed = elim (reverse now event_id granted.1) [
  | ok (some p, s) ↦ (p, s)
  | ok (none, s) ↦ (progression_for 0, db)
  | err _ ↦ (progression_for 0, db)
]

level_of_79 : level_for_experience 49 ≤ level_for_experience 79
level_of_79 = level_mono 49 79 (omega arith)

level-bounds_example : (1 ≤ level_for_experience 79) × (level_for_experience 79 ≤ 9)
level-bounds_example = level-bounds 79

grant_once_example :
    (level experience : ℕ) × (grant_in_transaction (now + 5) published granted.1
      ≡ ok (refused level experience, granted.1))
grant_once_example =
    grant_once now (now + 5) published published db granted.1 granted.0 granted_lem granted_values.0
      refl

db-LevelsMatch : LevelsMatch db
unfolding code
db-LevelsMatch = (refl, (refl, (refl, tt)))

granted-LevelsMatch : LevelsMatch granted.1
granted-LevelsMatch =
    grant-LevelsMatch now published db granted.1 granted.0 db-LevelsMatch granted_lem

grant-LevelsMatch_example : LevelsMatch granted.1
grant-LevelsMatch_example =
    grant-LevelsMatch now published db granted.1 granted.0 db-LevelsMatch granted_lem

grant-CapsHold_example : CapsHold granted.1
grant-CapsHold_example = grant-CapsHold now published db granted.1 granted.0 tt granted_lem

grant_experience_example :
    (granted.0.delta
      ≡ (if granted.0.granted_now then (experience_rules thread_published).delta else 0))
    × (sum_of (λ v. v.experience) granted.1.users
        ≡ sum_of (λ v. v.experience) db.users + granted.0.delta)
    × ((v : User) × (user_by_id 10 granted.1 ≡ some v) × (v.experience ≡ 49 + granted.0.delta))
    × ((k : ℕ) → (k == 10) ≡ false → user_by_id k granted.1 ≡ user_by_id k db)
unfolding code
grant_experience_example =
    grant_experience now published db granted.1 granted.0 (user 10 49 1) granted_lem refl

reversed_lem : reverse now event_id granted.1 ≡ ok (some reversed.0, reversed.1)
unfolding code
reversed_lem = refl

-- The reversal takes the 30 back, and the level with it.
reversed_values : (user_by_id 10 reversed.1 ≡ some (user 10 49 1)) × (reversed.0.level ≡ 1)
unfolding code
reversed_values = (refl, refl)

today : beijing_date_key now ≡ 20666
unfolding code
today = refl
