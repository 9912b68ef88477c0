-- ===== src/Progression.antt =====
-- Experience grants and their reversal (src/progression/progression.service.ts). Row locks
-- (`FOR UPDATE`) have no effect of their own on a transaction that is run alone.
pub mod Rules
pub mod Levels
pub mod Grants
pub mod Caps
pub mod Accounts
use wenyouzhan.Common.{
  ℕ, ◌+◌, ◌-◌, Bool, true, false, ◌||◌, ◌&&◌, Option, none, some, List, [], ◌∷◌, leb, ltb, ◌==◌,
  is_some, is_none, if◌then◌else◌, find_first, has_row, insert, update_first,
}
use wenyouzhan.Common.Int.{ℤ, pos, negsuc, neg, pos_part}
use wenyouzhan.Exception.{Result, ok, err, BusinessException, not_found_error}
use wenyouzhan.ErrorCode.{user_not_found}
use wenyouzhan.Store.{Store, Tx, pure, gets, modify, fresh_id, add_event, or_throw, ◌>>=◌, ◌>>◌}
use wenyouzhan.Store.Keys.{
  GrantableType, EventType, granted, reversal, Counter, column, ExperienceKey, reversal_key,
  experience_key_eq, level_up_key,
}
use wenyouzhan.Store.Rows.{User, ExperienceEvent, ExperienceDailyStat, user_level_up}
use Rules.{
  ExperienceRule, experience_rules, level_for_experience, Progression, progression_for,
  beijing_date_key,
}

pub record GrantExperienceInput : Type 0 where
  pub user_id : ℕ
  pub grant_type : GrantableType
  pub idempotency_key : ExperienceKey
  pub occurred_at : Option ℕ
  pub source_id : Option ℕ

pub record GrantExperienceResult : Type 0 where
  pub granted_now : Bool
  pub delta : ℕ
  pub previous_level : ℕ
  pub progression : Progression

abbrev pub refused : ℕ → ℕ → GrantExperienceResult
refused level experience = record {
  granted_now = false;
  delta = 0;
  previous_level = level;
  progression = progression_for experience;
}

abbrev pub user_by_id : ℕ → Store → Option User
user_by_id id s = find_first (λ u. u.id == id) s.users

abbrev pub event_by_key : ExperienceKey → Store → Option ExperienceEvent
event_by_key key s = find_first (λ e. experience_key_eq e.idempotency_key key) s.experience_events

abbrev pub is_stat : ℕ → ℕ → ExperienceDailyStat → Bool
is_stat user_id date_key r = r.user_id == user_id && r.date_key == date_key

abbrev pub new_stat : ℕ → ℕ → ExperienceDailyStat
new_stat user_id date_key = record {
  user_id = user_id;
  date_key = date_key;
  counts = λ _. 0;
  experience_awarded = 0;
}

-- `experienceDailyStat.upsert`: the row that it gives, and the table behind it.
unfoldable pub stat_row : ℕ → ℕ → List ExperienceDailyStat → ExperienceDailyStat
stat_row user_id date_key rows = elim (find_first (is_stat user_id date_key) rows) [
  | some r ↦ r
  | none ↦ new_stat user_id date_key
]

unfoldable pub stat_rows : ℕ → ℕ → List ExperienceDailyStat → List ExperienceDailyStat
stat_rows user_id date_key rows = elim (find_first (is_stat user_id date_key) rows) [
  | some r ↦ rows
  | none ↦ insert (new_stat user_id date_key) rows
]

abbrev pub upsert_stat : ℕ → ℕ → Tx ExperienceDailyStat
upsert_stat user_id date_key s = ok (
  stat_row user_id date_key s.experience_stats,
  record s { experience_stats = stat_rows user_id date_key s.experience_stats },
)

-- The update of the day's row: one counter, and the sum.
abbrev pub count_grant : ExperienceRule → ExperienceDailyStat → ExperienceDailyStat
count_grant rule r = record r {
  counts = λ c. if column c == column rule.counter then r.counts c + 1 else r.counts c;
  experience_awarded = r.experience_awarded + rule.delta;
}

abbrev pub set_experience : ℕ → User → User
set_experience experience u = record u {
  experience = experience;
  level = level_for_experience experience;
}

abbrev pub new_event : GrantExperienceInput → ExperienceRule → ℕ → ℕ → ExperienceEvent
new_event input rule date_key id = record {
  id = id;
  user_id = input.user_id;
  event_type = granted input.grant_type;
  delta = pos rule.delta;
  date_key = date_key;
  idempotency_key = input.idempotency_key;
  source_id = input.source_id;
  reversed_at = none;
}

abbrev pub date_of : ℕ → GrantExperienceInput → ℕ
date_of now input = beijing_date_key (elim input.occurred_at [ none ↦ now | some t ↦ t ])

-- The writes of a grant below the cap.
unfoldable pub award : ℕ → GrantExperienceInput → User → Tx GrantExperienceResult
award now input user = do
  let rule = experience_rules input.grant_type
  let date_key = date_of now input
  let experience = user.experience + rule.delta
  let level = level_for_experience experience
  event_id ← fresh_id
  modify λ s. record s {
    experience_events = insert (new_event input rule date_key event_id) s.experience_events;
    experience_stats =
        update_first (is_stat input.user_id date_key) (count_grant rule) s.experience_stats;
    users = update_first (λ u. u.id == input.user_id) (set_experience experience) s.users;
  }
  modify λ s. record s {
    outbox =
        if ltb user.level level
        then add_event
            (record {
              event_key = level_up_key event_id level;
              payload = user_level_up input.user_id user.level level experience;
            })
            s.outbox
        else s.outbox;
  }
  pure (record {
    granted_now = true;
    delta = rule.delta;
    previous_level = user.level;
    progression = progression_for experience;
  })

-- `grantInTransaction` for a user that exists and is not deleted.
unfoldable pub grant_to_user : ℕ → GrantExperienceInput → User → Tx GrantExperienceResult
grant_to_user now input user s =
    if is_some (event_by_key input.idempotency_key s)
    then ok (refused user.level user.experience, s)
    else (do
      stat ← upsert_stat input.user_id (date_of now input)
      let rule = experience_rules input.grant_type
      if leb rule.daily_cap (stat.counts rule.counter)
          then pure (refused user.level user.experience)
          else award now input user)
        s

unfoldable pub grant_in_transaction : ℕ → GrantExperienceInput → Tx GrantExperienceResult
grant_in_transaction now input s = elim (user_by_id input.user_id s) [
  | none ↦ ok (refused 1 0, s)
  | some user ↦
      if is_some user.deleted_at
      then ok (refused user.level user.experience, s)
      else grant_to_user now input user s
]

-- `reverse`: the event's row, when it may be reversed.
abbrev pub reversible : ExperienceEvent → Bool
reversible e = ltb 0 (pos_part e.delta) && is_none e.reversed_at

abbrev pub reversal_event : ℕ → ℕ → ExperienceEvent → ℕ → ExperienceEvent
reversal_event now event_id original id = record {
  id = id;
  user_id = original.user_id;
  event_type = reversal;
  delta = neg original.delta;
  date_key = beijing_date_key now;
  idempotency_key = reversal_key event_id;
  source_id = some event_id;
  reversed_at = none;
}

unfoldable pub reverse_event : ℕ → ℕ → ExperienceEvent → User → Tx Progression
reverse_event now event_id original user = do
  let experience = user.experience - pos_part original.delta
  id ← fresh_id
  modify λ s. record s {
    experience_events = insert (reversal_event now event_id original id) (
        update_first (λ e. e.id == event_id) (λ e. record e { reversed_at = some now })
          s.experience_events);
    users = update_first (λ u. u.id == original.user_id) (set_experience experience) s.users;
  }
  pure (progression_for experience)

-- `none` is the `null` of an event that cannot be reversed. `findUniqueOrThrow` raises on a user
-- that is gone.
unfoldable pub reverse : ℕ → ℕ → Tx (Option Progression)
reverse now event_id s = elim (find_first (λ e. e.id == event_id) s.experience_events) [
  | none ↦ ok (none, s)
  | some original ↦
      if reversible original
      then (do
        user ← or_throw (user_by_id original.user_id s) (not_found_error user_not_found)
        if is_some (event_by_key (reversal_key event_id) s)
            then pure (some (progression_for user.experience))
            else (do p ← reverse_event now event_id original user; pure (some p)))
          s
      else ok (none, s)
]
