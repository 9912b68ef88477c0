-- ===== src/Progression/Rules.antt =====
-- Levels, experience rules and the Beijing day (src/progression/progression.constants.ts).
use wenyouzhan.Common.{
  ℕ, zero, suc, ◌+◌, ◌-◌, ◌*◌, ◌/◌, Option, none, some, List, [], ◌∷◌, length, leb, ◌==◌,
  if◌then◌else◌,
}
use wenyouzhan.Store.Keys.{
  GrantableType, daily_check_in, thread_published, private_thread_activated, post_created,
  thread_reply_received, thread_liked, moment_published, moment_comment_created,
  moment_reply_received, tip_sent, tip_received, Counter, check_in_count, thread_publish_count,
  post_create_count, received_reply_count, received_like_count, moment_publish_count,
  moment_comment_count, moment_reply_received_count, tip_sent_count, tip_received_count,
}

abbrev pub level_thresholds : List ℕ
level_thresholds = 0 ∷ 50 ∷ 200 ∷ 600 ∷ 1500 ∷ 3500 ∷ 7000 ∷ 14000 ∷ 30000 ∷ []

-- `LEVEL_THRESHOLDS[index]`, which is `undefined` out of range.
abbrev pub get_elem? : List ℕ → ℕ → Option ℕ
get_elem? [] i = none
get_elem? (x ∷ xs) zero = some x
get_elem? (x ∷ xs) (suc i) = get_elem? xs i

abbrev pub threshold : ℕ → ℕ
threshold i = elim (get_elem? level_thresholds i) [ none ↦ 0 | some t ↦ t ]

pub record ExperienceRule : Type 0 where
  pub delta : ℕ
  pub daily_cap : ℕ
  pub counter : Counter

abbrev rule : ℕ → ℕ → Counter → ExperienceRule
rule delta cap counter = record { delta = delta; daily_cap = cap; counter = counter }

unfoldable pub experience_rules : GrantableType → ExperienceRule
experience_rules daily_check_in = rule 2 1 check_in_count
experience_rules thread_published = rule 30 1 thread_publish_count
experience_rules private_thread_activated = rule 15 1 thread_publish_count
experience_rules post_created = rule 3 5 post_create_count
experience_rules thread_reply_received = rule 2 5 received_reply_count
experience_rules thread_liked = rule 2 10 received_like_count
experience_rules moment_published = rule 4 3 moment_publish_count
experience_rules moment_comment_created = rule 2 5 moment_comment_count
experience_rules moment_reply_received = rule 1 5 moment_reply_received_count
experience_rules tip_sent = rule 1 3 tip_sent_count
experience_rules tip_received = rule 2 5 tip_received_count

-- The loop of `levelForExperience`: `index` runs down from the top, and is one more here.
level_from : ℕ → ℕ → ℕ
level_from zero experience = 1
level_from (suc index) experience =
    if leb (threshold index) experience then index + 1 else level_from index experience

unfoldable pub level_for_experience : ℕ → ℕ
unfolding level_from
level_for_experience experience = level_from (length level_thresholds) experience

pub record Progression : Type 0 where
  pub level : ℕ
  pub experience : ℕ
  pub current_level_experience : Option ℕ
  pub next_level_experience : Option ℕ

unfoldable pub progression_for : ℕ → Progression
progression_for experience =
    let level = level_for_experience experience in
    record {
      level = level;
      experience = experience;
      current_level_experience = get_elem? level_thresholds (level - 1);
      next_level_experience =
          if level == length level_thresholds then none else get_elem? level_thresholds level;
    }

-- The day of an instant on Beijing's calendar, counted from 1970: the text that the code cuts out
-- of the ISO form names that day.
unfoldable pub beijing_date_key : ℕ → ℕ
beijing_date_key value = (value + 8 * 60 * 60 * 1000) / (24 * 60 * 60 * 1000)
