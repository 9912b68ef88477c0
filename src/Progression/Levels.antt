-- ===== src/Progression/Levels.antt =====
-- What `levelForExperience`, `progressionFor` and `beijingDateKey` compute.
use wenyouzhan.Common.{ℕ, ◌+◌, ◌*◌, ◌≤◌, ◌<◌, ◌≡◌, ◌↔◌, none, some, arith, ◌≢◌}
use wenyouzhan.Progression.Rules.{level_for_experience, progression_for, beijing_date_key}

pub level-bounds : (e : ℕ) → (1 ≤ level_for_experience e) × (level_for_experience e ≤ 9)
unfolding level_for_experience
level-bounds e = ground arith

-- More experience never means a lower level.
pub level_mono : (e f : ℕ) → e ≤ f → level_for_experience e ≤ level_for_experience f
unfolding level_for_experience
level_mono e f h = ground arith

-- The level of an experience is the one whose threshold it has reached and whose next threshold it
-- has not reached; the top level, 9, is the one without a next threshold.
pub progression_for_sound :
    (e : ℕ)
    → let p = progression_for e in
      (p.current_level_experience ≢ none)
      × ((c : ℕ) → p.current_level_experience ≡ some c → c ≤ e)
      × ((n : ℕ) → p.next_level_experience ≡ some n → e < n)
      × ((p.next_level_experience ≡ none) ↔ (p.level ≡ 9))
unfolding progression_for level_for_experience
progression_for_sound e =
    (ground arith, λ c h. ground arith, λ n h. ground arith, (λ h. ground arith, λ h. ground arith))

-- The date key of an instant is `d` exactly when the instant lies between the Beijing midnight that
-- begins day `d`, eight hours before UTC's, and the next one.
pub beijing_date_key-eq_iff :
    (t d : ℕ)
    → (beijing_date_key t ≡ d)
      ↔ ((86400000 * d ≤ t + 28800000) × (t + 28800000 < 86400000 * (d + 1)))
unfolding beijing_date_key
beijing_date_key-eq_iff t d = (λ h. omega arith, λ h. omega arith)
