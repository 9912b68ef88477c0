-- ===== src/Tests/Economy.antt =====
-- A check-in that pays a tip, and the theorems on it.
use wenyouzhan.Common.{
  ℕ, ◌+◌, ◌*◌, ◌≡◌, ◌≤◌, ◌<◌, refl, true, false, none, some, [], ◌∷◌, arith, tables, sum_of,
}
use wenyouzhan.Common.Int.{pos}
use wenyouzhan.Exception.{ok}
use wenyouzhan.Store.{Store, add_event}
use wenyouzhan.Store.Keys.{user_target}
use wenyouzhan.Progression.{grant_in_transaction, grant_to_user, award, stat_row, stat_rows}
use wenyouzhan.Progression.Rules.{
  experience_rules, level_for_experience, progression_for, beijing_date_key,
}
use wenyouzhan.Economy.{CheckInResult, check_in, claim_check_in, update_wallet}
use wenyouzhan.Economy.Amounts.{split_tip_amount, parse_amount, split_tip_amount_sound}
use wenyouzhan.Economy.Tips.{TipTarget, PreparedTip, TipResponse, replay_response, check_target}
use wenyouzhan.Economy.Settle.{debit_wallet, raise_target, settle_tip}
use wenyouzhan.Economy.Transaction.{
  Attempt, serialization_conflict, tip_transaction, tip, tip_attempts, end_attempt,
}
use wenyouzhan.Economy.Ledger.{Books}
use wenyouzhan.Economy.Tipping.{tip_replay}
use wenyouzhan.Economy.Retries.{tip_at_most_once, EndsAt, after}
use wenyouzhan.Economy.Claims.{check_in_once, check_in-Books}
use wenyouzhan.Economy.History.{
  checked_in, tipped, History, start, next, total_paid, History-Books, History-supply,
}
use wenyouzhan.Tests.Sample.{db, value_or}

code : Unit {0}
unfolding grant_in_transaction grant_to_user award stat_row stat_rows experience_rules
    level_for_experience progression_for beijing_date_key add_event check_in claim_check_in
    update_wallet split_tip_amount parse_amount replay_response check_target debit_wallet
    raise_target settle_tip tip_transaction tip tip_attempts end_attempt tables
code = tt

split_tip_amount_sound_example :
    let split = split_tip_amount 101 in
    (split.recipient_amount + split.platform_amount ≡ 101)
    × (100 * split.recipient_amount ≤ 85 * 101)
    × (85 * 101 < 100 * (split.recipient_amount + 1))
    × (1 ≤ split.recipient_amount)
    × (1 ≤ split.platform_amount)
unfolding code
split_tip_amount_sound_example = split_tip_amount_sound (some (pos 101)) 101 refl

split_of_101 : (split_tip_amount 101).recipient_amount ≡ 85
unfolding code
split_of_101 = refl

abbrev now : ℕ
now = 1785513600000

abbrev no_claim : CheckInResult
no_claim = record {
  claimed_now = false;
  date = 0;
  reward_amount = 0;
  experience_awarded = 0;
  balance = 0;
  progression = progression_for 0;
}

abbrev claimed : CheckInResult × Store
unfolding code
claimed = value_or (no_claim, db) (check_in now 10 3 db)

claimed_lem : check_in now 10 3 db ≡ ok (claimed.0, claimed.1)
unfolding code
claimed_lem = refl

claimed_values : (claimed.0.claimed_now ≡ true) × (claimed.0.balance ≡ 3)
unfolding code
claimed_values = (refl, refl)

db-Books : Books db
unfolding tables
db-Books k = ground arith

check_in_once_example :
    (r : CheckInResult) × (check_in (now + 1000) 10 2 claimed.1 ≡ ok (r, claimed.1))
    × (r.claimed_now ≡ false)
    × (r.reward_amount ≡ claimed.0.reward_amount)
    × (r.experience_awarded ≡ claimed.0.experience_awarded)
unfolding code
check_in_once_example =
    check_in_once now (now + 1000) 10 3 2 db claimed.1 claimed.0 refl claimed_lem

claimed-Books : Books claimed.1
claimed-Books = check_in-Books now 10 3 db claimed.1 claimed.0 db-Books claimed_lem

abbrev to_11 : TipTarget
to_11 = record { target_type = user_target; recipient_id = 11; thread_id = none; moment_id = none }

abbrev two : PreparedTip
two = record { amount = 2; request_hash = 99; sender_wallet_id = 20 }

abbrev no_tip : TipResponse
no_tip = record {
  transaction_id = 0;
  gross_amount = 0;
  recipient_amount = 0;
  platform_amount = 0;
  balance = 0;
  thread_tip_total = none;
  moment_tip_total = none;
  recipient_tip_total = 0;
  recipient_tip_count = 0;
}

abbrev paid : TipResponse × Store
unfolding code
paid = value_or (no_tip, db) (tip_transaction 10 to_11 7 two claimed.1)

paid_lem : tip_transaction 10 to_11 7 two claimed.1 ≡ ok (paid.0, paid.1)
unfolding code
paid_lem = refl

-- 3 - 2 are left; each of the other two wallets has 1.
paid_values :
    (paid.0.balance ≡ 1)
    × (paid.0.recipient_amount ≡ 1)
    × (paid.0.platform_amount ≡ 1)
    × (sum_of (λ w. w.balance) paid.1.wallets ≡ 3)
unfolding code
paid_values = (refl, refl, refl, refl)

tip_replay_example : tip_transaction 10 to_11 7 two paid.1 ≡ ok (paid.0, paid.1)
tip_replay_example = tip_replay 10 to_11 7 two claimed.1 paid.1 paid.0 paid_lem

abbrev conflicts : Attempt
conflicts = record { others = λ s. s; verdict = serialization_conflict }

tip_at_most_once_example :
    (n : ℕ) × (n ≤ 3)
    × EndsAt 10 to_11 7 two
        (after n (conflicts ∷ []) claimed.1)
        (tip (conflicts ∷ []) 10 to_11 7 two claimed.1)
tip_at_most_once_example = tip_at_most_once (conflicts ∷ []) 10 to_11 7 two claimed.1

-- The second attempt commits.
retried : tip (conflicts ∷ []) 10 to_11 7 two claimed.1 ≡ (ok paid.0, paid.1)
unfolding code
retried = refl

abbrev history : History db paid.1
history =
    next (next start (checked_in now 10 3 db claimed.1 claimed.0 claimed_lem))
      (tipped 10 to_11 7 two claimed.1 paid.1 paid.0 paid_lem)

History-Books_example : Books paid.1
History-Books_example = History-Books db-Books history

History-supply_example :
    sum_of (λ w. w.balance) paid.1.wallets ≡ sum_of (λ w. w.balance) db.wallets + total_paid history
History-supply_example = History-supply history
