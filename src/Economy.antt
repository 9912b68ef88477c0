-- ===== src/Economy.antt =====
-- The wallet service (src/economy/economy.service.ts): check-ins, tips and their replay. The
-- titles that a tip's event carries are left out, and so are row locks.
pub mod Amounts
pub mod Tips
pub mod Settle
pub mod Transaction
pub mod Ledger
pub mod Frames
pub mod Tipping
pub mod Retries
pub mod CheckIns
pub mod Claims
pub mod History
use wenyouzhan.Common.{
  ℕ, ◌+◌, ◌-◌, Bool, true, false, not, ◌||◌, ◌&&◌, Option, none, some, List, [], ◌∷◌, leb, ltb,
  ◌==◌, is_some, is_none, is_value, if◌then◌else◌, find_first, has_row, insert, update_first,
}
use wenyouzhan.Common.Int.{ℤ}
use wenyouzhan.ErrorCode.{
  user_not_found, thread_not_found, moment_not_found, tip_not_allowed, account_deactivated,
  idempotency_key_reused, insufficient_wenyou, internal_error,
}
use wenyouzhan.Exception.{
  Result, ok, err, BusinessException, business, not_found_error, forbidden_error,
  unauthorized_error,
}
use wenyouzhan.Store.{
  Store, Tx, pure, throw, gets, modify, reads, fresh_id, add_event, or_throw, throw_if, ◌>>=◌, ◌>>◌,
}
use wenyouzhan.Store.Keys.{
  TipTargetType, thread_target, user_target, moment_target, public_thread, private_thread,
  daily_check_in, check_in_key, tip_completed_key, Visibility,
}
use wenyouzhan.Store.Rows.{
  User, Thread, Moment, Wallet, WalletTransaction, DailyCheckIn, tip_completed,
}
use wenyouzhan.Progression.{
  GrantExperienceInput, GrantExperienceResult, user_by_id, grant_in_transaction,
}
use wenyouzhan.Progression.Rules.{Progression, progression_for, beijing_date_key}
use Amounts.{split_tip_amount, parse_amount}

-- `PLATFORM_WALLET_ID`
abbrev pub platform_wallet_id : ℕ
platform_wallet_id = 1

abbrev pub is_wallet : ℕ → Wallet → Bool
is_wallet id w = w.id == id

abbrev pub wallet_by_id : ℕ → Store → Option Wallet
wallet_by_id id s = find_first (is_wallet id) s.wallets

abbrev pub wallet_of : ℕ → Store → Option Wallet
wallet_of user_id s = find_first (λ w. is_value w.user_id user_id) s.wallets

unfoldable pub get_wallet : ℕ → Store → Result Wallet
get_wallet user_id s = elim (wallet_of user_id s) [
  | none ↦ err (not_found_error user_not_found)
  | some w ↦ ok w
]

-- Prisma's `update` of a row that is not there raises P2025, an unknown error to the caller.
abbrev pub record_missing : BusinessException
record_missing = business internal_error 500

-- `tx.wallet.update`: gives the new row.
unfoldable pub update_wallet : (Wallet → Wallet) → ℕ → Tx Wallet
update_wallet f id s = elim (wallet_by_id id s) [
  | none ↦ err record_missing
  | some w ↦ ok (f w, record s { wallets = update_first (is_wallet id) f s.wallets })
]

abbrev pub credit : ℕ → Wallet → Wallet
credit amount w = record w { balance = w.balance + amount }

abbrev pub debit : ℕ → Wallet → Wallet
debit amount w = record w { balance = w.balance - amount }

abbrev pub credit_tip : ℕ → ℕ → Wallet → Wallet
credit_tip gross amount w = record w {
  balance = w.balance + amount;
  received_tip_total = w.received_tip_total + gross;
  received_tip_count = w.received_tip_count + 1;
}

pub record CheckInResult : Type 0 where
  pub claimed_now : Bool
  pub date : ℕ
  pub reward_amount : ℕ
  pub experience_awarded : ℕ
  pub balance : ℕ
  pub progression : Progression

abbrev pub check_in_of : ℕ → ℕ → Store → Option DailyCheckIn
check_in_of user_id date_key s =
    find_first (λ c. c.user_id == user_id && c.date_key == date_key) s.check_ins

abbrev pub check_in_transaction : ℕ → ℕ → Wallet → ℕ → ℕ → WalletTransaction
check_in_transaction date_key wallet_id w reward id = record {
  id = id;
  tip = false;
  sender_wallet_id = none;
  recipient_wallet_id = wallet_id;
  platform_wallet_id = none;
  target_type = none;
  target_thread_id = none;
  target_user_id = none;
  target_moment_id = none;
  gross_amount = reward;
  recipient_amount = reward;
  platform_amount = 0;
  sender_balance_after = none;
  recipient_balance_after = w.balance;
  platform_balance_after = none;
  thread_tip_total_after = none;
  moment_tip_total_after = none;
  recipient_tip_total_after = w.received_tip_total;
  recipient_tip_count_after = w.received_tip_count;
  client_request_id = none;
  request_hash = none;
  date_key = some date_key;
}

abbrev pub check_in_grant : ℕ → ℕ → ℕ → GrantExperienceInput
check_in_grant user_id date_key transaction_id = record {
  user_id = user_id;
  grant_type = daily_check_in;
  idempotency_key = check_in_key user_id date_key;
  occurred_at = none;
  source_id = some transaction_id;
}

abbrev pub new_check_in : ℕ → ℕ → ℕ → ℕ → ℕ → GrantExperienceResult → DailyCheckIn
new_check_in user_id wallet_id date_key reward transaction_id experience = record {
  user_id = user_id;
  wallet_id = wallet_id;
  wallet_transaction_id = transaction_id;
  date_key = date_key;
  reward_amount = reward;
  experience_awarded = experience.delta;
}

-- The writes of the day's first check-in. `reward` is what `randomInt(1, 4)` gave.
unfoldable pub claim_check_in : ℕ → ℕ → ℕ → Wallet → Tx CheckInResult
claim_check_in now user_id reward wallet = do
  let date_key = beijing_date_key now
  updated ← update_wallet (credit reward) wallet.id
  id ← fresh_id
  modify λ s. record s {
    wallet_transactions =
        insert (check_in_transaction date_key wallet.id updated reward id) s.wallet_transactions;
  }
  experience ← grant_in_transaction now (check_in_grant user_id date_key id)
  modify λ s. record s {
    check_ins = insert (new_check_in user_id wallet.id date_key reward id experience) s.check_ins;
  }
  pure (record {
    claimed_now = true;
    date = date_key;
    reward_amount = reward;
    experience_awarded = experience.delta;
    balance = updated.balance;
    progression = experience.progression;
  })

-- `checkIn`
unfoldable pub check_in : ℕ → ℕ → ℕ → Tx CheckInResult
check_in now user_id reward = do
  user ← or_throw (← gets (user_by_id user_id)) (not_found_error user_not_found)
  throw_if (is_some user.deleted_at) (not_found_error user_not_found)
  wallet ← or_throw (← gets (wallet_of user_id)) (not_found_error user_not_found)
  existing ← gets (check_in_of user_id (beijing_date_key now))
  elim existing [
    | some c ↦ pure (record {
      claimed_now = false;
      date = beijing_date_key now;
      reward_amount = c.reward_amount;
      experience_awarded = c.experience_awarded;
      balance = wallet.balance;
      progression = progression_for user.experience;
    })
    | none ↦ claim_check_in now user_id reward wallet
  ]
