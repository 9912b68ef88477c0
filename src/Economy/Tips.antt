-- ===== src/Economy/Tips.antt =====
-- The data of a tip and the checks that only read (src/economy/economy.service.ts).
use wenyouzhan.Common.{
  ℕ, Bool, true, not, ◌||◌, ◌&&◌, Option, none, some, ◌==◌, is_some, is_none, is_value,
  if◌then◌else◌, find_first, find_unique,
}
use wenyouzhan.ErrorCode.{
  thread_not_found, moment_not_found, tip_not_allowed, idempotency_key_reused,
}
use wenyouzhan.Exception.{Result, ok, err, business, not_found_error, forbidden_error}
use wenyouzhan.Store.{Store, Tx, pure, gets, or_throw, throw_if, ◌>>=◌, ◌>>◌}
use wenyouzhan.Store.Keys.{TipTargetType, thread_target, user_target, moment_target}
use wenyouzhan.Store.Rows.{Thread, Moment, WalletTransaction}
use wenyouzhan.Progression.{user_by_id}
use wenyouzhan.Access.Threads.{is_private, is_member}

pub record TipTarget : Type 0 where
  pub target_type : TipTargetType
  pub recipient_id : ℕ
  pub thread_id : Option ℕ
  pub moment_id : Option ℕ

pub record PreparedTip : Type 0 where
  pub amount : ℕ
  pub request_hash : ℕ
  pub sender_wallet_id : ℕ

pub record TipResponse : Type 0 where
  pub transaction_id : ℕ
  pub gross_amount : ℕ
  pub recipient_amount : ℕ
  pub platform_amount : ℕ
  pub balance : ℕ
  pub thread_tip_total : Option ℕ
  pub moment_tip_total : Option ℕ
  pub recipient_tip_total : ℕ
  pub recipient_tip_count : ℕ

-- `tipResponse`; an absent total is a property that the response does not have.
abbrev pub tip_response : WalletTransaction → TipResponse
tip_response t = record {
  transaction_id = t.id;
  gross_amount = t.gross_amount;
  recipient_amount = t.recipient_amount;
  platform_amount = t.platform_amount;
  balance = elim t.sender_balance_after [ none ↦ 0 | some b ↦ b ];
  thread_tip_total = t.thread_tip_total_after;
  moment_tip_total = t.moment_tip_total_after;
  recipient_tip_total = t.recipient_tip_total_after;
  recipient_tip_count = t.recipient_tip_count_after;
}

-- The row that the unique key `(senderWalletId, clientRequestId)` selects.
abbrev pub is_request : ℕ → ℕ → WalletTransaction → Bool
is_request wallet_id request_id t =
    is_value t.sender_wallet_id wallet_id && is_value t.client_request_id request_id

abbrev pub find_request : ℕ → ℕ → Store → Option WalletTransaction
find_request wallet_id request_id s =
    find_first (is_request wallet_id request_id) s.wallet_transactions

-- `assertReplayHash` and the response of a replayed transaction.
unfoldable pub replay_response : ℕ → WalletTransaction → Result TipResponse
replay_response expected t =
    if is_value t.request_hash expected
    then ok (tip_response t)
    else err (business idempotency_key_reused 409)

-- `thread.findUnique` and `moment.findUnique` with `deletedAt: null`, by a target's id.
abbrev pub target_thread : Option ℕ → Store → Option Thread
target_thread id s = find_unique (λ t. is_value id t.id) (λ t. is_none t.deleted_at) s.threads

abbrev pub target_moment : Option ℕ → Store → Option Moment
target_moment id s = find_unique (λ m. is_value id m.id) (λ m. is_none m.deleted_at) s.moments

-- The thread or moment as the transaction sees it.
unfoldable pub check_target : ℕ → TipTarget → TipTargetType → Tx (Unit {0})
check_target sender_id target user_target = pure tt
check_target sender_id target thread_target = do
  t ← or_throw (← gets (target_thread target.thread_id)) (not_found_error thread_not_found)
  throw_if (not t.published || not (t.owner_id == target.recipient_id))
      (not_found_error thread_not_found)
  member ← gets (is_member t.id sender_id)
  throw_if (is_private t.visibility && not member) (not_found_error thread_not_found)
check_target sender_id target moment_target = do
  m ← or_throw (← gets (target_moment target.moment_id)) (not_found_error moment_not_found)
  throw_if (not (m.author_id == target.recipient_id)) (not_found_error moment_not_found)
  author ← gets (user_by_id m.author_id)
  throw_if (elim author [ none ↦ true | some u ↦ is_some u.deleted_at ])
      (forbidden_error tip_not_allowed)
