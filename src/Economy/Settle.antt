-- ===== src/Economy/Settle.antt =====
-- The writes of a tip (`tip` of src/economy/economy.service.ts, from the debit to the outbox row).
use wenyouzhan.Common.{
  ℕ, ◌+◌, Bool, true, ◌&&◌, Option, none, some, leb, ◌==◌, is_value, find_first, insert,
  update_first,
}
use wenyouzhan.ErrorCode.{insufficient_wenyou}
use wenyouzhan.Exception.{ok, err, business}
use wenyouzhan.Store.{Tx, pure, modify, fresh_id, add_event, ◌>>=◌, ◌>>◌}
use wenyouzhan.Store.Keys.{
  TipTargetType, thread_target, user_target, moment_target, tip_completed_key,
}
use wenyouzhan.Store.Rows.{Wallet, WalletTransaction, tip_completed}
use wenyouzhan.Economy.{update_wallet, record_missing, credit, debit, credit_tip}
use wenyouzhan.Economy.Amounts.{split_tip_amount}
use wenyouzhan.Economy.Tips.{TipTarget, PreparedTip, TipResponse, tip_response}

-- `balance: { gte: amount }` on the sender's wallet.
abbrev pub can_pay : ℕ → ℕ → Wallet → Bool
can_pay id amount w = w.id == id && leb amount w.balance

-- The conditional debit. It gives the row after the debit.
unfoldable pub debit_wallet : ℕ → ℕ → Tx Wallet
debit_wallet id amount s = elim (find_first (can_pay id amount) s.wallets) [
  | none ↦ err (business insufficient_wenyou 409)
  | some w ↦ ok (
    debit amount w,
    record s { wallets = update_first (can_pay id amount) (debit amount) s.wallets },
  )
]

-- `tipTotal: { increment: amount }` of the target, and the total after it.
unfoldable pub raise_target : ℕ → TipTarget → TipTargetType → Tx (Option ℕ × Option ℕ)
raise_target amount target user_target s = ok ((none, none), s)
raise_target amount target thread_target s =
    elim (find_first (λ t. is_value target.thread_id t.id) s.threads) [
      | none ↦ err record_missing
      | some t ↦ ok (
        (some (t.tip_total + amount), none),
        record s {
          threads =
              update_first (λ t. is_value target.thread_id t.id)
                (λ t. record t { tip_total = t.tip_total + amount }) s.threads;
        },
      )
    ]
raise_target amount target moment_target s =
    elim (find_first (λ m. is_value target.moment_id m.id) s.moments) [
      | none ↦ err record_missing
      | some m ↦ ok (
        (none, some (m.tip_total + amount)),
        record s {
          moments =
              update_first (λ m. is_value target.moment_id m.id)
                (λ m. record m { tip_total = m.tip_total + amount }) s.moments;
        },
      )
    ]

-- The transaction's row, from the rows and totals after the writes.
abbrev pub tip_row :
    TipTarget
    → ℕ
    → PreparedTip
    → ℕ
    → ℕ
    → ℕ
    → Wallet
    → Wallet
    → Wallet
    → Option ℕ × Option ℕ
    → WalletTransaction
tip_row target request_id prepared id recipient_id platform_id sender recipient platform totals =
    let split = split_tip_amount prepared.amount in
    record {
      id = id;
      tip = true;
      sender_wallet_id = some prepared.sender_wallet_id;
      recipient_wallet_id = recipient_id;
      platform_wallet_id = some platform_id;
      target_type = some target.target_type;
      target_thread_id = target.thread_id;
      target_user_id = some target.recipient_id;
      target_moment_id = target.moment_id;
      gross_amount = prepared.amount;
      recipient_amount = split.recipient_amount;
      platform_amount = split.platform_amount;
      sender_balance_after = some sender.balance;
      recipient_balance_after = recipient.balance;
      platform_balance_after = some platform.balance;
      thread_tip_total_after = totals.0;
      moment_tip_total_after = totals.1;
      recipient_tip_total_after = recipient.received_tip_total;
      recipient_tip_count_after = recipient.received_tip_count;
      client_request_id = some request_id;
      request_hash = some prepared.request_hash;
      date_key = none;
    }

-- The writes of a tip, from the debit to the outbox row.
unfoldable pub settle_tip : ℕ → TipTarget → ℕ → PreparedTip → Wallet → Wallet → Tx TipResponse
settle_tip sender_id target request_id prepared recipient platform = do
  let split = split_tip_amount prepared.amount
  sender' ← debit_wallet prepared.sender_wallet_id prepared.amount
  recipient' ← update_wallet (credit_tip prepared.amount split.recipient_amount) recipient.id
  platform' ← update_wallet (credit split.platform_amount) platform.id
  totals ← raise_target prepared.amount target target.target_type
  id ← fresh_id
  let row =
      tip_row target request_id prepared id recipient.id platform.id sender' recipient' platform'
        totals
  modify λ s. record s {
    wallet_transactions = insert row s.wallet_transactions;
    outbox =
        add_event
          (record {
            event_key = tip_completed_key id;
            payload =
                tip_completed id sender_id target.recipient_id target.target_type target.thread_id
                  target.moment_id prepared.amount split.recipient_amount split.platform_amount
                  totals.0 totals.1;
          })
          s.outbox;
  }
  pure (tip_response row)
