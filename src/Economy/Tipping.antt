-- ===== src/Economy/Tipping.antt =====
-- What a tip does, whichever way it ends.
use wenyouzhan.Common.{
  ℕ, ◌≡◌, ◌⊎◌, true, false, none, some, arith, ◌==◌, is_value, inl, inr, Option-cases, sum_of,
  sum_of-insert, find_first-insert-none,
}
use wenyouzhan.Exception.{Result-cases, ok}
use wenyouzhan.Store.{Store}
use wenyouzhan.Store.Keys.{thread_target, user_target, moment_target, TipTargetType}
use wenyouzhan.Store.Rows.{Wallet, WalletTransaction}
use wenyouzhan.Access.Blocks.{is_blocked_pair}
use wenyouzhan.Economy.{wallet_by_id, wallet_of, platform_wallet_id}
use wenyouzhan.Economy.Tips.{
  TipTarget, PreparedTip, TipResponse, check_target, replay_response, is_request, find_request,
}
use wenyouzhan.Economy.Frames.{settle_tip-Keeps}
use wenyouzhan.Economy.Settle.{settle_tip}
use wenyouzhan.Economy.Transaction.{tip_transaction}
use wenyouzhan.Economy.Ledger.{Books, earned_by, spent_by, settle_tip_lem, split_parts}

check_target-same :
    (u : ℕ) (target : TipTarget) (y : TipTargetType) (s s' : Store)
    → check_target u target y s ≡ ok (tt, s')
    → s' ≡ s
unfolding check_target
check_target-same u target thread_target s s' h = ground arith
check_target-same u target moment_target s s' h = ground arith
check_target-same u target user_target s s' h = ground arith

-- A run that commits replays a known request, or settles a new one between two users that are
-- not blocked and two wallets that exist.
abbrev Replays : TipTarget → ℕ → PreparedTip → Store → TipResponse × Store → Type 0
Replays target rid p s (r, s') =
    (t : WalletTransaction) × (find_request p.sender_wallet_id rid s ≡ some t)
    × (replay_response p.request_hash t ≡ ok r)
    × (s' ≡ s)

abbrev Settles : ℕ → TipTarget → ℕ → PreparedTip → Store → TipResponse × Store → Type 0
Settles u target rid p s (r, s') =
    (rw pw : Wallet) × (wallet_of target.recipient_id s ≡ some rw)
    × (wallet_by_id platform_wallet_id s ≡ some pw)
    × (find_request p.sender_wallet_id rid s ≡ none)
    × (is_blocked_pair u target.recipient_id s ≡ false)
    × (settle_tip u target rid p rw pw s ≡ ok (r, s'))

pub tip_transaction_cases :
    (u : ℕ) (target : TipTarget) (rid : ℕ) (p : PreparedTip) (s s' : Store) (r : TipResponse)
    → tip_transaction u target rid p s ≡ ok (r, s')
    → Replays target rid p s (r, s') ⊎ Settles u target rid p s (r, s')
unfolding tip_transaction
tip_transaction_cases u target rid p s s' r h =
    elim (Option-cases (wallet_of target.recipient_id s)) [
      | inl gone ↦ absurd (ground arith)
      | inr (rw, e1) ↦ elim (Option-cases (wallet_by_id platform_wallet_id s)) [
        | inl gone ↦ absurd (ground arith)
        | inr (pw, e2) ↦ elim (Option-cases (find_request p.sender_wallet_id rid s)) [
          | inr (t, e3) ↦ inl (t, e3, ground arith, ground arith)
          | inl new ↦ elim (Result-cases (check_target u target target.target_type s)) [
            | inr (e, refusal) ↦ absurd (ground arith)
            | inl ((_, t), fine) ↦
                let same = check_target-same u target target.target_type s t fine in
                inr (rw, pw, e1, e2, new, ground arith, ground arith)
          ]
        ]
      ]
    ]

-- The books stay in order through every tip that commits, replayed or new.
pub tip-Books :
    (u : ℕ) (target : TipTarget) (rid : ℕ) (p : PreparedTip) (s s' : Store) (r : TipResponse)
    → Books s
    → tip_transaction u target rid p s ≡ ok (r, s')
    → Books s'
tip-Books u target rid p s s' r h e k = elim (tip_transaction_cases u target rid p s s' r e) [
  | inl (_, _, _, same) ↦ rw same (h k)
  | inr (rw, pw, _, _, _, _, settled) ↦
      let ((t, rows, _, _, ledger), moved) = settle_tip_lem u target rid p rw pw s s' r settled in
      ground (
        arith,
        h k,
        rows,
        ledger k,
        moved k,
        split_parts p.amount,
        sum_of-insert (earned_by k) s.wallet_transactions t,
        sum_of-insert (spent_by k) s.wallet_transactions t,
      )
]

-- A tip neither makes nor destroys money: the balances of all wallets add up to the same sum.
pub tip_conserves :
    (u : ℕ) (target : TipTarget) (rid : ℕ) (p : PreparedTip) (s s' : Store) (r : TipResponse)
    → tip_transaction u target rid p s ≡ ok (r, s')
    → sum_of (λ w. w.balance) s'.wallets ≡ sum_of (λ w. w.balance) s.wallets
tip_conserves u target rid p s s' r e = elim (tip_transaction_cases u target rid p s s' r e) [
  | inl (_, _, _, same) ↦ rw same
  | inr (rw, pw, _, _, _, _, settled) ↦ ground (
    arith,
    (settle_tip_lem u target rid p rw pw s s' r settled).1 (λ _. true),
    split_parts p.amount,
  )
]

-- A committed tip can be asked for again: the same request gives the same response, and the
-- database stays as it is.
pub tip_replay :
    (u : ℕ) (target : TipTarget) (rid : ℕ) (p : PreparedTip) (s s' : Store) (r : TipResponse)
    → tip_transaction u target rid p s ≡ ok (r, s')
    → tip_transaction u target rid p s' ≡ ok (r, s')
unfolding tip_transaction
tip_replay u target rid p s s' r e = elim (tip_transaction_cases u target rid p s s' r e) [
  | inl (_, _, _, same) ↦ rw same (rw same at e)
  | inr (receiver, pw, found_rw, found_pw, new, _, settled) ↦
      let ((t, rows, key, answer, _), _) =
        settle_tip_lem u target rid p receiver pw s s' r settled in
      let (users, wallets) = settle_tip-Keeps u target rid p receiver pw s s' r settled in
      ground (
        arith,
        users,
        wallets (λ w. is_value w.user_id target.recipient_id) (λ v w _ k. cc) (ground arith),
        wallets (λ w. w.id == platform_wallet_id) (λ v w k _. cc) (ground arith),
        rows,
        key,
        answer,
        find_first-insert-none (is_request p.sender_wallet_id rid) s.wallet_transactions t new,
      )
]
