-- ===== src/Economy/Transaction.antt =====
-- One run of the transaction of `tip`, its retries, and the three entry points
-- (src/economy/economy.service.ts).
use wenyouzhan.Common.{
  ℕ, suc, zero, Bool, true, false, ◌&&◌, Option, none, some, List, [], ◌∷◌, ◌==◌, is_some, is_none,
  if◌then◌else◌, find_unique,
}
use wenyouzhan.Common.Int.{ℤ}
use wenyouzhan.ErrorCode.{
  user_not_found, thread_not_found, moment_not_found, tip_not_allowed, account_deactivated,
  internal_error, conflict,
}
use wenyouzhan.Exception.{
  Result, ok, err, BusinessException, business, not_found_error, forbidden_error,
  unauthorized_error,
}
use wenyouzhan.Store.{Store, Tx, gets, reads, or_throw, throw_if, ◌>>=◌, ◌>>◌}
use wenyouzhan.Store.Keys.{TipTargetType, thread_target, user_target, moment_target}
use wenyouzhan.Progression.{user_by_id}
use wenyouzhan.Access.Blocks.{is_blocked_pair}
use wenyouzhan.Access.Threads.{assert_accessible}
use wenyouzhan.Economy.{platform_wallet_id, wallet_by_id, wallet_of, record_missing}
use wenyouzhan.Economy.Amounts.{parse_amount}
use wenyouzhan.Economy.Tips.{
  TipTarget, PreparedTip, TipResponse, find_request, replay_response, check_target,
}
use wenyouzhan.Economy.Settle.{settle_tip}

abbrev is_moment : TipTargetType → Bool
is_moment moment_target = true
is_moment thread_target = false
is_moment user_target = false

-- One run of the transaction.
unfoldable pub tip_transaction : ℕ → TipTarget → ℕ → PreparedTip → Tx TipResponse
tip_transaction sender_id target request_id prepared = do
  recipient ← or_throw (← gets (user_by_id target.recipient_id)) (not_found_error user_not_found)
  recipient_wallet ←
      or_throw (← gets (wallet_of target.recipient_id)) (not_found_error user_not_found)
  platform ← or_throw (← gets (wallet_by_id platform_wallet_id)) (business internal_error 500)
  sender ← or_throw (← gets (user_by_id sender_id)) (unauthorized_error account_deactivated)
  throw_if (is_some sender.deleted_at) (unauthorized_error account_deactivated)
  throw_if (is_some recipient.deleted_at) (
      if is_moment target.target_type
      then forbidden_error tip_not_allowed
      else not_found_error user_not_found)
  replay ← gets (find_request prepared.sender_wallet_id request_id)
  elim replay [
    | some t ↦ reads (λ _. replay_response prepared.request_hash t)
    | none ↦ do
      blocked ← gets (is_blocked_pair sender_id target.recipient_id)
      throw_if blocked (forbidden_error tip_not_allowed)
      check_target sender_id target target.target_type
      settle_tip sender_id target request_id prepared recipient_wallet platform
  ]

-- What an attempt of the transaction meets: what other transactions committed since the last
-- attempt, and whether the database lets it commit (P2034, 40001 and 40P01 are conflicts that are
-- tried again, P2002 is a unique key that another transaction took first).
pub data Verdict : Type 0 where
  commits serialization_conflict unique_violation : Verdict

pub record Attempt : Type 0 where
  pub others : Store → Store
  pub verdict : Verdict

-- The end of a call, with the database that it leaves.
abbrev pub Outcome : Type 0
Outcome = Result TipResponse × Store

abbrev pub committed : Result (TipResponse × Store) → Store → Outcome
committed (ok (r, s')) s = (ok r, s')
committed (err e) s = (err e, s)

abbrev conflict_error : BusinessException
conflict_error = business conflict 409

-- `findTipReplay` after a unique violation; the raw database error if there is nothing to replay.
unfoldable pub raced_replay : ℕ → PreparedTip → Store → Outcome
raced_replay request_id prepared s = elim (find_request prepared.sender_wallet_id request_id s) [
  | none ↦ (err record_missing, s)
  | some t ↦ (replay_response prepared.request_hash t, s)
]

-- The end of one round: `again` is what the rounds that are left would give.
unfoldable pub end_attempt :
    Verdict → ℕ → Outcome → ℕ → TipTarget → ℕ → PreparedTip → Store → Outcome
end_attempt commits left again sender_id target request_id prepared s =
    committed (tip_transaction sender_id target request_id prepared s) s
end_attempt serialization_conflict left again sender_id target request_id prepared s =
    if left == 0 then (err conflict_error, s) else again
end_attempt unique_violation left again sender_id target request_id prepared s =
    raced_replay request_id prepared s

-- The loop of `tip` with a number of rounds left; where no attempt is listed nothing interferes.
unfoldable pub tip_attempts : ℕ → List Attempt → ℕ → TipTarget → ℕ → PreparedTip → Store → Outcome
tip_attempts zero plan sender_id target request_id prepared s = (err conflict_error, s)
tip_attempts (suc left) [] sender_id target request_id prepared s =
    committed (tip_transaction sender_id target request_id prepared s) s
tip_attempts (suc left) (a ∷ plan) sender_id target request_id prepared s =
    end_attempt a.verdict left
      (tip_attempts left plan sender_id target request_id prepared (a.others s)) sender_id target
      request_id prepared (a.others s)

-- `tip`
unfoldable pub tip : List Attempt → ℕ → TipTarget → ℕ → PreparedTip → Store → Outcome
tip plan sender_id target request_id prepared s =
    if sender_id == target.recipient_id
    then (err (forbidden_error tip_not_allowed), s)
    else tip_attempts 3 plan sender_id target request_id prepared s

-- `prepareTip` answers a request that is known, or prepares a new one.
pub data Prepared : Type 0 where
  replay : TipResponse → Prepared
  prepare : PreparedTip → Prepared

-- `hash` is `hashIdempotencyPayload` of the target's type and id and the amount.
module _ (hash : TipTargetType → ℕ → ℕ → ℕ) where
  unfoldable pub prepare_tip : ℕ → TipTargetType → ℕ → Option ℤ → ℕ → Store → Result Prepared
  prepare_tip sender_id target_type target_id input request_id s = elim (parse_amount input) [
    | err e ↦ err e
    | ok amount ↦ elim (wallet_of sender_id s) [
      | none ↦ err (not_found_error user_not_found)
      | some w ↦
          let digest = hash target_type target_id amount in
          elim (find_request w.id request_id s) [
            | some t ↦ elim (replay_response digest t) [ ok r ↦ ok (replay r) | err e ↦ err e ]
            | none ↦ ok (
                prepare
                  (record { amount = amount; request_hash = digest; sender_wallet_id = w.id }))
          ]
    ]
  ]

  -- `tipUser`
  unfoldable pub tip_user : List Attempt → ℕ → ℕ → Option ℤ → ℕ → Store → Outcome
  tip_user plan sender_id recipient_id input request_id s =
      if sender_id == recipient_id
      then (err (forbidden_error tip_not_allowed), s)
      else elim (prepare_tip sender_id user_target recipient_id input request_id s) [
        | err e ↦ (err e, s)
        | ok p ↦ elim p [
          | replay r ↦ (ok r, s)
          | prepare prepared ↦
              elim (find_unique (λ u. u.id == recipient_id) (λ u. is_none u.deleted_at) s.users) [
                | none ↦ (err (not_found_error user_not_found), s)
                | some u ↦
                    tip plan sender_id
                      (record {
                        target_type = user_target;
                        recipient_id = recipient_id;
                        thread_id = none;
                        moment_id = none;
                      })
                      request_id prepared s
              ]
        ]
      ]

  -- `tipThread`
  unfoldable pub tip_thread : List Attempt → ℕ → ℕ → Option ℤ → ℕ → Store → Outcome
  tip_thread plan sender_id thread_id input request_id s =
      elim (prepare_tip sender_id thread_target thread_id input request_id s) [
        | err e ↦ (err e, s)
        | ok p ↦ elim p [
          | replay r ↦ (ok r, s)
          | prepare prepared ↦ elim (assert_accessible thread_id (some sender_id) true false s) [
            | err e ↦ (err e, s)
            | ok _ ↦
                elim (find_unique (λ t. t.id == thread_id)
                  (λ t. is_none t.deleted_at && t.published) s.threads) [
                    | none ↦ (err (not_found_error thread_not_found), s)
                    | some t ↦
                        tip plan sender_id
                          (record {
                            target_type = thread_target;
                            recipient_id = t.owner_id;
                            thread_id = some thread_id;
                            moment_id = none;
                          })
                          request_id prepared s
                  ]
          ]
        ]
      ]

  -- `tipMoment`
  unfoldable pub tip_moment : List Attempt → ℕ → ℕ → Option ℤ → ℕ → Store → Outcome
  tip_moment plan sender_id moment_id input request_id s =
      elim (prepare_tip sender_id moment_target moment_id input request_id s) [
        | err e ↦ (err e, s)
        | ok p ↦ elim p [
          | replay r ↦ (ok r, s)
          | prepare prepared ↦
              elim (find_unique (λ m. m.id == moment_id) (λ m. is_none m.deleted_at) s.moments) [
                | none ↦ (err (not_found_error moment_not_found), s)
                | some m ↦
                    if elim (user_by_id m.author_id s) [
                      | none ↦ false
                      | some u ↦ is_some u.deleted_at
                    ]
                    then (err (forbidden_error tip_not_allowed), s)
                    else tip plan sender_id
                        (record {
                          target_type = moment_target;
                          recipient_id = m.author_id;
                          thread_id = none;
                          moment_id = some moment_id;
                        })
                        request_id prepared s
              ]
        ]
      ]
