-- ===== src/Economy/Retries.antt =====
-- The retry loop of a tip, under any interference by other transactions.
use wenyouzhan.Common.{
  ℕ, suc, zero, ◌≤◌, ◌≡◌, ◌⊎◌, inl, inr, refl, Bool-cases, Option-cases, some, List, [], ◌∷◌, arith,
  ◌==◌,
}
use wenyouzhan.Exception.{BusinessException, Result-cases, ok, err}
use wenyouzhan.Store.{Store}
use wenyouzhan.Store.Rows.{WalletTransaction}
use wenyouzhan.Economy.{record_missing}
use wenyouzhan.Economy.Tips.{TipTarget, PreparedTip, TipResponse, find_request, replay_response}
use wenyouzhan.Economy.Transaction.{
  Attempt, Verdict, commits, serialization_conflict, unique_violation, Outcome, committed,
  raced_replay, end_attempt, tip_attempts, tip_transaction, tip,
}

-- The database after the other transactions that committed before attempt `n`.
abbrev pub after : ℕ → List Attempt → Store → Store
after zero plan s = s
after (suc n) [] s = s
after (suc n) (a ∷ plan) s = after n plan (a.others s)

-- How a call ends, seen from the database `now` that the other transactions had left: with an error
-- and nothing written, with the answer to a request that another call had made, or with one
-- committed run of the transaction.
abbrev pub EndsAt : ℕ → TipTarget → ℕ → PreparedTip → Store → Outcome → Type 0
EndsAt u target rid p now (res, s') =
    ((e : BusinessException) × (res ≡ err e) × (s' ≡ now))
    ⊎ ((t : WalletTransaction) × (find_request p.sender_wallet_id rid now ≡ some t)
        × (res ≡ replay_response p.request_hash t)
        × (s' ≡ now))
    ⊎ ((r : TipResponse) × (res ≡ ok r) × (tip_transaction u target rid p now ≡ ok (r, s')))

committed-EndsAt :
    (u : ℕ) (target : TipTarget) (rid : ℕ) (p : PreparedTip) (now : Store)
    → EndsAt u target rid p now (committed (tip_transaction u target rid p now) now)
committed-EndsAt u target rid p now = elim (Result-cases (tip_transaction u target rid p now)) [
  | inl ((r, s'), e) ↦ rw e (inr (inr (r, refl, refl)))
  | inr (x, e) ↦ rw e (inl (x, refl, refl))
]

raced_replay-EndsAt :
    (u : ℕ) (target : TipTarget) (rid : ℕ) (p : PreparedTip) (now : Store)
    → EndsAt u target rid p now (raced_replay rid p now)
unfolding raced_replay
raced_replay-EndsAt u target rid p now =
    elim (Option-cases (find_request p.sender_wallet_id rid now)) [
      | inl new ↦ inl (record_missing, ground arith, ground arith)
      | inr (t, e) ↦ inr (inl (t, e, ground arith, ground arith))
    ]

-- One round, given the end of the rounds that are left.
end_attempt-EndsAt :
    (v : Verdict) (left : ℕ) (plan : List Attempt) (u : ℕ) (target : TipTarget) (rid : ℕ)
    (p : PreparedTip) (s : Store) (again : Outcome)
    → (n : ℕ) × (n ≤ left) × EndsAt u target rid p (after n plan s) again
    → (n : ℕ) × (n ≤ left)
      × EndsAt u target rid p (after n plan s) (end_attempt v left again u target rid p s)
unfolding end_attempt
end_attempt-EndsAt commits left plan u target rid p s again h =
    (0, omega arith, committed-EndsAt u target rid p s)
end_attempt-EndsAt unique_violation left plan u target rid p s again h =
    (0, omega arith, raced_replay-EndsAt u target rid p s)
end_attempt-EndsAt serialization_conflict left plan u target rid p s again h =
    elim (Bool-cases (left == 0)) [
      | inl last ↦ (0, omega arith, rw last (inl (_, refl, refl)))
      | inr more ↦ rw more h
    ]

tip_attempts-EndsAt :
    (left : ℕ) (plan : List Attempt) (u : ℕ) (target : TipTarget) (rid : ℕ) (p : PreparedTip)
    (s : Store)
    → (n : ℕ) × (n ≤ left)
      × EndsAt u target rid p (after n plan s) (tip_attempts left plan u target rid p s)
unfolding tip_attempts
tip_attempts-EndsAt zero plan u target rid p s = (0, omega arith, inl (_, refl, refl))
tip_attempts-EndsAt (suc left) [] u target rid p s =
    (0, omega arith, committed-EndsAt u target rid p s)
tip_attempts-EndsAt (suc left) (a ∷ plan) u target rid p s =
    let (n, few, end) =
      end_attempt-EndsAt a.verdict left plan u target rid p (a.others s) _
        (tip_attempts-EndsAt left plan u target rid p (a.others s)) in
    (suc n, omega arith, end)

-- A call of `tip` commits at most one transaction of its own, and it ends after at most three
-- attempts: whatever other transactions commit between the attempts and whatever the database
-- answers, the call ends with an error and nothing written, with the answer to a request that is
-- already in the ledger and nothing written, or with one committed run.
pub tip_at_most_once :
    (plan : List Attempt) (u : ℕ) (target : TipTarget) (rid : ℕ) (p : PreparedTip) (s : Store)
    → (n : ℕ) × (n ≤ 3) × EndsAt u target rid p (after n plan s) (tip plan u target rid p s)
unfolding tip
tip_at_most_once plan u target rid p s = elim (Bool-cases (u == target.recipient_id)) [
  | inl self ↦ (0, omega arith, rw self (inl (_, refl, refl)))
  | inr other ↦ rw other (tip_attempts-EndsAt 3 plan u target rid p s)
]
