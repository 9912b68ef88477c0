-- ===== src/Economy/Claims.antt =====
-- Daily check-ins: once a day, and paid into the books.
use wenyouzhan.Common.{
  ℕ, ◌+◌, ◌≡◌, ◌≢◌, ◌∙◌, if◌then◌else◌, ◌⊎◌, inl, inr, refl, true, false, Option-cases, some, none,
  arith, ◌==◌, ◌&&◌, is_value, sum_of, sum_of-insert, find_first-insert-none,
  find_first-update_first_keeps,
}
use wenyouzhan.Exception.{ok}
use wenyouzhan.Store.{Store}
use wenyouzhan.Store.Rows.{User, Wallet, DailyCheckIn}
use wenyouzhan.Progression.{user_by_id}
use wenyouzhan.Progression.Rules.{progression_for, beijing_date_key}
use wenyouzhan.Economy.{is_wallet, wallet_of, CheckInResult, check_in_of, check_in, claim_check_in}
use wenyouzhan.Economy.Ledger.{Books, earned_by, spent_by}
use wenyouzhan.Economy.CheckIns.{claim_check_in_lem}

-- A check-in that succeeds repeats the day's row and changes nothing, or claims.
abbrev Repeats : ℕ → ℕ → Store → CheckInResult × Store → Type 0
Repeats now user_id s (r, s') =
    (r.claimed_now ≡ false)
    × (s' ≡ s)
    × ((c : DailyCheckIn) × (check_in_of user_id (beijing_date_key now) s ≡ some c)
        × (c.reward_amount ≡ r.reward_amount)
        × (c.experience_awarded ≡ r.experience_awarded))

abbrev Claims : ℕ → ℕ → ℕ → Store → CheckInResult × Store → Type 0
Claims now user_id reward s (r, s') =
    (w : Wallet) × (wallet_of user_id s ≡ some w)
    × (check_in_of user_id (beijing_date_key now) s ≡ none)
    × (claim_check_in now user_id reward w s ≡ ok (r, s'))

check_in_cases :
    (now user_id reward : ℕ) (s s' : Store) (r : CheckInResult)
    → check_in now user_id reward s ≡ ok (r, s')
    → (u : User) × (user_by_id user_id s ≡ some u)
      × (u.deleted_at ≡ none)
      × (wallet_of user_id s ≢ none)
      × (Repeats now user_id s (r, s') ⊎ Claims now user_id reward s (r, s'))
unfolding check_in
check_in_cases now user_id reward s s' r e = elim (Option-cases (user_by_id user_id s)) [
  | inl gone ↦ absurd (ground arith)
  | inr (u, there) ↦ elim (Option-cases (wallet_of user_id s)) [
    | inl poor ↦ absurd (ground arith)
    | inr (w, held) ↦ (
      u,
      there,
      ground arith,
      ground arith,
      elim (Option-cases (check_in_of user_id (beijing_date_key now) s)) [
        | inl first ↦ inr (w, held, first, ground arith)
        | inr (c, again) ↦ inl (ground arith, ground arith, (c, again, ground arith, ground arith))
      ],
    )
  ]
]

known_day :
    (later user_id reward : ℕ) (s : Store) (u : User) (c : DailyCheckIn)
    → user_by_id user_id s ≡ some u
    → u.deleted_at ≡ none
    → wallet_of user_id s ≢ none
    → check_in_of user_id (beijing_date_key later) s ≡ some c
    → (r' : CheckInResult) × (check_in later user_id reward s ≡ ok (r', s))
      × (r'.claimed_now ≡ false)
      × (r'.reward_amount ≡ c.reward_amount)
      × (r'.experience_awarded ≡ c.experience_awarded)
unfolding check_in
known_day later user_id reward s u c there alive rich again =
    elim (Option-cases (wallet_of user_id s)) [
      | inl poor ↦ absurd (rich poor)
      | inr (w, held) ↦ (
        record {
          claimed_now = false;
          date = beijing_date_key later;
          reward_amount = c.reward_amount;
          experience_awarded = c.experience_awarded;
          balance = w.balance;
          progression = progression_for u.experience;
        },
        ground arith,
        refl,
        refl,
        refl,
      )
    ]

-- A day is claimed once: after a check-in that succeeds, every later one on the same Beijing day
-- reports the same reward and experience as not claimed now, and leaves the database as it is,
-- whatever the dice give.
pub check_in_once :
    (now later user_id reward reward' : ℕ) (s s' : Store) (r : CheckInResult)
    → beijing_date_key later ≡ beijing_date_key now
    → check_in now user_id reward s ≡ ok (r, s')
    → (r' : CheckInResult) × (check_in later user_id reward' s' ≡ ok (r', s'))
      × (r'.claimed_now ≡ false)
      × (r'.reward_amount ≡ r.reward_amount)
      × (r'.experience_awarded ≡ r.experience_awarded)
check_in_once now later user_id reward reward' s s' r day e =
    let (u, there, alive, rich, end) = check_in_cases now user_id reward s s' r e in
    elim end [
      | inl (_, same, (c, again, paid, gained)) ↦
          let (r', call, not_now, pays, gains) =
            known_day later user_id reward' s' u c (rw same there) alive (rw same rich)
              (rw (day, same) again) in
          (r', call, not_now, pays ∙ paid, gains ∙ gained)
      | inr (w, held, first, claimed) ↦
          let ((c, days, who, date, paid, gained), (v, still, lives), wallets, _, _, _, _) =
            claim_check_in_lem now user_id reward w s s' r u there claimed in
          let (r', call, not_now, pays, gains) =
            known_day later user_id reward' s' v c still (lives ∙ alive)
              (rw wallets (
                find_first-update_first_keeps (is_wallet w.id) (λ x. is_value x.user_id user_id) _
                  s.wallets (λ x. refl) rich))
              (ground (
                arith,
                find_first-insert-none
                    (λ x. x.user_id == user_id && x.date_key == beijing_date_key now) s.check_ins c
                    first,
              )) in
          (r', call, not_now, pays ∙ paid, gains ∙ gained)
    ]

-- The books stay in order through every check-in.
pub check_in-Books :
    (now user_id reward : ℕ) (s s' : Store) (r : CheckInResult)
    → Books s
    → check_in now user_id reward s ≡ ok (r, s')
    → Books s'
check_in-Books now user_id reward s s' r h e k =
    let (u, there, _, _, end) = check_in_cases now user_id reward s s' r e in
    elim end [
      | inl (_, same, _) ↦ rw same (h k)
      | inr (w, _, _, claimed) ↦
          let (_, _, _, moved, (t, rows, ledger, to), _, _) =
            claim_check_in_lem now user_id reward w s s' r u there claimed in
          ground (
            arith,
            h k,
            moved k,
            rows,
            ledger k,
            to,
            sum_of-insert (earned_by k) s.wallet_transactions t,
            sum_of-insert (spent_by k) s.wallet_transactions t,
          )
    ]

-- A check-in adds to all balances together the reward that it reports if it was claimed now, and
-- nothing if it was not.
pub check_in_pays :
    (now user_id reward : ℕ) (s s' : Store) (r : CheckInResult)
    → check_in now user_id reward s ≡ ok (r, s')
    → sum_of (λ w. w.balance) s'.wallets
      ≡ sum_of (λ w. w.balance) s.wallets + (if r.claimed_now then r.reward_amount else 0)
check_in_pays now user_id reward s s' r e =
    let (u, there, _, _, end) = check_in_cases now user_id reward s s' r e in
    elim end [
      | inl (not_now, same, _) ↦ rw (not_now, same) (omega arith)
      | inr (w, _, _, claimed) ↦
          let (_, _, _, moved, _, now', paid) =
            claim_check_in_lem now user_id reward w s s' r u there claimed in
          rw (now', paid) (moved (λ _. true))
    ]
