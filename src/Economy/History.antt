-- ===== src/Economy/History.antt =====
-- Any sequence of check-ins and tips, from a database whose books are in order.
use wenyouzhan.Common.{ℕ, ◌+◌, ◌≡◌, sum_of, if◌then◌else◌, arith}
use wenyouzhan.Exception.{ok}
use wenyouzhan.Store.{Store}
use wenyouzhan.Economy.{CheckInResult, check_in}
use wenyouzhan.Economy.Tips.{TipTarget, PreparedTip, TipResponse}
use wenyouzhan.Economy.Transaction.{tip_transaction}
use wenyouzhan.Economy.Ledger.{Books}
use wenyouzhan.Economy.Tipping.{tip-Books, tip_conserves}
use wenyouzhan.Economy.Claims.{check_in-Books, check_in_pays}

-- One committed transaction of the wallet service.
pub data Step : Store → Store → Type 0 where
  checked_in :
      (now user_id reward : ℕ) (s s' : Store) (r : CheckInResult)
      → check_in now user_id reward s ≡ ok (r, s')
      → Step s s'
  tipped :
      (u : ℕ) (target : TipTarget) (rid : ℕ) (p : PreparedTip) (s s' : Store) (r : TipResponse)
      → tip_transaction u target rid p s ≡ ok (r, s')
      → Step s s'

-- What a step pays out: the reward of a check-in that was claimed in it.
abbrev pub paid_out : {s s' : Store} → Step s s' → ℕ
paid_out (checked_in _ _ _ _ _ r _) = if r.claimed_now then r.reward_amount else 0
paid_out (tipped _ _ _ _ _ _ _ _) = 0

pub data History (s : Store) : Store → Type 0 where
  start : History s s
  next : {t u : Store} → History s t → Step t u → History s u

abbrev pub total_paid : {s t : Store} → History s t → ℕ
total_paid start = 0
total_paid (next h step) = total_paid h + paid_out step

Step-Books : {s t : Store} → Books s → Step s t → Books t
Step-Books h (checked_in now user_id reward s t r e) = check_in-Books now user_id reward s t r h e
Step-Books h (tipped u target rid p s t r e) = tip-Books u target rid p s t r h e

-- However check-ins and tips follow one another, the balances stay what the ledger adds up to.
pub History-Books : {s t : Store} → Books s → History s t → Books t
History-Books h start = h
History-Books h (next before step) = Step-Books (History-Books h before) step

Step-supply :
    {s t : Store} (step : Step s t)
    → sum_of (λ w. w.balance) t.wallets ≡ sum_of (λ w. w.balance) s.wallets + paid_out step
Step-supply (checked_in now user_id reward s t r e) = check_in_pays now user_id reward s t r e
Step-supply (tipped u target rid p s t r e) = omega (arith, tip_conserves u target rid p s t r e)

-- Over any sequence of check-ins and tips, all balances together grow by exactly the rewards that
-- were claimed: a tip creates no money, and no step takes any away.
pub History-supply :
    {s t : Store} (h : History s t)
    → sum_of (λ w. w.balance) t.wallets ≡ sum_of (λ w. w.balance) s.wallets + total_paid h
History-supply start = omega arith
History-supply (next before step) = omega (arith, History-supply before, Step-supply step)
