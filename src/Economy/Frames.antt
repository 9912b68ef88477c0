-- ===== src/Economy/Frames.antt =====
-- What the writes of a tip leave alone: the users, and which wallets there are.
use wenyouzhan.Common.{
  ℕ, ◌≡◌, ◌≢◌, refl, Bool, Option, none, arith, find_first, find_first-update_first_keeps,
}
use wenyouzhan.Exception.{ok}
use wenyouzhan.Store.{Store, >>=-eq-ok}
use wenyouzhan.Store.Keys.{thread_target, user_target, moment_target, TipTargetType}
use wenyouzhan.Store.Rows.{Wallet}
use wenyouzhan.Economy.{is_wallet, update_wallet, credit, debit, credit_tip}
use wenyouzhan.Economy.Tips.{TipTarget, PreparedTip, TipResponse}
use wenyouzhan.Economy.Settle.{can_pay, debit_wallet, raise_target, settle_tip}
use wenyouzhan.Economy.Amounts.{split_tip_amount}

-- A test of the columns that never change.
abbrev pub ReadsKeys : (Wallet → Bool) → Type 0
ReadsKeys q = (w v : Wallet) → w.id ≡ v.id → w.user_id ≡ v.user_id → q w ≡ q v

abbrev pub Keeps : Store → Store → Type 0
Keeps s t =
    (t.users ≡ s.users)
    × ((q : Wallet → Bool)
        → ReadsKeys q
        → find_first q s.wallets ≢ none
        → find_first q t.wallets ≢ none)

Keeps-trans : (s t u : Store) → Keeps s t → Keeps t u → Keeps s u
Keeps-trans s t u (a, f) (b, g) = (cc, λ q k h. g q k (f q k h))

debit_wallet-Keeps :
    (id amount : ℕ) (s t : Store) (w : Wallet) → debit_wallet id amount s ≡ ok (w, t) → Keeps s t
unfolding debit_wallet
debit_wallet-Keeps id amount s t w h = (
  ground arith,
  λ q k found. ground (
    arith,
    find_first-update_first_keeps (can_pay id amount) q (debit amount) s.wallets
        (λ x. k (debit amount x) x refl refl) found,
  ),
)

update_wallet-Keeps :
    (f : Wallet → Wallet) (id : ℕ) (s t : Store) (w : Wallet)
    → ((v : Wallet) → ((f v).id ≡ v.id) × ((f v).user_id ≡ v.user_id))
    → update_wallet f id s ≡ ok (w, t)
    → Keeps s t
unfolding update_wallet
update_wallet-Keeps f id s t w g h = (
  ground arith,
  λ q k found. ground (
    arith,
    find_first-update_first_keeps (is_wallet id) q f s.wallets (λ x. k (f x) x (g x).0 (g x).1)
        found,
  ),
)

raise_target-Keeps :
    (amount : ℕ) (target : TipTarget) (y : TipTargetType) (s t : Store) (r : Option ℕ × Option ℕ)
    → raise_target amount target y s ≡ ok (r, t)
    → (t.users ≡ s.users) × (t.wallets ≡ s.wallets)
unfolding raise_target
raise_target-Keeps amount target thread_target s t r h = ground arith
raise_target-Keeps amount target moment_target s t r h = ground arith
raise_target-Keeps amount target user_target s t r h = ground arith

pub settle_tip-Keeps :
    (u : ℕ) (target : TipTarget) (rid : ℕ) (p : PreparedTip) (rw pw : Wallet) (s s' : Store)
    (r : TipResponse)
    → settle_tip u target rid p rw pw s ≡ ok (r, s')
    → Keeps s s'
unfolding settle_tip
settle_tip-Keeps u target rid p rw pw s s' r e =
    let split = split_tip_amount p.amount in
    let (w1, s1, e1, h1) = >>=-eq-ok (debit_wallet p.sender_wallet_id p.amount) _ s e in
    let (w2, s2, e2, h2) =
      >>=-eq-ok (update_wallet (credit_tip p.amount split.recipient_amount) rw.id) _ s1 h1 in
    let (w3, s3, e3, h3) = >>=-eq-ok (update_wallet (credit split.platform_amount) pw.id) _ s2 h2 in
    let (totals, s4, e4, h4) =
      >>=-eq-ok (raise_target p.amount target target.target_type) _ s3 h3 in
    let k1 = debit_wallet-Keeps p.sender_wallet_id p.amount s s1 w1 e1 in
    let k2 = update_wallet-Keeps _ rw.id s1 s2 w2 (λ v. (refl, refl)) e2 in
    let k3 = update_wallet-Keeps _ pw.id s2 s3 w3 (λ v. (refl, refl)) e3 in
    let k4 = raise_target-Keeps p.amount target target.target_type s3 s4 totals e4 in
    let k = Keeps-trans s s2 s3 (Keeps-trans s s1 s2 k1 k2) k3 in
    (ground (arith, k.0, k4.0), λ q reads found. ground (arith, k.1 q reads found, k4.1))
