-- ===== src/Economy/Ledger.antt =====
-- The wallets' balances are what the ledger of transactions adds up to.
use wenyouzhan.Common.{
  ℕ, ◌+◌, ◌≡◌, refl, Bool, true, false, Option, none, some, List, arith, inl, inr, Option-cases,
  if◌then◌else◌, sum_of, sum_of-update_first, find_first, insert, find_first-satisfies,
}
use wenyouzhan.Exception.{ok}
use wenyouzhan.Store.{Store, >>=-eq-ok}
use wenyouzhan.Store.Keys.{thread_target, user_target, moment_target, TipTargetType}
use wenyouzhan.Store.Rows.{Wallet, WalletTransaction}
use wenyouzhan.Economy.{is_wallet, wallet_by_id, update_wallet, credit, debit, credit_tip}
use wenyouzhan.Economy.Tips.{TipTarget, PreparedTip, TipResponse, replay_response, is_request}
use wenyouzhan.Economy.Settle.{can_pay, debit_wallet, raise_target, tip_row, settle_tip}
use wenyouzhan.Economy.Amounts.{split_tip_amount}

-- The part of an amount that concerns a set of wallets: one wallet, or all.
abbrev pub share : Bool → ℕ → ℕ
share mine amount = if mine then amount else 0

abbrev pub Wallets : Type 0
Wallets = ℕ → Bool

abbrev on_side : Wallets → Option ℕ → Bool
on_side k none = false
on_side k (some id) = k id

abbrev pub held_by : Wallets → Wallet → ℕ
held_by k w = share (k w.id) w.balance

abbrev pub earned_by : Wallets → WalletTransaction → ℕ
earned_by k t =
    share (k t.recipient_wallet_id) t.recipient_amount
    + share (on_side k t.platform_wallet_id) t.platform_amount

abbrev pub spent_by : Wallets → WalletTransaction → ℕ
spent_by k t = share (on_side k t.sender_wallet_id) t.gross_amount

abbrev pub balance_of : Wallets → List Wallet → ℕ
balance_of k = sum_of (held_by k)

abbrev pub earned : Wallets → List WalletTransaction → ℕ
earned k = sum_of (earned_by k)

abbrev pub spent : Wallets → List WalletTransaction → ℕ
spent k = sum_of (spent_by k)

-- What a wallet holds and has spent is what the ledger says that it earned; so for every set of
-- wallets together.
abbrev pub Books : Store → Type 0
Books s =
    (k : Wallets)
    → balance_of k s.wallets + spent k s.wallet_transactions ≡ earned k s.wallet_transactions

pub debit_wallet_lem :
    (id amount : ℕ) (k : Wallets) (s s' : Store) (w : Wallet)
    → debit_wallet id amount s ≡ ok (w, s')
    → (balance_of k s'.wallets + share (k id) amount ≡ balance_of k s.wallets)
      × (s'.wallet_transactions ≡ s.wallet_transactions)
unfolding debit_wallet
debit_wallet_lem id amount k s s' w h =
    elim (Option-cases (find_first (can_pay id amount) s.wallets)) [
      | inl short ↦ absurd (ground arith)
      | inr (old, found) ↦ ground (
        arith,
        find_first-satisfies (can_pay id amount) s.wallets old found,
        sum_of-update_first (held_by k) (can_pay id amount) (debit amount) s.wallets old found,
      )
    ]

pub update_wallet_lem :
    (f : Wallet → Wallet) (amount id : ℕ) (k : Wallets) (s s' : Store) (w : Wallet)
    → ((v : Wallet) → ((f v).id ≡ v.id) × ((f v).balance ≡ v.balance + amount))
    → update_wallet f id s ≡ ok (w, s')
    → (balance_of k s'.wallets ≡ balance_of k s.wallets + share (k id) amount)
      × (s'.wallet_transactions ≡ s.wallet_transactions)
unfolding update_wallet
update_wallet_lem f amount id k s s' w g h = elim (Option-cases (wallet_by_id id s)) [
  | inl gone ↦ absurd (ground arith)
  | inr (old, found) ↦ ground (
    arith,
    g old,
    find_first-satisfies (is_wallet id) s.wallets old found,
    sum_of-update_first (held_by k) (is_wallet id) f s.wallets old found,
  )
]

pub raise_target_lem :
    (amount : ℕ) (target : TipTarget) (y : TipTargetType) (s s' : Store) (r : Option ℕ × Option ℕ)
    → raise_target amount target y s ≡ ok (r, s')
    → (s'.wallets ≡ s.wallets) × (s'.wallet_transactions ≡ s.wallet_transactions)
unfolding raise_target
raise_target_lem amount target thread_target s s' r h = ground arith
raise_target_lem amount target moment_target s s' r h = ground arith
raise_target_lem amount target user_target s s' r h = ground arith

pub split_parts :
    (amount : ℕ)
    → (split_tip_amount amount).recipient_amount + (split_tip_amount amount).platform_amount
      ≡ amount
unfolding split_tip_amount
split_parts amount = omega arith

-- What the tip's writes do to the wallets and to the ledger.
pub settle_tip_lem :
    (u : ℕ) (target : TipTarget) (rid : ℕ) (p : PreparedTip) (rw pw : Wallet) (s s' : Store)
    (r : TipResponse)
    → settle_tip u target rid p rw pw s ≡ ok (r, s')
    → let split = split_tip_amount p.amount in
      ((t : WalletTransaction) × (s'.wallet_transactions ≡ insert t s.wallet_transactions)
        × (is_request p.sender_wallet_id rid t ≡ true)
        × (replay_response p.request_hash t ≡ ok r)
        × ((k : Wallets)
            → (spent_by k t ≡ share (k p.sender_wallet_id) p.amount)
              × (earned_by k t
                  ≡ share (k rw.id) split.recipient_amount
                    + share (k pw.id) split.platform_amount)))
      × ((k : Wallets)
          → balance_of k s'.wallets + share (k p.sender_wallet_id) p.amount
            ≡ balance_of k s.wallets
              + share (k rw.id) split.recipient_amount
              + share (k pw.id) split.platform_amount)
unfolding settle_tip replay_response
settle_tip_lem u target rid p rw pw s s' r e =
    let split = split_tip_amount p.amount in
    let (w1, s1, e1, h1) = >>=-eq-ok (debit_wallet p.sender_wallet_id p.amount) _ s e in
    let (w2, s2, e2, h2) =
      >>=-eq-ok (update_wallet (credit_tip p.amount split.recipient_amount) rw.id) _ s1 h1 in
    let (w3, s3, e3, h3) = >>=-eq-ok (update_wallet (credit split.platform_amount) pw.id) _ s2 h2 in
    let (totals, s4, e4, h4) =
      >>=-eq-ok (raise_target p.amount target target.target_type) _ s3 h3 in
    let same = raise_target_lem p.amount target target.target_type s3 s4 totals e4 in
    let debited = λ (k : Wallets). debit_wallet_lem p.sender_wallet_id p.amount k s s1 w1 e1 in
    let received = λ (k : Wallets).
      update_wallet_lem _ split.recipient_amount rw.id k s1 s2 w2 (λ v. (refl, refl)) e2 in
    let taxed = λ (k : Wallets).
      update_wallet_lem _ split.platform_amount pw.id k s2 s3 w3 (λ v. (refl, refl)) e3 in
    (
      (
        tip_row target rid p s4.next_id rw.id pw.id w1 w2 w3 totals,
        ground (arith, debited (λ _. true), received (λ _. true), taxed (λ _. true)),
        ground arith,
        ground arith,
        λ k. (refl, refl),
      ),
      λ k. ground (arith, debited k, received k, taxed k),
    )
