-- ===== src/Economy/CheckIns.antt =====
-- What the first check-in of a day writes.
use wenyouzhan.Common.{
  ℕ, ◌+◌, ◌≡◌, inl, inr, refl, true, some, arith, ◌==◌, insert, update_first,
  find_first-update_first_self, find_first-satisfies,
}
use wenyouzhan.Exception.{ok}
use wenyouzhan.Store.{Store, >>=-eq-ok}
use wenyouzhan.Store.Rows.{User, Wallet, DailyCheckIn, WalletTransaction}
use wenyouzhan.Progression.{
  GrantExperienceInput, GrantExperienceResult, grant_in_transaction, grant_to_user, award,
  user_by_id, set_experience,
}
use wenyouzhan.Progression.Rules.{beijing_date_key, experience_rules}
use wenyouzhan.Progression.Grants.{grant_cases}
use wenyouzhan.Economy.{
  is_wallet, update_wallet, credit, CheckInResult, claim_check_in, check_in_transaction,
  check_in_grant, new_check_in,
}
use wenyouzhan.Economy.Ledger.{Wallets, share, balance_of, earned_by, spent_by, update_wallet_lem}

-- A grant touches no table of the wallets.
grant_frame :
    (now : ℕ) (i : GrantExperienceInput) (s s' : Store) (r : GrantExperienceResult)
    → grant_in_transaction now i s ≡ ok (r, s')
    → (s'.wallets ≡ s.wallets)
      × (s'.wallet_transactions ≡ s.wallet_transactions)
      × (s'.check_ins ≡ s.check_ins)
unfolding grant_in_transaction grant_to_user award
grant_frame now i s s' r h = ground arith

-- Its user is still there.
grant_user :
    (now : ℕ) (i : GrantExperienceInput) (s s' : Store) (r : GrantExperienceResult) (u : User)
    → grant_in_transaction now i s ≡ ok (r, s')
    → user_by_id i.user_id s ≡ some u
    → (v : User) × (user_by_id i.user_id s' ≡ some v) × (v.deleted_at ≡ u.deleted_at)
grant_user now i s s' r u e found = elim (grant_cases now i s s' r e) [
  | inl (_, _, same, _) ↦ (u, rw same found, refl)
  | inr (w, _, _, _, _, users, _, _) ↦ (
    set_experience (w.experience + (experience_rules i.grant_type).delta) u,
    rw users (
        find_first-update_first_self (λ (x : User). x.id == i.user_id) _ s.users u
          (find_first-satisfies (λ (x : User). x.id == i.user_id) s.users u found) found),
    refl,
  )
]

update_wallet_frame :
    (f : Wallet → Wallet) (id : ℕ) (s s' : Store) (w : Wallet)
    → update_wallet f id s ≡ ok (w, s')
    → (s'.wallets ≡ update_first (is_wallet id) f s.wallets)
      × (s'.users ≡ s.users)
      × (s'.wallet_transactions ≡ s.wallet_transactions)
      × (s'.check_ins ≡ s.check_ins)
unfolding update_wallet
update_wallet_frame f id s s' w h = ground arith

abbrev add_transaction : WalletTransaction → Store → Store
add_transaction t s = record s {
  next_id = s.next_id + 1;
  wallet_transactions = insert t s.wallet_transactions;
}

-- What a claim writes.
pub claim_check_in_lem :
    (now user_id reward : ℕ) (w : Wallet) (s s' : Store) (r : CheckInResult) (u : User)
    → user_by_id user_id s ≡ some u
    → claim_check_in now user_id reward w s ≡ ok (r, s')
    → ((c : DailyCheckIn) × (s'.check_ins ≡ insert c s.check_ins)
        × (c.user_id ≡ user_id)
        × (c.date_key ≡ beijing_date_key now)
        × (c.reward_amount ≡ r.reward_amount)
        × (c.experience_awarded ≡ r.experience_awarded))
      × ((v : User) × (user_by_id user_id s' ≡ some v) × (v.deleted_at ≡ u.deleted_at))
      × (s'.wallets ≡ update_first (is_wallet w.id) (credit reward) s.wallets)
      × ((k : Wallets) → balance_of k s'.wallets ≡ balance_of k s.wallets + share (k w.id) reward)
      × ((t : WalletTransaction) × (s'.wallet_transactions ≡ insert t s.wallet_transactions)
          × ((k : Wallets)
              → (spent_by k t ≡ 0) × (earned_by k t ≡ share (k t.recipient_wallet_id) reward))
          × (t.recipient_wallet_id ≡ w.id))
      × (r.claimed_now ≡ true)
      × (r.reward_amount ≡ reward)
unfolding claim_check_in
claim_check_in_lem now user_id reward w s s' r u there e =
    let (w1, s1, e1, h1) = >>=-eq-ok (update_wallet (credit reward) w.id) _ s e in
    let t = check_in_transaction (beijing_date_key now) w.id w1 reward s1.next_id in
    let s2 = add_transaction t s1 in
    let (x, s3, e3, h3) =
      >>=-eq-ok
        (grant_in_transaction now (check_in_grant user_id (beijing_date_key now) s1.next_id)) _ s2
        h1 in
    let (wallets, rows, days) = grant_frame now _ s2 s3 x e3 in
    let (written, users, before, days_before) =
      update_wallet_frame (credit reward) w.id s s1 w1 e1 in
    let (v, still, alive) = grant_user now _ s2 s3 x u e3 (rw users there) in
    (
      (
        new_check_in user_id w.id (beijing_date_key now) reward s1.next_id x,
        ground arith,
        refl,
        refl,
        ground arith,
        ground arith,
      ),
      (v, ground arith, alive),
      ground arith,
      λ k.
          ground
            (arith, update_wallet_lem (credit reward) reward w.id k s s1 w1 (λ v. (refl, refl)) e1),
      (t, ground arith, λ k. (refl, omega arith), refl),
      ground arith,
      ground arith,
    )
