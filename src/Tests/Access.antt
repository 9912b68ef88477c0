-- ===== src/Tests/Access.antt =====
-- A private thread with one member and a block, and the theorems on access at them.
use wenyouzhan.Common.{ℕ, ◌≡◌, ◌≢◌, ◌↔◌, ◌==◌, refl, true, false, some, [], ◌∷◌, has_row, tables}
use wenyouzhan.Exception.{ok}
use wenyouzhan.Store.{Store}
use wenyouzhan.Store.Keys.{players, participant}
use wenyouzhan.Access.Blocks.{
  contains, distinct, visible_user, is_blocked_pair, assert_interaction_allowed,
}
use wenyouzhan.Access.Threads.{assert_accessible, accessible_thread, filter_accessible_user_ids}
use wenyouzhan.Access.Posting.{PostingMemberSnapshot, assert_can_post}
use wenyouzhan.Access.Agreement.{assert_accessible-eq-ok_iff, filter_accessible_user_ids-exact}
use wenyouzhan.Access.Interactions.{
  assert_interaction_allowed-eq-ok_iff, assert_can_post-eq-ok_iff, MayPost,
}
use wenyouzhan.Tests.Sample.{db, thread}

-- User 12 blocks user 10.
abbrev blocked : Store
blocked = record db { blocks = record { blocker_id = 12; blocked_id = 10 } ∷ [] }

assert_accessible-eq-ok_iff_example :
    (assert_accessible 30 (some 10) false false blocked ≡ ok tt)
    ↔ (accessible_thread (some 10) (thread 30 11) blocked ≡ true)
unfolding tables
assert_accessible-eq-ok_iff_example =
    assert_accessible-eq-ok_iff 30 (some 10) blocked (thread 30 11) refl

-- The member 10 is told, the stranger 12 is not.
filter_accessible_user_ids_values :
    filter_accessible_user_ids 30 (12 ∷ 10 ∷ 10 ∷ []) blocked ≡ 10 ∷ []
unfolding filter_accessible_user_ids distinct visible_user tables
filter_accessible_user_ids_values = refl

filter_accessible_user_ids-exact_example :
    (contains 10 (filter_accessible_user_ids 30 (12 ∷ 10 ∷ 10 ∷ []) blocked) ≡ true) ↔ (
      (contains 10 (12 ∷ 10 ∷ 10 ∷ []) ≡ true)
      × (has_row (λ u. u.id == 10) blocked.users ≡ true)
      × (assert_accessible 30 (some 10) false false blocked ≡ ok tt))
unfolding tables
filter_accessible_user_ids-exact_example =
    filter_accessible_user_ids-exact 30 (thread 30 11) 10 (12 ∷ 10 ∷ 10 ∷ []) blocked refl refl refl
      refl

assert_interaction_allowed-eq-ok_iff_example :
    (assert_interaction_allowed 10 (12 ∷ 10 ∷ []) blocked ≡ ok tt)
    ↔ ((b : ℕ) → contains b (12 ∷ 10 ∷ []) ≡ true → b ≢ 10 → is_blocked_pair 10 b blocked ≡ false)
assert_interaction_allowed-eq-ok_iff_example =
    assert_interaction_allowed-eq-ok_iff 10 (12 ∷ 10 ∷ []) blocked

abbrev player : PostingMemberSnapshot
player = record { role = participant; player_marked = true }

assert_can_post-eq-ok_iff_example :
    (assert_can_post 11 10 players (some player) blocked ≡ ok tt)
    ↔ MayPost 11 10 players (some player) (is_blocked_pair 11 10 blocked)
assert_can_post-eq-ok_iff_example = assert_can_post-eq-ok_iff 11 10 players (some player) blocked
