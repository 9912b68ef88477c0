-- ===== src/Tests/Relations.antt =====
-- A follow and a block, and the theorems at them.
use wenyouzhan.Common.{◌≡◌, refl, false, some, [], ◌∷◌, arith, tables}
use wenyouzhan.Exception.{BusinessException, ok, err}
use wenyouzhan.Store.{Store, add_event}
use wenyouzhan.Access.Blocks.{visible_user, assert_interaction_allowed, distinct, without}
use wenyouzhan.Relations.{follow, create_follow, block, create_block, assert_user_exists}
use wenyouzhan.Relations.Blocking.{block_cuts, FollowsOnce}
use wenyouzhan.Tests.Sample.{db}

code : Unit {0}
unfolding follow create_follow block create_block assert_user_exists visible_user
    assert_interaction_allowed distinct without add_event tables
code = tt

abbrev after_block : Store
unfolding code
after_block = record db { blocks = record { blocker_id = 10; blocked_id = 11 } ∷ [] }

after_block_lem : block 10 11 db ≡ ok (tt, after_block)
unfolding code after_block
after_block_lem = refl

block_cuts_example :
    (visible_user (some 10) 11 after_block ≡ false)
    × (visible_user (some 11) 10 after_block ≡ false)
    × ((e : BusinessException) × (follow 10 11 7 after_block ≡ err e))
    × ((e : BusinessException) × (follow 11 10 7 after_block ≡ err e))
block_cuts_example = block_cuts 10 11 7 db after_block (omega arith) after_block_lem

abbrev after_follow : Store
unfolding code
after_follow = elim (follow 10 11 7 db) [ ok (_, s) ↦ s | err _ ↦ db ]

after_follow_lem : follow 10 11 7 db ≡ ok (tt, after_follow)
unfolding code after_follow
after_follow_lem = refl

db-FollowsOnce : FollowsOnce db
unfolding tables
db-FollowsOnce a b = omega arith
