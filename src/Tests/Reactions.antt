-- ===== src/Tests/Reactions.antt =====
-- A member likes a private thread.
use wenyouzhan.Common.{◌≡◌, refl, arith, tables}
use wenyouzhan.Exception.{ok, err}
use wenyouzhan.Store.{Store, add_event}
use wenyouzhan.Access.Blocks.{visible_user, assert_interaction_allowed, distinct, without}
use wenyouzhan.Access.Threads.{assert_accessible, assert_visible, lock_interaction}
use wenyouzhan.Reactions.{like, write_like}
use wenyouzhan.Reactions.Counting.{LikesCounted}
use wenyouzhan.Reactions.Steps.{likes, Reaction-LikesCounted}
use wenyouzhan.Tests.Sample.{db}

code : Unit {0}
unfolding like write_like assert_accessible assert_visible lock_interaction visible_user
    assert_interaction_allowed distinct without add_event tables
code = tt

abbrev liked : Store
unfolding code
liked = elim (like 30 10 7 db) [ ok (_, s) ↦ s | err _ ↦ db ]

liked_lem : like 30 10 7 db ≡ ok (1, liked)
unfolding code liked
liked_lem = refl

db-LikesCounted : LikesCounted db
unfolding tables
db-LikesCounted = (λ id t h. ground arith, λ id u. omega arith)

Reaction-LikesCounted_example : LikesCounted liked
Reaction-LikesCounted_example =
    Reaction-LikesCounted db-LikesCounted (likes 30 10 7 db liked 1 liked_lem)
