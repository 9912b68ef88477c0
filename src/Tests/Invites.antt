-- ===== src/Tests/Invites.antt =====
-- A user joins a private thread by its invitation.
use wenyouzhan.Common.{◌≡◌, refl, [], ◌∷◌, tables}
use wenyouzhan.Exception.{ok}
use wenyouzhan.Store.{Store}
use wenyouzhan.Access.Blocks.{assert_interaction_allowed, distinct, without}
use wenyouzhan.Access.Threads.{assert_owner}
use wenyouzhan.Invites.{create_invite, invited_thread, join_invited}
use wenyouzhan.Tests.Sample.{db}

code : Unit {0}
unfolding create_invite join_invited invited_thread assert_owner assert_interaction_allowed distinct
    without tables
code = tt

abbrev inviting : Store
inviting = record db { invites = record { thread_id = 30; token = 9 } ∷ [] }

create_invite_lem : create_invite 30 11 9 db ≡ ok (tt, inviting)
unfolding code
create_invite_lem = refl
