-- ===== src/Tests/Membership.antt =====
-- The owner of a private thread makes a participant a collaborator.
use wenyouzhan.Common.{◌≡◌, refl, true, none, some, count_where, tables}
use wenyouzhan.Exception.{ok, err}
use wenyouzhan.Store.{Store, add_event}
use wenyouzhan.Store.Keys.{participant}
use wenyouzhan.Store.Rows.{ThreadMember}
use wenyouzhan.Access.Blocks.{visible_user, assert_interaction_allowed, distinct, without}
use wenyouzhan.Access.Threads.{
  assert_accessible, assert_visible, lock_interaction, assert_can_manage,
}
use wenyouzhan.Membership.{
  UpdateMemberDto, to_collaborator, apply_dto, update_member, change_member, announce_role,
}
use wenyouzhan.Membership.Roles.{updated, owns, Change-owners}
use wenyouzhan.Tests.Sample.{db}

code : Unit {0}
unfolding update_member change_member announce_role assert_accessible assert_visible
    lock_interaction assert_can_manage visible_user assert_interaction_allowed distinct without
    add_event tables
code = tt

abbrev dto : UpdateMemberDto
dto = record { role = some to_collaborator; player_marked = none }

abbrev member : ThreadMember
member = record { id = 41; thread_id = 30; user_id = 10; role = participant; player_marked = true }

abbrev promoted : Store
unfolding code
promoted = elim (update_member 30 10 dto 11 7 db) [ ok (_, s) ↦ s | err _ ↦ db ]

promoted_lem : update_member 30 10 dto 11 7 db ≡ ok (apply_dto dto member, promoted)
unfolding code promoted
promoted_lem = refl

Change-owners_example :
    count_where (owns 30 11) promoted.members ≡ count_where (owns 30 11) db.members
Change-owners_example =
    Change-owners (updated 30 10 dto 11 7 db promoted (apply_dto dto member) promoted_lem) 30 11
