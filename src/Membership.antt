-- ===== src/Membership.antt =====
-- The participants of a thread (src/threads/thread-members.service.ts). Row locks and the joined
-- user summaries are left out.
pub mod Roles
use wenyouzhan.Common.{
  ℕ, ◌+◌, Bool, true, false, not, ◌&&◌, ◌||◌, Option, none, some, List, [], ◌∷◌, ◌==◌,
  if◌then◌else◌, is_some, is_none, is_value, insert, remove_where, update_first,
}
use wenyouzhan.ErrorCode.{
  thread_not_found, forbidden, already_member, bad_request, not_thread_owner, user_not_found,
  cannot_moderate_owner,
}
use wenyouzhan.Exception.{
  Result, ok, err, business, not_found_error, forbidden_error, bad_request_error,
}
use wenyouzhan.Store.{
  Store, Tx, pure, gets, reads, modify, or_throw, throw_if, fresh_id, enqueue, ◌>>=◌, ◌>>◌,
}
use wenyouzhan.Store.Keys.{MemberRole, owner, collaborator, participant, collaborator_role_key}
use wenyouzhan.Store.Rows.{ThreadMember, Subscription, collaborator_role_changed}
use wenyouzhan.Progression.{user_by_id}
use wenyouzhan.Access.Blocks.{visible_user}
use wenyouzhan.Access.Threads.{
  is_private, member_of, live_thread, assert_accessible, lock_interaction, assert_can_manage,
}

abbrev pub is_row : ℕ → ℕ → ThreadMember → Bool
is_row thread_id user_id m = m.thread_id == thread_id && m.user_id == user_id

-- Rows are kept in the order of insertion, which is that of `joinedAt`.
unfoldable pub visible_members : ℕ → Option ℕ → Store → List ThreadMember → List ThreadMember
visible_members thread_id viewer s [] = []
visible_members thread_id viewer s (m ∷ ms) =
    let rest = visible_members thread_id viewer s ms in
    if m.thread_id == thread_id && visible_user viewer m.user_id s then m ∷ rest else rest

-- `findAll`
unfoldable pub find_all : ℕ → Option ℕ → Store → Result (List ThreadMember)
find_all thread_id viewer s = elim (assert_accessible thread_id viewer false false s) [
  | err e ↦ err e
  | ok _ ↦ ok (visible_members thread_id viewer s s.members)
]

abbrev pub new_member : ℕ → ℕ → ℕ → ThreadMember
new_member id thread_id user_id = record {
  id = id;
  thread_id = thread_id;
  user_id = user_id;
  role = participant;
  player_marked = false;
}

-- `join`: the checks before the transaction, then the transaction.
unfoldable pub join : ℕ → ℕ → Tx (Unit {0})
join thread_id user_id = do
  reads (assert_accessible thread_id (some user_id) true false)
  thread ← or_throw (← gets (live_thread thread_id)) (not_found_error thread_not_found)
  throw_if (not thread.published) (forbidden_error forbidden)
  existing ← gets (member_of thread_id user_id)
  throw_if (is_some existing) (business already_member 409)
  throw_if (is_private thread.visibility) (not_found_error thread_not_found)
  reads (lock_interaction thread_id user_id [])
  modify λ s. record s {
    members = insert (new_member s.next_id thread_id user_id) s.members;
    next_id = s.next_id + 1;
  }

-- `UpdateMemberDto`: validation lets only these two roles through.
pub data GivenRole : Type 0 where
  to_collaborator to_participant : GivenRole

pub record UpdateMemberDto : Type 0 where
  pub role : Option GivenRole
  pub player_marked : Option Bool

abbrev pub role_of : GivenRole → MemberRole
role_of to_collaborator = collaborator
role_of to_participant = participant

abbrev pub same_role : MemberRole → MemberRole → Bool
same_role owner owner = true
same_role collaborator collaborator = true
same_role participant participant = true
same_role _ _ = false

abbrev pub new_role : UpdateMemberDto → ThreadMember → MemberRole
new_role dto m = elim dto.role [ none ↦ m.role | some r ↦ role_of r ]

-- `data: dto`, in which an absent property changes nothing.
abbrev pub apply_dto : UpdateMemberDto → ThreadMember → ThreadMember
apply_dto dto m = record m {
  role = new_role dto m;
  player_marked = elim dto.player_marked [ none ↦ m.player_marked | some b ↦ b ];
}

-- The subscriptions to a user's posts in a thread.
abbrev pub follows_user : ℕ → ℕ → Subscription → Bool
follows_user thread_id user_id x =
    x.thread_id == thread_id && (x.is_user_type && is_value x.target_user_id user_id)

-- Those, and the user's own in the thread.
abbrev pub concerns_user : ℕ → ℕ → Subscription → Bool
concerns_user thread_id user_id x =
    x.thread_id == thread_id
    && (x.user_id == user_id || x.is_user_type && is_value x.target_user_id user_id)

abbrev pub becomes_collaborator : UpdateMemberDto → Bool
becomes_collaborator dto = elim dto.role [
  | none ↦ false
  | some r ↦ elim r [ to_collaborator ↦ true | to_participant ↦ false ]
]

abbrev pub unmarks : UpdateMemberDto → Bool
unmarks dto = elim dto.player_marked [ none ↦ false | some b ↦ not b ]

abbrev pub kept_subscriptions : UpdateMemberDto → ℕ → ℕ → List Subscription → List Subscription
kept_subscriptions dto thread_id user_id xs =
    if becomes_collaborator dto
    then remove_where (concerns_user thread_id user_id) xs
    else if unmarks dto
    then remove_where (follows_user thread_id user_id) xs
    else xs

-- The event of a role that changes; `event_id` is what `randomUUID` gives.
unfoldable pub announce_role : ℕ → ℕ → ℕ → ℕ → MemberRole → MemberRole → Tx (Unit {0})
announce_role thread_id actor_id target_id event_id old new =
    if same_role new old then pure tt else (do
      actor ← or_throw (← gets (user_by_id actor_id)) (not_found_error user_not_found)
      modify (
          enqueue (record {
            event_key = collaborator_role_key event_id;
            payload = collaborator_role_changed event_id thread_id actor_id target_id old new;
          })))

abbrev pub is_owner : MemberRole → Bool
is_owner owner = true
is_owner collaborator = false
is_owner participant = false

-- The transaction of `updateMember`.
unfoldable pub change_member : ℕ → ℕ → UpdateMemberDto → ℕ → ℕ → Tx ThreadMember
change_member thread_id target_id dto actor_id event_id = do
  reads (lock_interaction thread_id actor_id (target_id ∷ []))
  member ← or_throw (← gets (member_of thread_id target_id)) (not_found_error user_not_found)
  throw_if (is_owner member.role) (forbidden_error cannot_moderate_owner)
  modify λ s. record s {
    members = update_first (is_row thread_id target_id) (apply_dto dto) s.members;
    subscriptions = kept_subscriptions dto thread_id target_id s.subscriptions;
  }
  announce_role thread_id actor_id target_id event_id member.role (new_role dto member)
  pure (apply_dto dto member)

-- `updateMember`
unfoldable pub update_member : ℕ → ℕ → UpdateMemberDto → ℕ → ℕ → Tx ThreadMember
update_member thread_id target_id dto actor_id event_id = do
  actor ← reads (assert_can_manage thread_id actor_id)
  throw_if (is_none dto.role && is_none dto.player_marked) (bad_request_error bad_request)
  throw_if (is_some dto.role && not (is_owner actor.role)) (forbidden_error not_thread_owner)
  change_member thread_id target_id dto actor_id event_id

abbrev pub unmark : ThreadMember → ThreadMember
unmark m = record m { player_marked = false }

-- `exitMember`
unfoldable pub exit_member : ℕ → ℕ → Tx ThreadMember
exit_member thread_id user_id = do
  member ← or_throw (← gets (member_of thread_id user_id)) (not_found_error user_not_found)
  throw_if (is_owner member.role) (forbidden_error cannot_moderate_owner)
  modify λ s. record s {
    members = update_first (is_row thread_id user_id) unmark s.members;
    subscriptions = remove_where (follows_user thread_id user_id) s.subscriptions;
  }
  pure (unmark member)
