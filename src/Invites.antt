-- ===== src/Invites.antt =====
-- Invitations to private threads (src/threads/thread-invite.service.ts). The tokens that
-- `randomBytes` gives are arguments; the joined summaries of threads and users are left out.
pub mod Joining
use wenyouzhan.Common.{
  ℕ, ◌+◌, Bool, true, false, not, ◌&&◌, ◌||◌, Option, none, some, List, [], ◌∷◌, ◌==◌,
  if◌then◌else◌, is_some, is_none, insert, update_first, has_row, find_first, count_where,
}
use wenyouzhan.ErrorCode.{thread_not_found, forbidden, invite_invalid}
use wenyouzhan.Exception.{Result, ok, err, not_found_error, forbidden_error}
use wenyouzhan.Store.{Store, Tx, pure, gets, reads, modify, or_throw, throw_if, ◌>>=◌, ◌>>◌}
use wenyouzhan.Store.Rows.{Thread, ThreadInvite}
use wenyouzhan.Access.Blocks.{visible_user, assert_interaction_allowed}
use wenyouzhan.Access.Threads.{is_private, member_of, live_thread, assert_owner}
use wenyouzhan.Membership.{new_member}

abbrev pub invites_to : ℕ → ThreadInvite → Bool
invites_to thread_id i = i.thread_id == thread_id

abbrev pub has_token : ℕ → ThreadInvite → Bool
has_token token i = i.token == token

-- `threadInvite.upsert`
abbrev pub set_invite : ℕ → ℕ → Store → Store
set_invite thread_id token s = record s {
  invites =
      if has_row (invites_to thread_id) s.invites
      then update_first (invites_to thread_id) (λ i. record i { token = token }) s.invites
      else insert (record { thread_id = thread_id; token = token }) s.invites;
}

-- `create`
unfoldable pub create_invite : ℕ → ℕ → ℕ → Tx (Unit {0})
create_invite thread_id user_id token = do
  reads (assert_owner thread_id user_id)
  thread ← or_throw (← gets (live_thread thread_id)) (not_found_error thread_not_found)
  throw_if (not thread.published) (forbidden_error forbidden)
  throw_if (not (is_private thread.visibility)) (forbidden_error forbidden)
  modify (set_invite thread_id token)

-- A published private thread that is not deleted.
abbrev pub is_open_to_invites : Thread → Bool
is_open_to_invites t = is_none t.deleted_at && (t.published && is_private t.visibility)

-- The thread of an invitation, if it can still be joined.
unfoldable pub invited_thread : ℕ → Store → Result Thread
invited_thread token s = elim (find_first (has_token token) s.invites) [
  | none ↦ err (not_found_error invite_invalid)
  | some i ↦ elim (find_first (λ t. t.id == i.thread_id) s.threads) [
    | none ↦ err (not_found_error invite_invalid)
    | some t ↦ if is_open_to_invites t then ok t else err (not_found_error invite_invalid)
  ]
]

pub record InvitePreview : Type 0 where
  pub thread_id : ℕ
  pub member_count : ℕ
  pub already_joined : Bool

-- `preview`, less the joined columns of the thread.
unfoldable pub preview : ℕ → Option ℕ → Store → Result InvitePreview
preview token viewer s = elim (invited_thread token s) [
  | err e ↦ err e
  | ok t ↦
      if visible_user viewer t.owner_id s
      then ok (record {
        thread_id = t.id;
        member_count =
            count_where (λ m. m.thread_id == t.id && visible_user viewer m.user_id s) s.members;
        already_joined = elim viewer [ none ↦ false | some u ↦ is_some (member_of t.id u s) ];
      })
      else err (not_found_error invite_invalid)
]

abbrev pub with_member : ℕ → ℕ → Store → Store
with_member thread_id user_id s = record s {
  members = insert (new_member s.next_id thread_id user_id) s.members;
  next_id = s.next_id + 1;
}

-- `threadMember.upsert`, which changes nothing where the user is a member.
abbrev pub upsert_member : ℕ → ℕ → Tx (Unit {0})
upsert_member thread_id user_id s = elim (member_of thread_id user_id s) [
  | some m ↦ ok (tt, s)
  | none ↦ ok (tt, with_member thread_id user_id s)
]

-- `join`: the thread's id.
unfoldable pub join_invited : ℕ → ℕ → Tx ℕ
join_invited token user_id = do
  thread ← reads (invited_thread token)
  reads (assert_interaction_allowed user_id (thread.owner_id ∷ []))
  upsert_member thread.id user_id
  pure thread.id
