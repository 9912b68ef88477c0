-- ===== src/Access/Threads.antt =====
-- Access to a thread (src/access/thread-access.service.ts, thread-visibility.where.ts, and
-- `accessibleThreadWhere` of block-visibility.where.ts).
use wenyouzhan.Common.{
  ℕ, Bool, true, false, not, ◌&&◌, ◌||◌, Option, none, some, List, [], ◌∷◌, ◌==◌, if◌then◌else◌,
  has_row, is_none, is_value, find_first, find_unique,
}
use wenyouzhan.ErrorCode.{forbidden, thread_not_found, not_thread_owner}
use wenyouzhan.Exception.{Result, ok, err, forbidden_error, not_found_error}
use wenyouzhan.Store.{Store}
use wenyouzhan.Store.Keys.{
  Visibility, public_thread, private_thread, MemberRole, owner, collaborator, participant,
}
use wenyouzhan.Store.Rows.{Thread, ThreadMember}
use wenyouzhan.Access.Blocks.{is_blocked_pair, visible_user, distinct, assert_interaction_allowed}

abbrev pub is_private : Visibility → Bool
is_private public_thread = false
is_private private_thread = true

abbrev pub member_of : ℕ → ℕ → Store → Option ThreadMember
member_of thread_id user_id s =
    find_first (λ m. m.thread_id == thread_id && m.user_id == user_id) s.members

abbrev pub is_member : ℕ → ℕ → Store → Bool
is_member thread_id user_id s =
    has_row (λ m. m.thread_id == thread_id && m.user_id == user_id) s.members

-- `thread.findUnique({ where: { id, deletedAt: null } })`
abbrev pub live_thread : ℕ → Store → Option Thread
live_thread id s = find_unique (λ t. t.id == id) (λ t. is_none t.deleted_at) s.threads

abbrev is_viewer : Option ℕ → ℕ → Bool
is_viewer = is_value

-- The block check of an interaction by a user other than the owner.
abbrev blocked_viewer : Bool → Option ℕ → ℕ → Store → Bool
blocked_viewer interaction none owner_id s = false
blocked_viewer interaction (some user) owner_id s =
    interaction && (not (owner_id == user) && is_blocked_pair user owner_id s)

abbrev viewer_is_member : Option ℕ → ℕ → Store → Bool
viewer_is_member none thread_id s = false
viewer_is_member (some user) thread_id s = is_member thread_id user s

-- The checks on the thread that was found.
unfoldable pub assert_visible : Thread → ℕ → Option ℕ → Bool → Store → Result (Unit {0})
assert_visible t thread_id user_id interaction s =
    if blocked_viewer interaction user_id t.owner_id s
    then err (forbidden_error forbidden)
    else if not t.published
    then (if is_viewer user_id t.owner_id then ok tt else err (not_found_error thread_not_found))
    else if is_private t.visibility && not (viewer_is_member user_id thread_id s)
    then err (not_found_error thread_not_found)
    else ok tt

-- `assertAccessible(threadId, userId, client, interaction, ignoreBlocks)`
unfoldable pub assert_accessible : ℕ → Option ℕ → Bool → Bool → Store → Result (Unit {0})
assert_accessible thread_id user_id interaction ignore_blocks s =
    elim (find_unique (λ t. t.id == thread_id)
      (λ t.
        is_none t.deleted_at && (interaction || ignore_blocks || visible_user user_id t.owner_id s))
      s.threads) [
        | none ↦ err (not_found_error thread_not_found)
        | some t ↦ assert_visible t thread_id user_id interaction s
      ]

-- `lockInteraction`
unfoldable pub lock_interaction : ℕ → ℕ → List ℕ → Store → Result (Unit {0})
lock_interaction thread_id user_id targets s = elim (live_thread thread_id s) [
  | none ↦ err (not_found_error thread_not_found)
  | some t ↦ elim (assert_interaction_allowed user_id (t.owner_id ∷ targets) s) [
    | err e ↦ err e
    | ok _ ↦ assert_accessible thread_id (some user_id) true false s
  ]
]

unfoldable pub keep : (ℕ → Bool) → List ℕ → List ℕ
keep p [] = []
keep p (x ∷ xs) = if p x then x ∷ keep p xs else keep p xs

-- The collection's test for one candidate, when the thread is found.
abbrev pub receives : Thread → ℕ → Store → ℕ → Bool
receives t thread_id s id =
    if not t.published
    then id == t.owner_id
    else has_row (λ u. u.id == id) s.users
      && (visible_user (some t.owner_id) id s
          && (not (is_private t.visibility) || is_member thread_id id s))

-- `filterAccessibleUserIds`
unfoldable pub filter_accessible_user_ids : ℕ → List ℕ → Store → List ℕ
unfolding keep
filter_accessible_user_ids thread_id user_ids s = elim (live_thread thread_id s) [
  | none ↦ []
  | some t ↦ keep (receives t thread_id s) (distinct user_ids)
]

abbrev pub is_manager : MemberRole → Bool
is_manager owner = true
is_manager collaborator = true
is_manager participant = false

-- `assertCanManage`
unfoldable pub assert_can_manage : ℕ → ℕ → Store → Result ThreadMember
assert_can_manage thread_id user_id s =
    elim (assert_accessible thread_id (some user_id) true false s) [
      | err e ↦ err e
      | ok _ ↦ elim (member_of thread_id user_id s) [
        | none ↦ err (forbidden_error forbidden)
        | some m ↦ if is_manager m.role then ok m else err (forbidden_error forbidden)
      ]
    ]

-- `assertOwner`
unfoldable pub assert_owner : ℕ → ℕ → Store → Result Thread
assert_owner thread_id user_id s = elim (live_thread thread_id s) [
  | none ↦ err (not_found_error thread_not_found)
  | some t ↦
      if t.owner_id == user_id
      then ok t
      else if is_private t.visibility
      then err (not_found_error thread_not_found)
      else err (forbidden_error not_thread_owner)
]

-- `publishedThreadVisibilityWhere(viewerId)`, the test of the collections.
unfoldable pub published_thread_visible : Option ℕ → Thread → Store → Bool
published_thread_visible none t s =
    is_none t.deleted_at && (t.published && not (is_private t.visibility))
published_thread_visible (some viewer) t s =
    is_none t.deleted_at
    && (t.published
        && (visible_user (some viewer) t.owner_id s
            && (not (is_private t.visibility)
                || is_private t.visibility && is_member t.id viewer s)))

-- `accessibleThreadWhere(viewerId)`, which adds the owner's drafts.
unfoldable pub accessible_thread : Option ℕ → Thread → Store → Bool
accessible_thread none t s = is_none t.deleted_at && (t.published && not (is_private t.visibility))
accessible_thread (some viewer) t s =
    is_none t.deleted_at
    && (visible_user (some viewer) t.owner_id s
        && (t.published && not (is_private t.visibility)
            || (t.published && (is_private t.visibility && is_member t.id viewer s)
                || not t.published && t.owner_id == viewer)))
