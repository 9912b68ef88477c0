-- ===== src/Relations.antt =====
-- Follows and blocks (src/users/user-relations.service.ts). The message texts of the answers are
-- left out, and so are the joined user summaries and the row locks.
pub mod Blocking
use wenyouzhan.Common.{
  ℕ, Bool, true, false, ◌&&◌, Option, none, some, List, [], ◌∷◌, ◌==◌, if◌then◌else◌, is_none,
  has_row, insert, remove_where, find_unique,
}
use wenyouzhan.ErrorCode.{user_not_found}
use wenyouzhan.Exception.{Result, ok, err, not_found_error}
use wenyouzhan.Store.{Store, Tx, pure, gets, reads, modify, or_throw, enqueue, ◌>>=◌, ◌>>◌}
use wenyouzhan.Store.Keys.{user_followed_key}
use wenyouzhan.Store.Rows.{User, UserFollow, UserBlock, user_followed, OutboxRow}
use wenyouzhan.Access.Blocks.{blocks_row, visible_user, assert_interaction_allowed}

-- `assertUserExists`
unfoldable pub assert_user_exists : ℕ → Option ℕ → Store → Result (Unit {0})
assert_user_exists id viewer s =
    elim (find_unique (λ u. u.id == id) (λ u. is_none u.deleted_at && visible_user viewer id s)
      s.users) [ none ↦ err (not_found_error user_not_found) | some _ ↦ ok tt ]

abbrev pub follows_row : ℕ → ℕ → UserFollow → Bool
follows_row a b r = r.follower_id == a && r.following_id == b

abbrev pub follow_event : ℕ → ℕ → ℕ → OutboxRow
follow_event actor target event_id = record {
  event_key = user_followed_key actor target event_id;
  payload = user_followed actor target;
}

-- `createMany` with `skipDuplicates`, and the event of a row that is new.
unfoldable pub create_follow : ℕ → ℕ → ℕ → Tx (Unit {0})
create_follow actor target event_id s =
    if has_row (follows_row actor target) s.follows
    then ok (tt, s)
    else ok (
      tt,
      enqueue (follow_event actor target event_id) (record s {
        follows = insert (record { follower_id = actor; following_id = target }) s.follows;
      }),
    )

-- `follow`; `event_id` is what `randomUUID` gives.
unfoldable pub follow : ℕ → ℕ → ℕ → Tx (Unit {0})
follow actor target event_id s =
    if actor == target
    then ok (tt, s)
    else (do
      reads (assert_user_exists target none)
      reads (assert_interaction_allowed actor (target ∷ []))
      create_follow actor target event_id)
        s

-- `unfollow`
unfoldable pub unfollow : ℕ → ℕ → Tx (Unit {0})
unfollow user_id target =
    modify λ s. record s { follows = remove_where (follows_row user_id target) s.follows }

-- The upsert of `block`.
unfoldable pub create_block : ℕ → ℕ → List UserBlock → List UserBlock
create_block a b rows =
    if has_row (blocks_row a b) rows
    then rows
    else insert (record { blocker_id = a; blocked_id = b }) rows

-- `block`
unfoldable pub block : ℕ → ℕ → Tx (Unit {0})
block user_id target s =
    if user_id == target
    then ok (tt, s)
    else elim (find_unique (λ u. u.id == target) (λ u. is_none u.deleted_at) s.users) [
      | none ↦ err (not_found_error user_not_found)
      | some _ ↦ ok (tt, record s { blocks = create_block user_id target s.blocks })
    ]

-- `unblock`
unfoldable pub unblock : ℕ → ℕ → Tx (Unit {0})
unblock user_id target =
    modify λ s. record s { blocks = remove_where (blocks_row user_id target) s.blocks }

unfoldable pub select : {A : Type 0} → (A → Bool) → List A → List A
select p [] = []
select p (x ∷ xs) = let rest = select p xs in if p x then x ∷ rest else rest

-- `following` and `followers`, as a viewer sees them.
unfoldable pub following : ℕ → Option ℕ → Store → List UserFollow
following user_id viewer s =
    select (λ r. r.follower_id == user_id && visible_user viewer r.following_id s) s.follows

unfoldable pub followers : ℕ → Option ℕ → Store → List UserFollow
followers user_id viewer s =
    select (λ r. r.following_id == user_id && visible_user viewer r.follower_id s) s.follows

-- `userFollowing` and `userFollowers`
unfoldable pub user_following : ℕ → Option ℕ → Store → Result (List UserFollow)
user_following user_id viewer s = elim (assert_user_exists user_id viewer s) [
  | err e ↦ err e
  | ok _ ↦ ok (following user_id viewer s)
]

unfoldable pub user_followers : ℕ → Option ℕ → Store → Result (List UserFollow)
user_followers user_id viewer s = elim (assert_user_exists user_id viewer s) [
  | err e ↦ err e
  | ok _ ↦ ok (followers user_id viewer s)
]

-- `blocks`
unfoldable pub blocks_by : ℕ → Store → List UserBlock
blocks_by user_id s = select (λ r. r.blocker_id == user_id) s.blocks
