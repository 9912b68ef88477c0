-- ===== src/Access/Blocks.antt =====
-- Blocks between users (src/access/block-visibility.where.ts, block-filter.service.ts,
-- moment-visibility.where.ts). A Prisma `where` object is the test that it makes on a row.
use wenyouzhan.Common.{
  ℕ, Bool, true, not, ◌&&◌, ◌||◌, Option, none, some, List, [], ◌∷◌, ◌==◌, if◌then◌else◌, has_row,
}
use wenyouzhan.ErrorCode.{forbidden}
use wenyouzhan.Exception.{Result, ok, err, forbidden_error}
use wenyouzhan.Store.{Store}
use wenyouzhan.Store.Rows.{UserBlock}

abbrev pub blocks_row : ℕ → ℕ → UserBlock → Bool
blocks_row a b r = r.blocker_id == a && r.blocked_id == b

-- A row of either direction.
abbrev pub is_blocked_pair : ℕ → ℕ → Store → Bool
is_blocked_pair a b s = has_row (λ r. blocks_row a b r || blocks_row b a r) s.blocks

-- `visibleUserWhere(viewerId)` on the user `id`: no block by the user of the viewer, and none by
-- the viewer of the user.
unfoldable pub visible_user : Option ℕ → ℕ → Store → Bool
visible_user none id s = true
visible_user (some viewer) id s =
    not (has_row (blocks_row id viewer) s.blocks) && not (has_row (blocks_row viewer id) s.blocks)

abbrev pub contains : ℕ → List ℕ → Bool
contains a xs = has_row (λ x. x == a) xs

-- `filter((id) => id !== a)`
unfoldable pub without : ℕ → List ℕ → List ℕ
without a [] = []
without a (x ∷ xs) = if x == a then without a xs else x ∷ without a xs

-- `[...new Set(ids)]`: the first occurrence of each id, in order.
unfoldable pub distinct : List ℕ → List ℕ
unfolding without
distinct [] = []
distinct (x ∷ xs) = x ∷ without x (distinct xs)

-- `assertInteractionAllowed`. The row locks are left out.
unfoldable pub assert_interaction_allowed : ℕ → List ℕ → Store → Result (Unit {0})
assert_interaction_allowed actor target_ids s =
    let targets = without actor (distinct target_ids) in
    if has_row
      (λ r.
        r.blocker_id == actor && contains r.blocked_id targets
        || r.blocked_id == actor && contains r.blocker_id targets)
      s.blocks
    then err (forbidden_error forbidden)
    else ok tt

-- `BlockSets` and its two operations.
pub record BlockSets : Type 0 where
  pub blocked_by_user : List ℕ
  pub blocked_by_author : List ℕ

unfoldable pub blockers_of : ℕ → List UserBlock → List ℕ
blockers_of user_id [] = []
blockers_of user_id (r ∷ rs) =
    if r.blocked_id == user_id
    then r.blocker_id ∷ blockers_of user_id rs
    else blockers_of user_id rs

unfoldable pub blocked_of : ℕ → List UserBlock → List ℕ
blocked_of user_id [] = []
blocked_of user_id (r ∷ rs) =
    if r.blocker_id == user_id then r.blocked_id ∷ blocked_of user_id rs else blocked_of user_id rs

unfoldable pub load_block_sets : ℕ → Store → BlockSets
unfolding blockers_of blocked_of
load_block_sets user_id s = record {
  blocked_by_user = blockers_of user_id s.blocks;
  blocked_by_author = blocked_of user_id s.blocks;
}

unfoldable pub filter_recipients : List ℕ → BlockSets → List ℕ
filter_recipients [] sets = []
filter_recipients (id ∷ ids) sets =
    if not (contains id sets.blocked_by_user) && not (contains id sets.blocked_by_author)
    then id ∷ filter_recipients ids sets
    else filter_recipients ids sets
