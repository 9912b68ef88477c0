-- ===== src/Relations/Blocking.antt =====
-- What a block cuts off, and the shape of the tables of follows and blocks.
use wenyouzhan.Common.{
  ℕ, ◌≤◌, ◌≡◌, ◌≢◌, refl, sym, inl, inr, Bool, true, false, ◌||◌, Bool-cases, none, some, List, [],
  ◌∷◌, ◌==◌, arith, has_row, All, All-insert, count_where, count_where-insert, has_row-insert,
  tables,
}
use wenyouzhan.Exception.{Result-cases, BusinessException, ok, err}
use wenyouzhan.Store.{Store}
use wenyouzhan.Store.Rows.{UserBlock, UserFollow}
use wenyouzhan.Access.Blocks.{
  blocks_row, is_blocked_pair, contains, assert_interaction_allowed, visible_user,
}
use wenyouzhan.Access.Sets.{has_row-or}
use wenyouzhan.Access.Interactions.{assert_interaction_allowed-eq-ok_iff}
use wenyouzhan.Relations.{
  block, create_block, follow, create_follow, follows_row, assert_user_exists,
}

contains_self : (b : ℕ) → contains b (b ∷ []) ≡ true
unfolding tables
contains_self b = ground arith

-- The row of a block is there after it.
has_row-create_block :
    (a b : ℕ) (rows : List UserBlock) → has_row (blocks_row a b) (create_block a b rows) ≡ true
unfolding create_block
has_row-create_block a b rows =
    ground (arith, has_row-insert (blocks_row a b) rows (record { blocker_id = a; blocked_id = b }))

block-writes :
    (u t : ℕ) (s s' : Store)
    → u ≢ t
    → block u t s ≡ ok (tt, s')
    → s' ≡ record s { blocks = create_block u t s.blocks }
unfolding block
block-writes u t s s' other h = ground arith

follow-blocked :
    (a b event_id : ℕ) (s : Store)
    → a ≢ b
    → is_blocked_pair a b s ≡ true
    → (e : BusinessException) × (follow a b event_id s ≡ err e)
unfolding follow create_follow
follow-blocked a b event_id s other blocked =
    let (down, _) = assert_interaction_allowed-eq-ok_iff a (b ∷ []) s in
    let hit : contains b (b ∷ []) ≡ true = contains_self b in
    elim (Result-cases (assert_interaction_allowed a (b ∷ []) s)) [
      | inl (x, fine) ↦ absurd (ground (arith, down (ground arith) b hit (λ e. other (sym e))))
      | inr (e, bad) ↦ elim (Result-cases (assert_user_exists b none s)) [
        | inl (x, fine) ↦ (e, ground arith)
        | inr (e', gone) ↦ (e', ground arith)
      ]
    ]

-- A block cuts off both sides at once: neither user sees the other in the lists that are filtered
-- for them, and neither can follow the other any more.
pub block_cuts :
    (u t event_id : ℕ) (s s' : Store)
    → u ≢ t
    → block u t s ≡ ok (tt, s')
    → (visible_user (some u) t s' ≡ false)
      × (visible_user (some t) u s' ≡ false)
      × ((e : BusinessException) × (follow u t event_id s' ≡ err e))
      × ((e : BusinessException) × (follow t u event_id s' ≡ err e))
unfolding visible_user
block_cuts u t event_id s s' other h =
    let after = block-writes u t s s' other h in
    let there : has_row (blocks_row u t) s'.blocks ≡ true =
      rw after (has_row-create_block u t s.blocks) in
    let split = has_row-or (blocks_row u t) (blocks_row t u) s'.blocks in
    let split' = has_row-or (blocks_row t u) (blocks_row u t) s'.blocks in
    (
      ground arith,
      ground arith,
      follow-blocked u t event_id s' other (ground arith),
      follow-blocked t u event_id s' (λ e. other (sym e)) (ground arith),
    )

-- Nobody blocks themselves.
abbrev pub NoSelfBlock : Store → Type 0
NoSelfBlock s = All (λ r. r.blocker_id ≢ r.blocked_id) s.blocks

rows-NoSelfBlock :
    (a : ℕ) (rows : List UserBlock)
    → All (λ r. r.blocker_id ≢ r.blocked_id) rows
    → has_row (λ r. blocks_row a a r || blocks_row a a r) rows ≡ false
unfolding tables
rows-NoSelfBlock a [] h = refl
rows-NoSelfBlock a (r ∷ rows) h = ground (arith, h.0, rows-NoSelfBlock a rows h.1)

rows-create_block :
    (u t : ℕ) (rows : List UserBlock)
    → u ≢ t
    → All (λ r. r.blocker_id ≢ r.blocked_id) rows
    → All (λ r. r.blocker_id ≢ r.blocked_id) (create_block u t rows)
unfolding create_block
rows-create_block u t rows other h = elim (Bool-cases (has_row (blocks_row u t) rows)) [
  | inl there ↦ rw there h
  | inr new ↦ rw new (
      All-insert (λ (r : UserBlock). r.blocker_id ≢ r.blocked_id) rows
        (record { blocker_id = u; blocked_id = t }) h other)
]

block-keeps : (u t : ℕ) (s s' : Store) → NoSelfBlock s → block u t s ≡ ok (tt, s') → NoSelfBlock s'
unfolding block
block-keeps u t s s' h e = elim (Bool-cases (u == t)) [
  | inl same ↦ (let stays : s' ≡ s = ground arith in rw stays h)
  | inr apart ↦
      (let other : u ≢ t = ground arith in
        rw (block-writes u t s s' other e) (rows-create_block u t s.blocks other h))
]

-- No call of `block` makes a user block themselves, so that no block ever stands between a user
-- and themselves.
pub block-NoSelfBlock :
    (u t : ℕ) (s s' : Store)
    → NoSelfBlock s
    → block u t s ≡ ok (tt, s')
    → NoSelfBlock s' × ((a : ℕ) → is_blocked_pair a a s' ≡ false)
block-NoSelfBlock u t s s' h e =
    let kept : NoSelfBlock s' = block-keeps u t s s' h e in
    (kept, λ a. rows-NoSelfBlock a s'.blocks kept)

count_where-none :
    (p : UserFollow → Bool) (rows : List UserFollow)
    → has_row p rows ≡ false
    → count_where p rows ≡ 0
unfolding tables
count_where-none p [] h = refl
count_where-none p (r ∷ rows) h = ground (arith, count_where-none p rows)

abbrev pub FollowsOnce : Store → Type 0
FollowsOnce s = (a b : ℕ) → count_where (follows_row a b) s.follows ≤ 1

same_row :
    (a b c d : ℕ) (rows : List UserFollow)
    → follows_row c d (record { follower_id = a; following_id = b }) ≡ true
    → count_where (follows_row c d) rows ≡ count_where (follows_row a b) rows
same_row a b c d rows h =
    let e : a ≡ c = ground arith in let f : b ≡ d = ground arith in rw (e, f) refl

create_follow-FollowsOnce :
    (a b event_id : ℕ) (s s' : Store)
    → FollowsOnce s
    → create_follow a b event_id s ≡ ok (tt, s')
    → FollowsOnce s'
unfolding create_follow
create_follow-FollowsOnce a b event_id s s' h e c d = ground (
  arith,
  h c d,
  same_row a b c d s.follows,
  count_where-none (follows_row a b) s.follows,
  count_where-insert (follows_row c d) s.follows (record { follower_id = a; following_id = b }),
)

-- A user follows another at most once, however often they ask to.
pub follow-FollowsOnce :
    (a b event_id : ℕ) (s s' : Store)
    → FollowsOnce s
    → follow a b event_id s ≡ ok (tt, s')
    → FollowsOnce s'
unfolding follow
follow-FollowsOnce a b event_id s s' h e c d = ground (
  arith,
  h c d,
  λ (w : create_follow a b event_id s ≡ ok (tt, s')).
      create_follow-FollowsOnce a b event_id s s' h w c d,
)
