-- ===== src/Access/Interactions.antt =====
-- Blocks keep two users apart in both directions, and the posting rule.
use wenyouzhan.Common.{
  ℕ, ◌≡◌, ◌≢◌, ◌↔◌, ◌⊎◌, inl, inr, refl, Bool, true, false, not, ◌&&◌, ◌||◌, Bool-cases, Option,
  List, [], ◌∷◌, ◌==◌, arith, has_row, tables,
}
use wenyouzhan.Exception.{ok}
use wenyouzhan.Store.{Store}
use wenyouzhan.Store.Keys.{PostingPolicy, participants, collaborators, players}
use wenyouzhan.Store.Rows.{UserBlock}
use wenyouzhan.Access.Blocks.{
  contains, distinct, without, blocks_row, is_blocked_pair, assert_interaction_allowed,
  load_block_sets, filter_recipients,
}
use wenyouzhan.Access.Sets.{
  contains-without, contains-distinct, contains-blockers_of, contains-blocked_of, has_row-or,
}
use wenyouzhan.Access.Posting.{
  PostingMemberSnapshot, evaluate, assert_can_post, has_blocked_relation, manages, plays,
}

filter_recipients_lem :
    (b : ℕ) (ids : List ℕ) (u : ℕ) (s : Store)
    → contains b (filter_recipients ids (load_block_sets u s)) ≡ (
        contains b ids
        && not (
            contains b (load_block_sets u s).blocked_by_user
            || contains b (load_block_sets u s).blocked_by_author))
unfolding filter_recipients tables
filter_recipients_lem b [] u s = refl
filter_recipients_lem b (x ∷ ids) u s = elim (Bool-cases (x == b)) [
  | inl same ↦ (let e : x ≡ b = ground arith in ground (arith, filter_recipients_lem b ids u s))
  | inr other ↦ ground (arith, filter_recipients_lem b ids u s)
]

-- Of the recipients of a user's notification, the block filter leaves out exactly those who block
-- the user or whom the user blocks.
pub filter_recipients-exact :
    (b : ℕ) (ids : List ℕ) (u : ℕ) (s : Store)
    → contains b (filter_recipients ids (load_block_sets u s))
      ≡ (contains b ids && not (is_blocked_pair u b s))
unfolding load_block_sets
filter_recipients-exact b ids u s = ground (
  arith,
  filter_recipients_lem b ids u s,
  contains-blockers_of u b s.blocks,
  contains-blocked_of u b s.blocks,
  has_row-or (blocks_row u b) (blocks_row b u) s.blocks,
)

==-contains : (a b : ℕ) (targets : List ℕ) → a == b ≡ true → contains a targets ≡ contains b targets
==-contains a b targets h = let e : a ≡ b = ground arith in rw e refl

==_self : (a : ℕ) → a == a ≡ true
==_self a = ground arith

-- The one query on all targets finds nothing when each target's own query finds nothing.
no_block :
    (actor : ℕ) (targets : List ℕ) (rows : List UserBlock)
    → (has_row
          (λ r.
            r.blocker_id == actor && contains r.blocked_id targets
            || r.blocked_id == actor && contains r.blocker_id targets)
          rows
        ≡ false)
      ↔ ((b : ℕ)
          → contains b targets ≡ true
          → has_row (λ r. blocks_row actor b r || blocks_row b actor r) rows ≡ false)
unfolding tables
no_block actor targets [] = (λ h b k. refl, λ h. refl)
no_block actor targets (r ∷ rows) =
    let (down, up) = no_block actor targets rows in
    (
      λ h b k. ground (
        arith,
        down (ground arith) b k,
        ==-contains r.blocked_id b targets,
        ==-contains r.blocker_id b targets,
      ),
      λ h. ground (
        arith,
        h r.blocked_id,
        h r.blocker_id,
        ==_self r.blocked_id,
        ==_self r.blocker_id,
        up (λ b k. ground (arith, h b k)),
      ),
    )

-- An interaction is allowed exactly when no one of its targets, the actor aside, blocks the actor
-- or is blocked by the actor.
pub assert_interaction_allowed-eq-ok_iff :
    (actor : ℕ) (targets : List ℕ) (s : Store)
    → (assert_interaction_allowed actor targets s ≡ ok tt)
      ↔ ((b : ℕ) → contains b targets ≡ true → b ≢ actor → is_blocked_pair actor b s ≡ false)
unfolding assert_interaction_allowed
assert_interaction_allowed-eq-ok_iff actor targets s =
    let among = without actor (distinct targets) in
    let (down, up) = no_block actor among s.blocks in
    (
      λ h b k other. down (ground arith) b (
          ground (arith, contains-without actor b (distinct targets), contains-distinct b targets)),
      λ h.
          let none_found = up (λ b k. ground (
            arith,
            h b,
            contains-without actor b (distinct targets),
            contains-distinct b targets,
          )) in
          ground arith,
    )

abbrev pub MayPost : ℕ → ℕ → PostingPolicy → Option PostingMemberSnapshot → Bool → Type 0
MayPost owner_id user_id policy member blocked =
    (owner_id ≡ user_id)
    ⊎ ((blocked ≡ false)
        × ((manages member ≡ true)
            ⊎ (policy ≡ participants)
            ⊎ ((policy ≡ players) × (plays member ≡ true))))

-- A signed-in user may post in a subthread exactly when the thread is theirs, or when no block
-- stands between them and its owner and they manage the thread, or the policy is open to all
-- participants, or it asks for players and they are marked as one.
pub assert_can_post-eq-ok_iff :
    (owner_id user_id : ℕ) (policy : PostingPolicy) (member : Option PostingMemberSnapshot)
    (s : Store)
    → (assert_can_post owner_id user_id policy member s ≡ ok tt)
      ↔ MayPost owner_id user_id policy member (is_blocked_pair owner_id user_id s)
unfolding assert_can_post evaluate has_blocked_relation
assert_can_post-eq-ok_iff owner_id user_id participants member s = ground arith
assert_can_post-eq-ok_iff owner_id user_id players member s = ground arith
assert_can_post-eq-ok_iff owner_id user_id collaborators member s = ground arith
