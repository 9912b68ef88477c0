-- ===== src/Access/Posting.antt =====
-- Who may post in a subthread (src/access/posting-policy.service.ts).
use wenyouzhan.Common.{
  ℕ, Bool, true, false, ◌||◌, Option, none, some, List, map, ◌==◌, if◌then◌else◌,
}
use wenyouzhan.ErrorCode.{forbidden, not_collaborator, not_player}
use wenyouzhan.Exception.{Result, ok, err, forbidden_error}
use wenyouzhan.Store.{Store}
use wenyouzhan.Store.Keys.{PostingPolicy, participants, collaborators, players, MemberRole}
use wenyouzhan.Access.Blocks.{is_blocked_pair}
use wenyouzhan.Access.Threads.{is_manager}

pub data PostingDenialReason : Type 0 where
  authentication_required blocked_relation : PostingDenialReason
  collaborator_required player_required : PostingDenialReason

pub record PostingCapability : Type 0 where
  pub can_post : Bool
  pub denial_reason : Option PostingDenialReason

pub record PostingMemberSnapshot : Type 0 where
  pub role : MemberRole
  pub player_marked : Bool

abbrev pub allowed : PostingCapability
allowed = record { can_post = true; denial_reason = none }

abbrev pub denied : PostingDenialReason → PostingCapability
denied reason = record { can_post = false; denial_reason = some reason }

-- `member?.role === 'OWNER' || member?.role === 'COLLABORATOR'`
abbrev pub manages : Option PostingMemberSnapshot → Bool
manages none = false
manages (some m) = is_manager m.role

abbrev pub plays : Option PostingMemberSnapshot → Bool
plays none = false
plays (some m) = m.player_marked

abbrev pub is_participants : PostingPolicy → Bool
is_participants participants = true
is_participants collaborators = false
is_participants players = false

abbrev pub is_collaborators : PostingPolicy → Bool
is_collaborators collaborators = true
is_collaborators participants = false
is_collaborators players = false

-- `evaluate`
unfoldable pub evaluate :
    ℕ → Option ℕ → PostingPolicy → Option PostingMemberSnapshot → Bool → PostingCapability
evaluate owner_id none policy member blocked = denied authentication_required
evaluate owner_id (some user_id) policy member blocked =
    if blocked
    then denied blocked_relation
    else if owner_id == user_id || manages member || is_participants policy
    then allowed
    else if is_collaborators policy
    then denied collaborator_required
    else if plays member
    then allowed
    else denied player_required

-- `hasBlockedRelation`
unfoldable pub has_blocked_relation : ℕ → ℕ → Store → Bool
has_blocked_relation owner_id user_id s =
    if owner_id == user_id then false else is_blocked_pair owner_id user_id s

abbrev viewer_blocked : ℕ → Option ℕ → Store → Bool
viewer_blocked owner_id none s = false
viewer_blocked owner_id (some user_id) s = has_blocked_relation owner_id user_id s

-- `attachToThread`: the capability of each subthread, in order.
unfoldable pub attach_to_thread :
    ℕ
    → List PostingPolicy
    → Option ℕ
    → Option PostingMemberSnapshot
    → Store
    → List (PostingPolicy × PostingCapability)
attach_to_thread owner_id policies user_id member s =
    map
      (λ policy.
        (policy, evaluate owner_id user_id policy member (viewer_blocked owner_id user_id s)))
      policies

-- `assertCanPost`
unfoldable pub assert_can_post :
    ℕ → ℕ → PostingPolicy → Option PostingMemberSnapshot → Store → Result (Unit {0})
assert_can_post owner_id user_id policy member s =
    let capability =
      evaluate owner_id (some user_id) policy member (has_blocked_relation owner_id user_id s) in
    if capability.can_post then ok tt else elim capability.denial_reason [
      | none ↦ err (forbidden_error forbidden)
      | some reason ↦ elim reason [
        | blocked_relation ↦ err (forbidden_error forbidden)
        | collaborator_required ↦ err (forbidden_error not_collaborator)
        | player_required ↦ err (forbidden_error not_player)
        | authentication_required ↦ err (forbidden_error forbidden)
      ]
    ]
