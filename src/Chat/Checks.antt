-- ===== src/Chat/Checks.antt =====
-- The checks and reads of direct messages (src/direct-messages/direct-messages.service.ts,
-- direct-message-query.service.ts, and `assertFavorite` of src/stickers/stickers.service.ts).
use wenyouzhan.Common.{
  ℕ, ◌+◌, ◌/◌, Bool, not, ◌&&◌, ◌||◌, Option, none, some, ◌==◌, ltb, if◌then◌else◌, is_value,
  is_none, has_row, find_first, find_unique, count_where,
}
use wenyouzhan.ErrorCode.{user_not_found, rate_limited, sticker_not_found}
use wenyouzhan.Exception.{Result, ok, err, business, not_found_error}
use wenyouzhan.Access.Blocks.{is_blocked_pair, visible_user}
use wenyouzhan.Chat.{
  Mailbox, Conversation, Participant, Message, UserSticker, Call, blocked_error, media_attached,
  invalid_message, conversation_not_found, message_not_found,
}

abbrev pub is_conversation : ℕ → Conversation → Bool
is_conversation id c = c.id == id

abbrev pub conversation_by_id : ℕ → Mailbox → Option Conversation
conversation_by_id id m = find_first (is_conversation id) m.conversations

-- `canonicalDirectUserPair`
abbrev pub canonical_pair : ℕ → ℕ → ℕ × ℕ
canonical_pair a b = if ltb a b then (a, b) else (b, a)

abbrev pub is_pair : ℕ → ℕ → Conversation → Bool
is_pair a b c =
    c.first_user_id == (canonical_pair a b).0 && c.second_user_id == (canonical_pair a b).1

abbrev pub is_participant : Conversation → ℕ → Bool
is_participant c user = c.first_user_id == user || c.second_user_id == user

abbrev pub other_user : Conversation → ℕ → ℕ
other_user c user = if c.first_user_id == user then c.second_user_id else c.first_user_id

abbrev pub is_request : ℕ → ℕ → Message → Bool
is_request sender request x = x.sender_id == sender && x.client_request_id == request

-- `findDuplicate`
abbrev pub find_duplicate : ℕ → ℕ → Mailbox → Option Message
find_duplicate sender request m = find_first (is_request sender request) m.messages

-- `assertActiveUser`
unfoldable pub assert_active_user : ℕ → Mailbox → Result (Unit {0})
assert_active_user id m =
    elim (find_unique (λ u. u.id == id) (λ u. is_none u.deleted_at) m.core.users) [
      | none ↦ err (not_found_error user_not_found)
      | some _ ↦ ok tt
    ]

-- `assertNotBlocked`
unfoldable pub assert_not_blocked : ℕ → ℕ → Mailbox → Result (Unit {0})
assert_not_blocked a b m = if is_blocked_pair a b m.core then err blocked_error else ok tt

-- `assertPairWritable`
unfoldable pub assert_pair_writable : ℕ → ℕ → Mailbox → Result (Unit {0})
unfolding assert_active_user assert_not_blocked
assert_pair_writable a b m = elim (assert_active_user b m) [
  | err e ↦ err e
  | ok _ ↦ assert_not_blocked a b m
]

-- `areMutualFollowers`
unfoldable pub are_mutual_followers : ℕ → ℕ → Mailbox → Bool
are_mutual_followers a b m =
    count_where
      (λ r. r.follower_id == a && r.following_id == b || r.follower_id == b && r.following_id == a)
      m.core.follows
    == 2

-- `assertMediaAvailable`; `directMessage` is the message that has the picture.
unfoldable pub assert_media_available : ℕ → Option ℕ → Mailbox → Result (Unit {0})
assert_media_available sender none m = ok tt
assert_media_available sender (some media) m = elim (find_first (λ x. x.id == media) m.media) [
  | none ↦ err invalid_message
  | some x ↦
      if not (x.user_id == sender) || not x.completed
      then err invalid_message
      else if not x.purpose_allowed
      then err invalid_message
      else if has_row (λ y. is_value y.media_id media) m.messages
      then err media_attached
      else ok tt
]

abbrev pub is_favorite : ℕ → ℕ → UserSticker → Bool
is_favorite user asset x = x.user_id == user && x.asset_id == asset

-- `assertFavorite`
unfoldable pub assert_favorite : ℕ → Option ℕ → Mailbox → Result (Unit {0})
assert_favorite user none m = ok tt
assert_favorite user (some asset) m =
    if has_row (is_favorite user asset) m.stickers
    then ok tt
    else err (not_found_error sticker_not_found)

abbrev pub bump : ℕ → ℕ → (ℕ → ℕ → ℕ) → ℕ → ℕ → ℕ
bump user epoch counts u e = counts u e + (if u == user && e == epoch then 1 else 0)

abbrev pub minute : ℕ → ℕ
minute now = now / 60_000

abbrev pub day_of : ℕ → ℕ
day_of now = now / 86_400_000

-- `assertSendRate`: the counter goes up whether or not the call is let through.
unfoldable pub assert_send_rate : ℕ → ℕ → ℕ → Call (Unit {0})
assert_send_rate limit now user m = (
  (if ltb limit (m.sends user (minute now) + 1) then err (business rate_limited 429) else ok tt),
  record m { sends = bump user (minute now) m.sends },
)

-- `assertRequestRate`
unfoldable pub assert_request_rate : ℕ → ℕ → ℕ → Call (Unit {0})
assert_request_rate limit now user m = (
  (if ltb limit (m.requests user (day_of now) + 1) then err (business rate_limited 429) else ok tt),
  record m { requests = bump user (day_of now) m.requests },
)

abbrev pub takes_part : ℕ → ℕ → Participant → Bool
takes_part conversation user p = p.conversation_id == conversation && p.user_id == user

-- `visibleConversationWhere(userId)` and a participation of the user.
abbrev pub sees_conversation : ℕ → Mailbox → Conversation → Bool
sees_conversation user m c =
    visible_user (some user) c.first_user_id m.core
    && (visible_user (some user) c.second_user_id m.core
        && has_row (takes_part c.id user) m.participants)

-- `findById` of the queries: whether the user may see the conversation.
unfoldable pub find_by_id : ℕ → ℕ → Mailbox → Result Conversation
find_by_id id user m =
    elim (find_unique (is_conversation id) (sees_conversation user m) m.conversations) [
      | none ↦ err conversation_not_found
      | some c ↦ ok c
    ]

abbrev pub is_message : ℕ → Message → Bool
is_message id x = x.id == id

abbrev pub conversation_of : Message → Mailbox → Option Conversation
conversation_of x m = conversation_by_id x.conversation_id m

-- `findMessageForUser`
unfoldable pub find_message_for_user : ℕ → ℕ → Mailbox → Result Message
find_message_for_user id user m = elim (find_first (is_message id) m.messages) [
  | none ↦ err message_not_found
  | some x ↦ elim (conversation_of x m) [
    | none ↦ err message_not_found
    | some c ↦ if sees_conversation user m c then ok x else err message_not_found
  ]
]

-- `assertParticipant`
unfoldable pub assert_participant : ℕ → ℕ → Mailbox → Result (Unit {0})
unfolding find_by_id
assert_participant id user m = elim (find_by_id id user m) [ err e ↦ err e | ok _ ↦ ok tt ]

-- `startResponse`
unfoldable pub start_response : ℕ → ℕ → ℕ → Mailbox → Result (Conversation × Message)
unfolding find_by_id find_message_for_user
start_response conversation message user m = elim (find_by_id conversation user m) [
  | err e ↦ err e
  | ok c ↦ elim (find_message_for_user message user m) [ err e ↦ err e | ok x ↦ ok (c, x) ]
]
