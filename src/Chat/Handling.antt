-- ===== src/Chat/Handling.antt =====
-- `handleRequest`, `setArchived`, `markRead` and `recall`
-- (src/direct-messages/direct-messages.service.ts). What `reconcileMediaIds` records of a
-- picture's use is left out.
use wenyouzhan.Common.{
  ℕ, ◌-◌, Bool, true, false, not, ◌&&◌, ◌||◌, Option, none, some, ◌==◌, ltb, leb, if◌then◌else◌,
  is_none, is_some, find_first, find_unique, has_row, remove_where, update_where, update_first,
}
use wenyouzhan.ErrorCode.{direct_message_recall_expired}
use wenyouzhan.Exception.{BusinessException, ok, err, business}
use wenyouzhan.Chat.{
  Mailbox, Conversation, Message, Status, pending, accepted, declined, canceled, same_status, Txn,
  Call, done, fail, fail_if, reading, checking, transaction, ◌>>=◌, ◌>>◌, not_allowed,
  conversation_not_found, message_not_found,
}
use wenyouzhan.Chat.Checks.{
  conversation_by_id, is_conversation, is_participant, is_message, takes_part, assert_pair_writable,
  find_by_id, assert_participant,
}
use wenyouzhan.Chat.Transactions
use wenyouzhan.Chat.Transactions.{reads, modify, claim, change, mark_received}

abbrev pub set_status : Status → Conversation → Conversation
set_status status c = record c { status = status }

abbrev pub close : Status → Conversation → Conversation
close status c = record c { status = status; last_message_at = none }

abbrev pub is_pending_to : ℕ → Conversation → Bool
is_pending_to user c = same_status c.status pending && c.recipient_id == user

abbrev pub is_pending_from : ℕ → Conversation → Bool
is_pending_from user c = same_status c.status pending && c.requester_id == user

abbrev pub in_conversation : ℕ → Message → Bool
in_conversation id x = x.conversation_id == id

abbrev pub delete_messages : ℕ → Mailbox → Mailbox
delete_messages id m = record m { messages = remove_where (in_conversation id) m.messages }

-- The transaction that accepts.
unfoldable pub accept : ℕ → Conversation → ℕ → Txn (Unit {0})
accept now c actor m =
    Transactions.◌>>◌ (reads (assert_pair_writable actor c.requester_id))
      (Transactions.◌>>◌ (claim c.id (is_pending_to actor) (set_status accepted))
        (modify (mark_received true now c.id actor)))
      m

-- The transaction that declines.
unfoldable pub decline : Conversation → ℕ → Txn (Unit {0})
decline c actor m =
    Transactions.◌>>◌ (claim c.id (is_pending_to actor) (close declined))
      (modify (delete_messages c.id)) m

-- `handleRequest`; the flag is `action === 'ACCEPT'`.
unfoldable pub handle_request : ℕ → ℕ → ℕ → Bool → Call Conversation
handle_request now conversation actor accepts = do
  found ← reading (conversation_by_id conversation)
  elim found [
    | none ↦ fail conversation_not_found
    | some c ↦ do
      fail_if (not (is_participant c actor)) conversation_not_found
      fail_if (not (is_pending_to actor c)) not_allowed
      transaction (if accepts then accept now c actor else decline c actor)
      checking (find_by_id conversation actor)
  ]

-- The update of `setArchived`.
unfoldable pub archive : ℕ → ℕ → ℕ → Bool → Txn (Unit {0})
archive now conversation user archived = modify λ m. record m {
  participants =
      update_first (takes_part conversation user)
        (λ p. record p { archived_at = if archived then some now else none }) m.participants;
}

-- `setArchived`
unfoldable pub set_archived : ℕ → ℕ → ℕ → Bool → Call Conversation
set_archived now conversation user archived = do
  found ← reading (λ m.
      find_unique (is_conversation conversation)
        (λ c. has_row (takes_part c.id user) m.participants) m.conversations)
  elim found [
    | none ↦ fail conversation_not_found
    | some c ↦ do
      fail_if (not (same_status c.status accepted || is_pending_from user c)) not_allowed
      transaction (archive now conversation user archived)
      checking (find_by_id conversation user)
  ]

-- Up to a message in the order of `createdAt` and `id`.
abbrev pub up_to : Message → Message → Bool
up_to anchor x =
    ltb x.created_at anchor.created_at || x.created_at == anchor.created_at && leb x.id anchor.id

-- The update of `markRead`.
unfoldable pub mark_up_to : ℕ → ℕ → ℕ → Message → Txn (Unit {0})
mark_up_to now conversation user anchor = modify λ m. record m {
  messages =
      update_where
        (λ x.
          x.conversation_id == conversation
          && (x.recipient_id == user && (is_none x.read_at && up_to anchor x)))
        (λ x. record x { read_at = some now }) m.messages;
}

-- `markRead`
unfoldable pub mark_read : ℕ → ℕ → ℕ → ℕ → Call (Unit {0})
mark_read now conversation user through = do
  checking (assert_participant conversation user)
  found ← reading (λ m. find_first (is_message through) m.messages)
  elim found [
    | none ↦ fail message_not_found
    | some anchor ↦ do
      fail_if (not (anchor.conversation_id == conversation)) message_not_found
      transaction (mark_up_to now conversation user anchor)
  ]

abbrev pub recall_window : ℕ
recall_window = 600_000

abbrev pub recalled : ℕ → Message → Message
recalled now x = record x {
  content = none;
  media_id = none;
  sticker_asset_id = none;
  recalled_at = some now;
}

-- The message row that a recall may change.
abbrev pub is_recallable : ℕ → ℕ → Message → Bool
is_recallable id sender x = x.id == id && (x.sender_id == sender && is_none x.recalled_at)

abbrev pub recall_row : ℕ → ℕ → ℕ → Txn (Unit {0})
recall_row now id sender m =
    if has_row (is_recallable id sender) m.messages
    then ok (
      tt,
      record m { messages = update_where (is_recallable id sender) (recalled now) m.messages },
    )
    else err not_allowed

-- The transaction of `recall`: whether it cancels the request.
unfoldable pub recall_message : ℕ → Message → ℕ → Txn Bool
recall_message now x sender m = elim (conversation_by_id x.conversation_id m) [
  | none ↦ err conversation_not_found
  | some c ↦
      if is_pending_from sender c
      then Transactions.◌>>◌ (claim c.id (is_pending_from sender) (close canceled))
          (Transactions.◌>>◌ (modify (delete_messages c.id)) (Transactions.pure true)) m
      else if not (same_status c.status accepted)
      then err not_allowed
      else Transactions.◌>>◌ (recall_row now x.id sender) (Transactions.pure false) m
]

-- Too late: `Date.now() - createdAt > RECALL_WINDOW_MS`.
abbrev pub is_late : ℕ → Message → Bool
is_late now x = ltb recall_window (now - x.created_at)

abbrev pub recall_expired : BusinessException
recall_expired = business direct_message_recall_expired 409

-- `!conversation || !this.isParticipant(conversation, senderId)`
abbrev pub is_outside : ℕ → Option Conversation → Bool
is_outside user none = true
is_outside user (some c) = not (is_participant c user)

-- `recall`: whether the conversation was canceled.
unfoldable pub recall : ℕ → ℕ → ℕ → Call Bool
recall now id sender = do
  found ← reading (λ m. find_first (is_message id) m.messages)
  elim found [
    | none ↦ fail message_not_found
    | some x ↦ do
      conversation ← reading (conversation_by_id x.conversation_id)
      fail_if (is_outside sender conversation) message_not_found
      fail_if (not (x.sender_id == sender)) not_allowed
      if is_some x.recalled_at
          then done false
          else do fail_if (is_late now x) recall_expired; transaction (recall_message now x sender)
  ]
