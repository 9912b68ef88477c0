-- ===== src/Chat/Transactions.antt =====
-- The bodies of the transactions that send (src/direct-messages/direct-messages.service.ts). What
-- `reconcileMediaIds` records of a picture's use is left out.
use wenyouzhan.Common.{
  ℕ, ◌+◌, Bool, ◌&&◌, Option, none, some, ◌==◌, if◌then◌else◌, is_none, is_value, insert,
  update_first, update_where,
}
use wenyouzhan.Exception.{Result, ok, err}
use wenyouzhan.Store.{enqueue}
use wenyouzhan.Store.Keys.{direct_message_key}
use wenyouzhan.Store.Rows.{OutboxRow, direct_message_created}
use wenyouzhan.Chat.{
  Mailbox, Conversation, Participant, Message, Status, accepted, same_status, Txn, Input,
  not_allowed,
}
use wenyouzhan.Chat.Checks.{
  is_conversation, conversation_by_id, canonical_pair, assert_media_available, assert_favorite,
  assert_pair_writable,
}

infixl 5 ◌>>=◌ ◌>>◌
abbrev pub ◌>>=◌ : {A B : Type 0} → Txn A → (A → Txn B) → Txn B
◌>>=◌ t f m = elim (t m) [ ok (a, m') ↦ f a m' | err e ↦ err e ]

abbrev pub ◌>>◌ : {A B : Type 0} → Txn A → Txn B → Txn B
t >> u = t >>= λ _. u

abbrev pub pure : {A : Type 0} → A → Txn A
pure a m = ok (a, m)

abbrev pub reads : {A : Type 0} → (Mailbox → Result A) → Txn A
reads f m = elim (f m) [ ok a ↦ ok (a, m) | err e ↦ err e ]

abbrev pub modify : (Mailbox → Mailbox) → Txn (Unit {0})
modify f m = ok (tt, f m)

-- `recordUsage` of the sticker that is sent, if one is.
abbrev pub record_usage : ℕ → ℕ → Option ℕ → Mailbox → Mailbox
record_usage now user asset m = record m {
  stickers =
      update_where (λ x. x.user_id == user && is_value asset x.asset_id)
        (λ x. record x { last_used_at = some now }) m.stickers;
}

-- The three checks at the head of each transaction that sends.
unfoldable pub assert_sendable : ℕ → ℕ → ℕ → Input → Txn (Unit {0})
assert_sendable now sender recipient input = do
  reads (assert_media_available sender input.media_id)
  reads (assert_favorite sender input.sticker_asset_id)
  modify (record_usage now sender input.sticker_asset_id)
  reads (assert_pair_writable sender recipient)

abbrev pub new_message : ℕ → ℕ → ℕ → ℕ → ℕ → Input → Message
new_message created_at id conversation sender recipient input = record {
  id = id;
  conversation_id = conversation;
  sender_id = sender;
  recipient_id = recipient;
  content = input.content;
  media_id = input.media_id;
  sticker_asset_id = input.sticker_asset_id;
  client_request_id = input.client_request_id;
  read_at = none;
  recalled_at = none;
  created_at = created_at;
}

abbrev pub created_event : ℕ → ℕ → ℕ → OutboxRow
created_event id conversation recipient = record {
  event_key = direct_message_key id;
  payload = direct_message_created id conversation recipient;
}

-- `createMessage`
abbrev pub create_message : ℕ → ℕ → ℕ → Input → Txn ℕ
create_message conversation sender recipient input m =
    let id = m.core.next_id in
    ok (
      id,
      record m {
        core =
            enqueue (created_event id conversation recipient)
              (record (m.core) { next_id = id + 1 });
        messages =
            insert (new_message (m.inserted_at id) id conversation sender recipient input)
              m.messages;
      },
    )

abbrev pub touched : ℕ → Conversation → Conversation
touched created_at c = record c { last_message_at = some created_at }

-- `directConversation.update`
abbrev pub change : ℕ → (Conversation → Conversation) → Mailbox → Mailbox
change id f m = record m { conversations = update_first (is_conversation id) f m.conversations }

abbrev pub unarchive : ℕ → Mailbox → Mailbox
unarchive id m = record m {
  participants =
      update_where (λ p. p.conversation_id == id) (λ p. record p { archived_at = none })
        m.participants;
}

abbrev pub participant : ℕ → ℕ → Participant
participant conversation user = record {
  conversation_id = conversation;
  user_id = user;
  archived_at = none;
}

abbrev pub new_conversation : ℕ → ℕ → ℕ → Status → Conversation
new_conversation id sender recipient status = record {
  id = id;
  first_user_id = (canonical_pair sender recipient).0;
  second_user_id = (canonical_pair sender recipient).1;
  requester_id = sender;
  recipient_id = recipient;
  status = status;
  last_message_at = none;
}

abbrev pub create_conversation : ℕ → ℕ → Status → Txn ℕ
create_conversation sender recipient status m =
    let id = m.core.next_id in
    ok (
      id,
      record m {
        core = record (m.core) { next_id = id + 1 };
        conversations = insert (new_conversation id sender recipient status) m.conversations;
        participants =
            insert (participant id recipient) (insert (participant id sender) m.participants);
      },
    )

-- The transaction of `initiate`.
unfoldable pub open_conversation : ℕ → ℕ → ℕ → Status → Input → Txn (ℕ × ℕ)
open_conversation now sender recipient status input = do
  assert_sendable now sender recipient input
  conversation ← create_conversation sender recipient status
  message ← create_message conversation sender recipient input
  modify λ m. change conversation (touched (m.inserted_at message)) m
  pure (conversation, message)

abbrev pub assert_claimable : ℕ → (Conversation → Bool) → Mailbox → Result (Unit {0})
assert_claimable id test m = elim (conversation_by_id id m) [
  | none ↦ err not_allowed
  | some c ↦ if test c then ok tt else err not_allowed
]

-- `updateMany` by the primary key and a condition, and the error where it changed nothing.
unfoldable pub claim : ℕ → (Conversation → Bool) → (Conversation → Conversation) → Txn (Unit {0})
claim id test f = do reads (assert_claimable id test); modify (change id f)

abbrev pub assert_accepted : ℕ → Mailbox → Result (Unit {0})
assert_accepted id m = elim (conversation_by_id id m) [
  | none ↦ err not_allowed
  | some c ↦ if same_status c.status accepted then ok tt else err not_allowed
]

-- The transaction of `sendAccepted`.
unfoldable pub send_in_accepted : ℕ → ℕ → ℕ → ℕ → Input → Txn ℕ
send_in_accepted now conversation sender recipient input = do
  assert_sendable now sender recipient input
  reads (assert_accepted conversation)
  message ← create_message conversation sender recipient input
  modify λ m. unarchive conversation (change conversation (touched (m.inserted_at message)) m)
  pure message

-- What the user was sent in the conversation is marked as read, if that is wanted.
abbrev pub mark_received : Bool → ℕ → ℕ → ℕ → Mailbox → Mailbox
mark_received wanted now conversation user m = record m {
  messages =
      update_where
        (λ x.
          wanted
          && (x.conversation_id == conversation && (x.recipient_id == user && is_none x.read_at)))
        (λ x. record x { read_at = some now }) m.messages;
}

abbrev pub transitioned : ℕ → ℕ → Status → Conversation → Conversation
transitioned sender recipient status c = record c {
  status = status;
  requester_id = sender;
  recipient_id = recipient;
}

-- The transaction of `transitionAndSend`.
unfoldable pub transition_and_send : ℕ → Conversation → ℕ → ℕ → Input → Status → Bool → Txn ℕ
transition_and_send now c sender recipient input next mark_previous_read = do
  assert_sendable now sender recipient input
  claim c.id (λ x. same_status x.status c.status) (transitioned sender recipient next)
  modify (mark_received mark_previous_read now c.id sender)
  message ← create_message c.id sender recipient input
  modify λ m. unarchive c.id (change c.id (touched (m.inserted_at message)) m)
  pure message
