-- ===== src/Chat/Sending.antt =====
-- `initiate` and `send` (src/direct-messages/direct-messages.service.ts). No other call commits
-- between the reads and the transaction of a call, so that a unique key that was looked up before
-- is not violated in it; the recovery from such a violation is left out.
use wenyouzhan.Common.{ℕ, Bool, true, false, not, ◌||◌, none, some, ◌==◌, if◌then◌else◌, find_first}
use wenyouzhan.Exception.{ok}
use wenyouzhan.Chat.{
  Conversation, Message, Status, pending, accepted, declined, canceled, Call, done, fail, fail_if,
  reading, checking, transaction, ◌>>=◌, ◌>>◌, invalid_message, not_allowed, request_pending,
  request_declined, conversation_not_found, Input,
}
use wenyouzhan.Chat.Checks.{
  find_duplicate, is_pair, is_participant, other_user, conversation_by_id, assert_active_user,
  assert_not_blocked, are_mutual_followers, assert_send_rate, assert_request_rate, start_response,
  find_message_for_user,
}
use wenyouzhan.Chat.Transactions.{open_conversation, send_in_accepted, transition_and_send}

abbrev pub status_for : Bool → Status
status_for known = if known then accepted else pending

-- The two configured rates.
module _ (send_rate request_rate : ℕ) where
  -- `if (!accepted) await this.assertRequestRate(senderId)`
  unfoldable pub assert_request_rate_unless : Bool → ℕ → ℕ → Call (Unit {0})
  assert_request_rate_unless true now user m = (ok tt, m)
  assert_request_rate_unless false now user m = assert_request_rate request_rate now user m

  -- `sendAccepted`
  unfoldable pub send_accepted : ℕ → ℕ → ℕ → ℕ → Input → Call ℕ
  send_accepted now conversation sender recipient input = do
    assert_send_rate send_rate now sender
    transaction (send_in_accepted now conversation sender recipient input)

  -- `transitionAndSend`
  unfoldable pub reopen : ℕ → Conversation → ℕ → ℕ → Input → Status → Bool → Call ℕ
  reopen now c sender recipient input next mark_previous_read = do
    assert_send_rate send_rate now sender
    transaction (transition_and_send now c sender recipient input next mark_previous_read)

  -- The canceled conversation of `initiateExisting`.
  unfoldable pub renew : ℕ → Conversation → ℕ → ℕ → Input → Call ℕ
  renew now c sender recipient input = do
    friends ← reading (are_mutual_followers sender recipient)
    assert_request_rate_unless (c.recipient_id == sender || friends) now sender
    reopen now c sender recipient input (status_for (c.recipient_id == sender || friends)) false

  -- `initiateExisting` by the conversation's status; the message's id.
  unfoldable pub initiate_existing : ℕ → Conversation → ℕ → ℕ → Input → Status → Call ℕ
  initiate_existing now c sender recipient input accepted =
      send_accepted now c.id sender recipient input
  initiate_existing now c sender recipient input pending =
      if c.requester_id == sender
      then fail request_pending
      else reopen now c sender recipient input accepted true
  initiate_existing now c sender recipient input declined =
      if c.requester_id == sender
      then fail request_declined
      else reopen now c sender recipient input accepted false
  initiate_existing now c sender recipient input canceled = renew now c sender recipient input

  -- The new conversation of `initiate`.
  unfoldable pub open_first : ℕ → ℕ → ℕ → Input → Status → Call (ℕ × ℕ)
  open_first now sender recipient input status = do
    assert_send_rate send_rate now sender
    transaction (open_conversation now sender recipient status input)

  -- `initiate` between two users that have no conversation.
  unfoldable pub initiate_first : ℕ → ℕ → ℕ → Input → Call (ℕ × ℕ)
  initiate_first now sender recipient input = do
    friends ← reading (are_mutual_followers sender recipient)
    assert_request_rate_unless friends now sender
    open_first now sender recipient input (status_for friends)

  -- A request that is not a duplicate; the ids of the conversation and the message.
  unfoldable pub initiate_new : ℕ → ℕ → ℕ → Input → Call (ℕ × ℕ)
  initiate_new now sender recipient input = do
    fail_if (sender == recipient) invalid_message
    checking (assert_active_user recipient)
    checking (assert_not_blocked sender recipient)
    existing ← reading (λ m. find_first (is_pair sender recipient) m.conversations)
    elim existing [
      | none ↦ initiate_first now sender recipient input
      | some c ↦ do
        message ← initiate_existing now c sender recipient input c.status
        done (c.id, message)
    ]

  -- `initiate`, with the input that `normalizeDirectMessageInput` gave.
  unfoldable pub initiate : ℕ → ℕ → ℕ → Input → Call (Conversation × Message)
  initiate now sender recipient input = do
    duplicate ← reading (find_duplicate sender input.client_request_id)
    elim duplicate [
      | some x ↦ do
        fail_if (not (x.recipient_id == recipient)) invalid_message
        checking (start_response x.conversation_id x.id sender)
      | none ↦ do
        ids ← initiate_new now sender recipient input
        checking (start_response ids.0 ids.1 sender)
    ]

  -- A send by a participant, by the conversation's status.
  unfoldable pub send_in : ℕ → Conversation → ℕ → Input → Status → Call ℕ
  send_in now c sender input pending = fail request_pending
  send_in now c sender input declined = fail request_declined
  send_in now c sender input canceled = fail not_allowed
  send_in now c sender input accepted = send_accepted now c.id sender (other_user c sender) input

  -- A send that is not a duplicate.
  unfoldable pub send_new : ℕ → ℕ → ℕ → Input → Call ℕ
  send_new now conversation sender input = do
    found ← reading (conversation_by_id conversation)
    elim found [
      | none ↦ fail conversation_not_found
      | some c ↦
          if is_participant c sender
          then send_in now c sender input c.status
          else fail conversation_not_found
    ]

  -- `send`
  unfoldable pub send : ℕ → ℕ → ℕ → Input → Call Message
  send now conversation sender input = do
    duplicate ← reading (find_duplicate sender input.client_request_id)
    elim duplicate [
      | some x ↦ do
        fail_if (not (x.conversation_id == conversation)) invalid_message
        checking (find_message_for_user x.id sender)
      | none ↦ do
        message ← send_new now conversation sender input
        checking (find_message_for_user message sender)
    ]
