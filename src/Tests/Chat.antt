-- ===== src/Tests/Chat.antt =====
-- Direct messages between two users.
use wenyouzhan.Common.{ℕ, ◌≤◌, ◌≡◌, refl, true, none, some, List, [], ◌∷◌, count_where, tables}
use wenyouzhan.Exception.{ok, err, business}
use wenyouzhan.ErrorCode.{rate_limited}
use wenyouzhan.Store.{add_event}
use wenyouzhan.Access.Blocks.{visible_user, is_blocked_pair}
use wenyouzhan.Chat.{Mailbox, Conversation, Message, accepted, Input, then_call, normalize_input}
use wenyouzhan.Chat.Checks.{
  assert_active_user, assert_not_blocked, assert_pair_writable, assert_media_available,
  assert_favorite, assert_send_rate, find_message_for_user, conversation_by_id,
}
use wenyouzhan.Chat.Transactions.{assert_sendable, send_in_accepted, participant, new_message}
use wenyouzhan.Chat.Sending.{send, send_new, send_in, send_accepted}
use wenyouzhan.Chat.Calls.{Request, initiating, sending, handling, recalling, perform_all}
use wenyouzhan.Chat.Requests.{Valid}
use wenyouzhan.Chat.Sizes.{perform_all-Valid}
use wenyouzhan.Chat.Statuses.{Continues}
use wenyouzhan.Chat.Progress.{perform_all-Statuses}
use wenyouzhan.Chat.Silence.{between, perform_all-Silent}
use wenyouzhan.Chat.Histories.{History}
use wenyouzhan.Chat.Rate.{Logged, Metered, perform_all-Metered}
use wenyouzhan.Chat.Retry.{send_retry}
use wenyouzhan.Tests.Sample.{db}

code : Unit {0}
unfolding send send_new send_in send_accepted assert_send_rate send_in_accepted assert_sendable
    assert_pair_writable assert_active_user assert_not_blocked assert_media_available
    assert_favorite find_message_for_user visible_user then_call add_event tables
code = tt

abbrev text : ℕ → Input
text request = record {
  content = some 5;
  media_id = none;
  sticker_asset_id = none;
  client_request_id = request;
}

abbrev empty_box : Mailbox
empty_box = record {
  core = record db { next_id = 60 };
  conversations = [];
  participants = [];
  messages = [];
  media = [];
  stickers = [];
  sends = λ u e. 0;
  requests = λ u d. 0;
  inserted_at = λ id. 3_007;
}

abbrev talk : Conversation
talk = record {
  id = 60;
  first_user_id = 10;
  second_user_id = 11;
  requester_id = 10;
  recipient_id = 11;
  status = accepted;
  last_message_at = none;
}

-- Users 10 and 11 talk.
abbrev talking : Mailbox
talking = record empty_box {
  core = record (empty_box.core) { next_id = 61 };
  conversations = talk ∷ [];
  participants = participant 60 10 ∷ participant 60 11 ∷ [];
}

-- A request, its acceptance, an answer, and a recall.
abbrev calls : List Request
calls =
    initiating 1_000 10 11 (text 1)
    ∷ handling 2_000 60 11 true
    ∷ sending 3_000 60 11 (text 2)
    ∷ recalling 4_000 62 11
    ∷ []

normalize_input-some : normalize_input (some 5) none none 1 ≡ ok (text 1)
unfolding normalize_input
normalize_input-some = refl

talk_found : conversation_by_id 60 talking ≡ some talk
unfolding tables
talk_found = refl

empty_box-Valid : Valid empty_box
unfolding tables
empty_box-Valid = (λ k c found. cc, (tt, tt))

abbrev first_message : Message
first_message = new_message 3_007 61 60 10 11 (text 1)

abbrev sent : Mailbox
unfolding code
sent = (send 20 5 3_000 60 10 (text 1) talking).1

sent_lem : send 20 5 3_000 60 10 (text 1) talking ≡ (ok first_message, sent)
unfolding code sent
sent_lem = refl

send_retry_example : send 20 5 9_000 60 10 (text 1) sent ≡ (ok first_message, sent)
send_retry_example = send_retry 20 5 3_000 9_000 60 10 (text 1) talking first_message sent sent_lem

abbrev talking_blocked : Mailbox
talking_blocked = record talking {
  core = record (talking.core) { blocks = record { blocker_id = 11; blocked_id = 10 } ∷ [] };
}

perform_all-Valid_example : Valid (perform_all 20 5 calls empty_box)
perform_all-Valid_example = perform_all-Valid 20 5 calls empty_box empty_box-Valid

perform_all-Statuses_example :
    (c : Conversation) × (conversation_by_id 60 (perform_all 20 5 calls talking) ≡ some c)
    × Continues talk c
perform_all-Statuses_example = perform_all-Statuses 20 5 calls talking 60 talk talk_found

talking_is_blocked : is_blocked_pair 10 11 talking_blocked.core ≡ true
unfolding tables
talking_is_blocked = refl

perform_all-Silent_example :
    count_where (between 10 11) (perform_all 20 5 calls talking_blocked).messages
    ≤ count_where (between 10 11) talking_blocked.messages
perform_all-Silent_example = perform_all-Silent 20 5 calls talking_blocked 10 11 talking_is_blocked

perform_all-Metered_example :
    (log : List (ℕ × ℕ)) × History 20 5 log empty_box (perform_all 20 5 calls empty_box)
    × Logged 20 5 log empty_box (perform_all 20 5 calls empty_box)
    × Metered 20 5 log empty_box (perform_all 20 5 calls empty_box)
perform_all-Metered_example = perform_all-Metered 20 5 calls empty_box

-- At a rate of 1, the second message of a minute is refused.
second_refused : (send 1 5 4_000 60 10 (text 2) sent).0 ≡ err (business rate_limited 429)
unfolding code
second_refused = refl
