-- ===== src/Chat.antt =====
-- Direct messages (src/direct-messages/): the tables, and the two kinds of call. Inside
-- `prisma.$transaction` an exception undoes what was written; outside, what was written stays.
pub mod Checks
pub mod Transactions
pub mod Sending
pub mod Handling
pub mod Steps
pub mod Calls
pub mod Requests
pub mod Effects
pub mod Outcomes
pub mod Keeps
pub mod Sizes
pub mod Statuses
pub mod Progress
pub mod Silence
pub mod Histories
pub mod Rate
pub mod Retry
use wenyouzhan.Common.{
  ℕ, suc, ◌+◌, Bool, true, false, ◌&&◌, ◌||◌, Option, none, some, List, [], ◌∷◌, ◌==◌, ltb, leb,
  if◌then◌else◌, is_value, is_some,
}
use wenyouzhan.ErrorCode.{
  invalid_direct_message, direct_message_blocked, direct_message_not_allowed,
  direct_message_request_pending, direct_message_request_declined, direct_message_media_attached,
  direct_conversation_not_found, direct_message_not_found,
}
use wenyouzhan.Exception.{
  Result, ok, err, BusinessException, business, not_found_error, forbidden_error, bad_request_error,
}
use wenyouzhan.Store.{Store}

pub data Status : Type 0 where
  pending accepted declined canceled : Status

abbrev pub same_status : Status → Status → Bool
same_status pending pending = true
same_status accepted accepted = true
same_status declined declined = true
same_status canceled canceled = true
same_status _ _ = false

pub record Conversation : Type 0 where
  pub id : ℕ
  pub first_user_id : ℕ
  pub second_user_id : ℕ
  pub requester_id : ℕ
  pub recipient_id : ℕ
  pub status : Status
  pub last_message_at : Option ℕ

pub record Participant : Type 0 where
  pub conversation_id : ℕ
  pub user_id : ℕ
  pub archived_at : Option ℕ

pub record Message : Type 0 where
  pub id : ℕ
  pub conversation_id : ℕ
  pub sender_id : ℕ
  pub recipient_id : ℕ
  pub content : Option ℕ
  pub media_id : Option ℕ
  pub sticker_asset_id : Option ℕ
  pub client_request_id : ℕ
  pub read_at : Option ℕ
  pub recalled_at : Option ℕ
  pub created_at : ℕ

-- An uploaded picture: `purpose_allowed` is `mediaPurposeAllowed(purpose, DIRECT_MESSAGE)`.
pub record Media : Type 0 where
  pub id : ℕ
  pub user_id : ℕ
  pub completed : Bool
  pub purpose_allowed : Bool

pub record UserSticker : Type 0 where
  pub user_id : ℕ
  pub asset_id : ℕ
  pub last_used_at : Option ℕ

-- `sends` and `requests` are the counters that Redis keeps for a user and a minute, or a day. A
-- counter outlives its minute or day, since `expire` is set anew at every use. `inserted_at` is the
-- database's clock: what `@default(now())` shows where the row of an id is created. It is any
-- function, apart from the instants that the calls read from `Date.now()`.
pub record Mailbox : Type 0 where
  pub core : Store
  pub conversations : List Conversation
  pub participants : List Participant
  pub messages : List Message
  pub media : List Media
  pub stickers : List UserSticker
  pub sends : ℕ → ℕ → ℕ
  pub requests : ℕ → ℕ → ℕ
  pub inserted_at : ℕ → ℕ

-- Inside a transaction.
abbrev pub Txn : Type 0 → Type 0
Txn A = Mailbox → Result (A × Mailbox)

-- A whole call.
abbrev pub Call : Type 0 → Type 0
Call A = Mailbox → Result A × Mailbox

abbrev pub done : {A : Type 0} → A → Call A
done a m = (ok a, m)

abbrev pub fail : {A : Type 0} → BusinessException → Call A
fail e m = (err e, m)

unfoldable pub then_call : {A B : Type 0} → Result A × Mailbox → (A → Call B) → Result B × Mailbox
then_call (ok a, m) f = f a m
then_call (err e, m) f = (err e, m)

infixl 5 ◌>>=◌ ◌>>◌
abbrev pub ◌>>=◌ : {A B : Type 0} → Call A → (A → Call B) → Call B
◌>>=◌ c f m = then_call (c m) f

abbrev pub ◌>>◌ : {A B : Type 0} → Call A → Call B → Call B
c >> d = c >>= λ _. d

-- `prisma.$transaction`, as one step: that no other transaction commits within it is an assumption,
-- since the service takes no row locks.
abbrev pub committed : {A : Type 0} → Result (A × Mailbox) → Mailbox → Result A × Mailbox
committed (ok (a, m')) m = (ok a, m')
committed (err e) m = (err e, m)

abbrev pub transaction : {A : Type 0} → Txn A → Call A
transaction t m = committed (t m) m

-- Reads and checks of a call.
abbrev pub reading : {A : Type 0} → (Mailbox → A) → Call A
reading f m = (ok (f m), m)

abbrev pub checking : {A : Type 0} → (Mailbox → Result A) → Call A
checking f m = (f m, m)

abbrev pub fail_if : Bool → BusinessException → Call (Unit {0})
fail_if true e m = (err e, m)
fail_if false e m = (ok tt, m)

abbrev pub invalid_message : BusinessException
invalid_message = bad_request_error invalid_direct_message

abbrev pub blocked_error : BusinessException
blocked_error = forbidden_error direct_message_blocked

abbrev pub not_allowed : BusinessException
not_allowed = forbidden_error direct_message_not_allowed

abbrev pub request_pending : BusinessException
request_pending = business direct_message_request_pending 409

abbrev pub request_declined : BusinessException
request_declined = business direct_message_request_declined 409

abbrev pub media_attached : BusinessException
media_attached = business direct_message_media_attached 409

abbrev pub conversation_not_found : BusinessException
conversation_not_found = not_found_error direct_conversation_not_found

abbrev pub message_not_found : BusinessException
message_not_found = not_found_error direct_message_not_found

-- `NormalizedDirectMessageInput`
pub record Input : Type 0 where
  pub content : Option ℕ
  pub media_id : Option ℕ
  pub sticker_asset_id : Option ℕ
  pub client_request_id : ℕ

-- `normalizeDirectMessageInput`, given the text after its line ends and blanks were cleaned, or
-- `none` if that leaves nothing.
unfoldable pub normalize_input : Option ℕ → Option ℕ → Option ℕ → ℕ → Result Input
normalize_input content media sticker request =
    if (if is_some content
      then false
      else if is_some media
      then false
      else if is_some sticker
      then false
      else true)
    then err invalid_message
    else if is_some sticker && (is_some content || is_some media)
    then err invalid_message
    else ok (record {
      content = content;
      media_id = media;
      sticker_asset_id = sticker;
      client_request_id = request;
    })
