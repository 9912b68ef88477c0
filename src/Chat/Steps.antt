-- ===== src/Chat/Steps.antt =====
-- What every call does to the tables, by what its checks and transactions do.
use wenyouzhan.Common.{ℕ, ◌≡◌, refl, Bool, true, false, Option, none, some, if◌then◌else◌}
use wenyouzhan.Exception.{Result, ok, err, BusinessException}
use wenyouzhan.Chat.{
  ◌>>◌, Mailbox, Conversation, Message, Status, pending, accepted, declined, canceled, Txn, Call,
  fail_if, transaction, committed, ◌>>=◌, then_call, Input,
}
use wenyouzhan.Chat.Checks.{assert_send_rate, assert_request_rate}
use wenyouzhan.Chat.Transactions.{send_in_accepted, transition_and_send, open_conversation}
use wenyouzhan.Chat.Sending.{status_for, send_accepted, reopen, open_first}
use wenyouzhan.Chat.Handling.{accept, decline, archive, mark_up_to, recall_message}

-- The changes of status with which a message is sent.
abbrev pub reopens : Status → Status → Bool
reopens pending accepted = true
reopens declined accepted = true
reopens canceled accepted = true
reopens canceled pending = true
reopens _ _ = false

module _ (R : Mailbox → Mailbox → Type 0) where
  abbrev pub Moves : {A : Type 0} → Call A → Type 0
  Moves c = (m : Mailbox) → R m (c m).1

  abbrev pub Commits : {A : Type 0} → Txn A → Type 0
  Commits {A} t = (m : Mailbox) (a : A) (m' : Mailbox) → t m ≡ ok (a, m') → R m m'

-- A relation that holds of no change, and of two changes in turn.
pub record Closed (R : Mailbox → Mailbox → Type 0) : Type 0 where
  pub same : (m : Mailbox) → R m m
  pub next : (m m' m'' : Mailbox) → R m m' → R m' m'' → R m m''

-- A relation between the tables before and after that each step keeps.
pub record Kept (send_rate request_rate : ℕ) (R : Mailbox → Mailbox → Type 0) : Type 0 where
  pub closed : Closed R
  pub asked : (now user : ℕ) → Moves R (assert_request_rate request_rate now user)
  pub sent :
      (now k s r : ℕ) (input : Input)
      → Moves R (send_accepted send_rate request_rate now k s r input)
  pub reopened :
      (now : ℕ) (c : Conversation) (s r : ℕ) (input : Input) (status : Status) (flag : Bool)
      → reopens c.status status ≡ true
      → Moves R (reopen send_rate request_rate now c s r input status flag)
  pub opened :
      (now s r : ℕ) (input : Input) (known : Bool)
      → Moves R (open_first send_rate request_rate now s r input (status_for known))
  pub accepting : (now : ℕ) (c : Conversation) (actor : ℕ) → Commits R (accept now c actor)
  pub declining : (c : Conversation) (actor : ℕ) → Commits R (decline c actor)
  pub archived : (now k user : ℕ) (flag : Bool) → Commits R (archive now k user flag)
  pub marked : (now k user : ℕ) (anchor : Message) → Commits R (mark_up_to now k user anchor)
  pub recalling : (now : ℕ) (x : Message) (sender : ℕ) → Commits R (recall_message now x sender)

module _ {R : Mailbox → Mailbox → Type 0} (closed : Closed R) where
  open closed use {same, next}

  pub then_moves :
      {A B : Type 0} (c : Call A) (f : A → Call B)
      → Moves R c
      → ((a : A) → Moves R (f a))
      → Moves R (c >>= f)
  unfolding then_call
  then_moves {A} {B} c f first rest m = rest_of (c m) (first m)
    where
      rest_of : (r : Result A × Mailbox) → R m r.1 → R m (then_call r f).1
      rest_of (ok a, m') h = next m m' (f a m').1 h (rest a m')
      rest_of (err e, m') h = h

  pub transaction_moves : {A : Type 0} (t : Txn A) → Commits R t → Moves R (transaction t)
  transaction_moves {A} t h m = by_result (t m) (h m)
    where
      by_result :
          (r : Result (A × Mailbox))
          → ((a : A) (m' : Mailbox) → r ≡ ok (a, m') → R m m')
          → R m (committed r m).1
      by_result (ok (a, m')) g = g a m' refl
      by_result (err e) g = same m

  pub fail_if_moves : (b : Bool) (e : BusinessException) → Moves R (fail_if b e)
  fail_if_moves true e m = same m
  fail_if_moves false e m = same m

  pub guard_moves :
      {B : Type 0} (b : Bool) (e : BusinessException) (f : Unit {0} → Call B)
      → ((u : Unit {0}) → Moves R (f u))
      → Moves R (fail_if b e >>= f)
  guard_moves b e f rest = then_moves (fail_if b e) f (fail_if_moves b e) rest

  pub commit_moves :
      {A B : Type 0} (t : Txn A) (f : A → Call B)
      → Commits R t
      → ((a : A) → Moves R (f a))
      → Moves R (transaction t >>= f)
  commit_moves t f h rest = then_moves (transaction t) f (transaction_moves t h) rest

  pub option_moves :
      {A B : Type 0} (o : Option A) (f : Call B) (g : A → Call B)
      → Moves R f
      → ((a : A) → Moves R (g a))
      → Moves R (elim o [ none ↦ f | some a ↦ g a ])
  option_moves none f g h h' = h
  option_moves (some a) f g h h' = h' a

  pub bool_moves :
      {B : Type 0} (b : Bool) (f g : Call B) → Moves R f → Moves R g → Moves R (if b then f else g)
  bool_moves true f g h h' = h
  bool_moves false f g h h' = h'

-- What to show of a relation where a send counts as its two steps.
pub record Parts (R : Mailbox → Mailbox → Type 0) : Type 0 where
  pub closed : Closed R
  pub asked : (limit now user : ℕ) → Moves R (assert_request_rate limit now user)
  pub counted : (limit now user : ℕ) → Moves R (assert_send_rate limit now user)
  pub sent : (now k s r : ℕ) (input : Input) → Commits R (send_in_accepted now k s r input)
  pub reopened :
      (now : ℕ) (c : Conversation) (s r : ℕ) (input : Input) (status : Status) (flag : Bool)
      → reopens c.status status ≡ true
      → Commits R (transition_and_send now c s r input status flag)
  pub opened :
      (now s r : ℕ) (input : Input) (known : Bool)
      → Commits R (open_conversation now s r (status_for known) input)
  pub accepting : (now : ℕ) (c : Conversation) (actor : ℕ) → Commits R (accept now c actor)
  pub declining : (c : Conversation) (actor : ℕ) → Commits R (decline c actor)
  pub archived : (now k user : ℕ) (flag : Bool) → Commits R (archive now k user flag)
  pub marked : (now k user : ℕ) (anchor : Message) → Commits R (mark_up_to now k user anchor)
  pub recalling : (now : ℕ) (x : Message) (sender : ℕ) → Commits R (recall_message now x sender)

pub kept_of_parts :
    {send_rate request_rate : ℕ} {R : Mailbox → Mailbox → Type 0}
    → Parts R
    → Kept send_rate request_rate R
unfolding send_accepted reopen open_first
kept_of_parts {send_rate} {request_rate} {R} parts = record {
  closed = parts.closed;
  asked = λ now user. parts.asked request_rate now user;
  sent = λ now k s r input.
      metered now s (send_in_accepted now k s r input) (parts.sent now k s r input);
  reopened = λ now c s r input status flag allowed.
      metered now s (transition_and_send now c s r input status flag)
        (parts.reopened now c s r input status flag allowed);
  opened = λ now s r input known.
      metered now s (open_conversation now s r (status_for known) input)
        (parts.opened now s r input known);
  accepting = parts.accepting;
  declining = parts.declining;
  archived = parts.archived;
  marked = parts.marked;
  recalling = parts.recalling;
}
  where
    metered :
        {A : Type 0} (now user : ℕ) (t : Txn A)
        → Commits R t
        → Moves R (assert_send_rate send_rate now user >> transaction t)
    metered now user t h =
        then_moves parts.closed (assert_send_rate send_rate now user) _
          (parts.counted send_rate now user) λ _. transaction_moves parts.closed t h
