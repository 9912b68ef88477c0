-- ===== src/Chat/Effects.antt =====
-- What the transactions of direct messages leave behind where they commit.
use wenyouzhan.Common.{ℕ, ◌≡◌, refl, Bool, true, some, arith}
use wenyouzhan.Exception.{Result, ok, err}
use wenyouzhan.Chat.{Mailbox, Conversation, Status, same_status, Input, Txn}
use wenyouzhan.Chat.Checks.{
  assert_pair_writable, assert_active_user, assert_not_blocked, conversation_by_id,
}
use wenyouzhan.Chat.Transactions.{
  assert_sendable, record_usage, create_message, create_conversation, change, touched, unarchive,
  claim, mark_received, transitioned, send_in_accepted, transition_and_send, open_conversation,
  assert_accepted, ◌>>=◌, reads, pure, assert_claimable,
}

-- The checks before a send only record that a sticker was used.
pub assert_sendable_ok :
    (now s r : ℕ) (input : Input) (m : Mailbox) (m' : Mailbox) (u : Unit {0})
    → assert_sendable now s r input m ≡ ok (u, m')
    → (m' ≡ record_usage now s input.sticker_asset_id m) × (assert_pair_writable s r m ≡ ok tt)
unfolding assert_sendable assert_pair_writable assert_active_user assert_not_blocked
assert_sendable_ok now s r input m m' u h = ground arith

-- The tables after a message was sent in an existing conversation.
abbrev pub posted : ℕ → ℕ → ℕ → Input → Mailbox → Mailbox
posted k s r input m = elim (create_message k s r input m) [
  | ok (id, m') ↦ unarchive k (change k (touched (m'.inserted_at id)) m')
  | err _ ↦ m
]

-- A chain commits where its first step does, and the rest after it.
then_ok :
    {A B : Type 0} (t : Txn A) (f : A → Txn B) (m : Mailbox) (b : B) (m' : Mailbox)
    → (t >>= f) m ≡ ok (b, m')
    → (a : A) × (m1 : Mailbox) × (t m ≡ ok (a, m1)) × (f a m1 ≡ ok (b, m'))
then_ok {A} {B} t f m b m' h = by_result (t m) h
  where
    by_result :
        (r : Result (A × Mailbox))
        → elim r [ ok (a, m1) ↦ f a m1 | err e ↦ err e ] ≡ ok (b, m')
        → (a : A) × (m1 : Mailbox) × (r ≡ ok (a, m1)) × (f a m1 ≡ ok (b, m'))
    by_result (ok (a, m1)) e = (a, m1, refl, e)
    by_result (err e) h = cc

-- A check that passes changes nothing.
pub after_read :
    {A B : Type 0} (g : Mailbox → Result A) (f : A → Txn B) (m : Mailbox) (b : B) (m' : Mailbox)
    → (reads g >>= f) m ≡ ok (b, m')
    → (a : A) × (g m ≡ ok a) × (f a m ≡ ok (b, m'))
after_read {A} {B} g f m b m' h = by_result (g m) h
  where
    by_result :
        (r : Result A)
        → (reads (λ _. r) >>= f) m ≡ ok (b, m')
        → (a : A) × (r ≡ ok a) × (f a m ≡ ok (b, m'))
    by_result (ok a) e = (a, refl, e)
    by_result (err e) h = cc

-- Two runs that commit the same leave the same tables.
pub left_by : {A : Type 0} {a b : A} {m m' : Mailbox} → pure a m ≡ pure b m' → m' ≡ m
left_by h = cc

-- What follows the checks of a send follows them on the tables that they leave.
after_checks :
    {B : Type 0} (now s r : ℕ) (input : Input) (f : Txn B) (m : Mailbox) (b : B) (m' : Mailbox)
    → (assert_sendable now s r input >>= λ _. f) m ≡ ok (b, m')
    → (assert_pair_writable s r m ≡ ok tt)
      × (f (record_usage now s input.sticker_asset_id m) ≡ ok (b, m'))
after_checks now s r input f m b m' h =
    let (u, m1, e1, e2) = then_ok (assert_sendable now s r input) (λ _. f) m b m' h in
    let (same, writable) = assert_sendable_ok now s r input m m1 u e1 in (writable, rw (← same) e2)

-- After a first message.
abbrev pub opened : ℕ → ℕ → Status → Input → Mailbox → Mailbox
opened s r status input m = elim (create_conversation s r status m) [
  | ok (k, m1) ↦ elim (create_message k s r input m1) [
    | ok (id, m2) ↦ change k (touched (m2.inserted_at id)) m2
    | err _ ↦ m
  ]
  | err _ ↦ m
]

-- After a message that took a conversation to another status.
abbrev pub reopened : ℕ → ℕ → ℕ → ℕ → Input → Status → Bool → Mailbox → Mailbox
reopened now k s r input next flag m =
    posted k s r input (mark_received flag now k s (change k (transitioned s r next) m))

claimable_ok :
    (k : ℕ) (test : Conversation → Bool) (m : Mailbox)
    → assert_claimable k test m ≡ ok tt
    → (x : Conversation) × (conversation_by_id k m ≡ some x) × (test x ≡ true)
claimable_ok k test m h = ground arith

-- An update by key and condition commits where its row is there and meets the condition.
pub after_claim :
    {B : Type 0} (k : ℕ) (test : Conversation → Bool) (g : Conversation → Conversation) (f : Txn B)
    (m : Mailbox) (b : B) (m' : Mailbox)
    → (claim k test g >>= λ _. f) m ≡ ok (b, m')
    → (x : Conversation) × (conversation_by_id k m ≡ some x)
      × (test x ≡ true)
      × (f (change k g m) ≡ ok (b, m'))
unfolding claim
after_claim k test g f m b m' h =
    let (u, m1, e1, e2) = then_ok (claim k test g) (λ _. f) m b m' h in
    let (_, claimable, end) = after_read (assert_claimable k test) _ m u m1 e1 in
    let (x, there, meets) = claimable_ok k test m claimable in
    (x, there, meets, rw (← left_by end) e2)

pub same_status_eq : (a b : Status) → same_status a b ≡ true → a ≡ b
same_status_eq a b h = ground arith

pub send_in_accepted_ok :
    (now k s r : ℕ) (input : Input) (m : Mailbox) (id : ℕ) (m' : Mailbox)
    → send_in_accepted now k s r input m ≡ ok (id, m')
    → (m' ≡ posted k s r input (record_usage now s input.sticker_asset_id m))
      × (assert_pair_writable s r m ≡ ok tt)
      × (assert_accepted k m ≡ ok tt)
unfolding send_in_accepted
send_in_accepted_ok now k s r input m id m' h =
    let (writable, rest) = after_checks now s r input _ m id m' h in
    let (_, allowed, end) = after_read (assert_accepted k) _ _ id m' rest in
    (left_by end, writable, allowed)

pub send_in_accepted_id :
    (now k s r : ℕ) (input : Input) (m : Mailbox) (id : ℕ) (m' : Mailbox)
    → send_in_accepted now k s r input m ≡ ok (id, m')
    → id ≡ m.core.next_id
unfolding send_in_accepted
send_in_accepted_id now k s r input m id m' h =
    let (_, rest) = after_checks now s r input _ m id m' h in
    let (_, _, end) = after_read (assert_accepted k) _ _ id m' rest in cc

pub open_conversation_ok :
    (now s r : ℕ) (status : Status) (input : Input) (m : Mailbox) (ids : ℕ × ℕ) (m' : Mailbox)
    → open_conversation now s r status input m ≡ ok (ids, m')
    → (m' ≡ opened s r status input (record_usage now s input.sticker_asset_id m))
      × (assert_pair_writable s r m ≡ ok tt)
unfolding open_conversation
open_conversation_ok now s r status input m ids m' h =
    let (writable, rest) = after_checks now s r input _ m ids m' h in (left_by rest, writable)

pub transition_and_send_ok :
    (now : ℕ) (c : Conversation) (s r : ℕ) (input : Input) (next : Status) (flag : Bool)
    (m : Mailbox) (id : ℕ) (m' : Mailbox)
    → transition_and_send now c s r input next flag m ≡ ok (id, m')
    → (m' ≡ reopened now c.id s r input next flag (record_usage now s input.sticker_asset_id m))
      × (assert_pair_writable s r m ≡ ok tt)
      × ((x : Conversation) × (conversation_by_id c.id m ≡ some x) × (x.status ≡ c.status))
unfolding transition_and_send
transition_and_send_ok now c s r input next flag m id m' h =
    let (writable, rest) = after_checks now s r input _ m id m' h in
    let (x, there, same, end) =
      after_claim c.id (λ x. same_status x.status c.status) (transitioned s r next) _ _ id m'
        rest in
    (left_by end, writable, (x, there, same_status_eq x.status c.status same))
