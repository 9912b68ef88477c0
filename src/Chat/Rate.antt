-- ===== src/Chat/Rate.antt =====
-- How many direct messages a user can send in a minute.
use wenyouzhan.Common.{
  List, insert, count_where-insert, count_where-update_where, count_where-update_where_le,
  count_where-remove_where_le, sym, inl, inr, ℕ, ◌+◌, ◌-◌, ◌≤◌, ◌≡◌, refl, ap, Bool, ◌&&◌, ◌==◌,
  arith, count_where, tables, if◌then◌else◌,
}
use wenyouzhan.Exception.{ok}
use wenyouzhan.Chat.{Message, Input, Mailbox}
use wenyouzhan.Chat.Checks.{assert_send_rate, assert_request_rate, bump, minute}
use wenyouzhan.Chat.Handling.{archive, mark_up_to, in_conversation}
use wenyouzhan.Chat.Effects.{
  send_in_accepted_ok, open_conversation_ok, transition_and_send_ok, left_by,
}
use wenyouzhan.Chat.Transactions.{new_message, mark_received}
use wenyouzhan.Chat.Outcomes.{accept_ok, decline_ok, recall_message_ok}
use wenyouzhan.Chat.Calls.{Request, perform_all}
use wenyouzhan.Chat.Histories.{
  Sends, in_accepted, in_reopened, in_opened, Other, counts_request, counts_send, accepts, declines,
  archives, marks, recalls, History, started, other, sent, perform_all-History,
}

Sends-sends : {now s : ℕ} {m m' : Mailbox} → Sends now s m m' → m'.sends ≡ m.sends
Sends-sends {now} {s} (in_accepted k r input m id m' h) =
    let (left, _, _) = send_in_accepted_ok now k s r input m id m' h in rw left refl
Sends-sends {now} {s} (in_reopened c r input status flag m id m' h) =
    let (left, _, _) = transition_and_send_ok now c s r input status flag m id m' h in rw left refl
Sends-sends {now} {s} (in_opened r status input m ids m' h) =
    let (left, _) = open_conversation_ok now s r status input m ids m' h in rw left refl

abbrev pub is_from : ℕ → Message → Bool
is_from user x = user == x.sender_id

abbrev pub logged_from : ℕ → ℕ × ℕ → Bool
logged_from user (s, e) = user == s

insert-from :
    (user at id k s r : ℕ) (input : Input) (ys xs : List Message)
    → count_where (is_from user) ys ≡ count_where (is_from user) xs
    → count_where (is_from user) (insert (new_message at id k s r input) ys)
      ≡ count_where (is_from user) xs + (if user == s then 1 else 0)
insert-from user at id k s r input ys xs same =
    ground (arith, count_where-insert (is_from user) ys (new_message at id k s r input), same)

-- A send adds one message, its sender's.
Sends-from :
    {now s : ℕ} {m m' : Mailbox} (user : ℕ)
    → Sends now s m m'
    → count_where (is_from user) m'.messages
      ≡ count_where (is_from user) m.messages + (if user == s then 1 else 0)
Sends-from {now} {s} user (in_accepted k r input m id m' h) =
    let (left, _, _) = send_in_accepted_ok now k s r input m id m' h in
    rw left (insert-from user _ m.core.next_id k s r input m.messages m.messages refl)
Sends-from {now} {s} user (in_reopened c r input status flag m id m' h) =
    let (left, _, _) = transition_and_send_ok now c s r input status flag m id m' h in
    rw left (
      insert-from user _ m.core.next_id c.id s r input (mark_received flag now c.id s m).messages
        m.messages (count_where-update_where _ (is_from user) _ m.messages λ x. refl))
Sends-from {now} {s} user (in_opened r status input m ids m' h) =
    let (left, _) = open_conversation_ok now s r status input m ids m' h in
    rw left
      (insert-from user _ (m.core.next_id + 1) m.core.next_id s r input m.messages m.messages refl)

abbrev pub is_by : ℕ → ℕ → ℕ × ℕ → Bool
is_by user epoch (s, e) = user == s && epoch == e

module _ (send_rate request_rate : ℕ) where
  Other-sends_le :
      {m m' : Mailbox} (user epoch : ℕ)
      → Other send_rate request_rate m m'
      → m.sends user epoch ≤ m'.sends user epoch
  unfolding assert_send_rate assert_request_rate archive mark_up_to
  Other-sends_le user epoch (counts_request now u m) = omega arith
  Other-sends_le user epoch (counts_send now u m) = omega arith
  Other-sends_le user epoch (accepts now c actor m u m' h) =
      let (left, _) = accept_ok now c actor m u m' h in rw left (omega arith)
  Other-sends_le user epoch (declines c actor m u m' h) =
      let (left, _) = decline_ok c actor m u m' h in rw left (omega arith)
  Other-sends_le user epoch (archives now k u flag m v m' h) = rw (left_by h) (omega arith)
  Other-sends_le user epoch (marks now k u anchor m v m' h) = rw (left_by h) (omega arith)
  Other-sends_le user epoch (recalls now x s m w m' h) = elim (recall_message_ok now x s m w m' h) [
    | inl left ↦ rw left (omega arith)
    | inr (c, left, _) ↦ rw left (omega arith)
  ]

  -- The other steps add none.
  Other-from_le :
      {m m' : Mailbox} (user : ℕ)
      → Other send_rate request_rate m m'
      → count_where (is_from user) m'.messages ≤ count_where (is_from user) m.messages
  unfolding assert_send_rate assert_request_rate archive mark_up_to
  Other-from_le user (counts_request now u m) = omega arith
  Other-from_le user (counts_send now u m) = omega arith
  Other-from_le user (accepts now c actor m u m' h) =
      let (left, _) = accept_ok now c actor m u m' h in
      rw left (count_where-update_where_le _ (is_from user) _ m.messages λ x. refl)
  Other-from_le user (declines c actor m u m' h) =
      let (left, _) = decline_ok c actor m u m' h in
      rw left (count_where-remove_where_le (in_conversation c.id) (is_from user) m.messages)
  Other-from_le user (archives now k u flag m v m' h) = rw (left_by h) (omega arith)
  Other-from_le user (marks now k u anchor m v m' h) =
      rw (left_by h) (count_where-update_where_le _ (is_from user) _ m.messages λ x. refl)
  Other-from_le user (recalls now x s m w m' h) = elim (recall_message_ok now x s m w m' h) [
    | inl left ↦ rw left (count_where-update_where_le _ (is_from user) _ m.messages λ y. refl)
    | inr (c, left, _) ↦
        rw left (count_where-remove_where_le (in_conversation c.id) (is_from user) m.messages)
  ]

  counted_messages :
      (now s : ℕ) (m m1 : Mailbox)
      → assert_send_rate send_rate now s m ≡ (ok tt, m1)
      → m1.messages ≡ m.messages
  unfolding assert_send_rate
  counted_messages now s m m1 h = sym (ap (λ p. p.1.messages) h)

  -- Every message that is there and was not before is in the log.
  abbrev pub Logged : List (ℕ × ℕ) → Mailbox → Mailbox → Type 0
  Logged log m m' =
      (user : ℕ)
      → count_where (is_from user) m'.messages
        ≤ count_where (is_from user) m.messages + count_where (logged_from user) log

  History-Logged :
      {log : List (ℕ × ℕ)} {m m' : Mailbox}
      → History send_rate request_rate log m m'
      → Logged log m m'
  unfolding tables
  History-Logged (started m) user = omega arith
  History-Logged (other h step) user = omega (arith, History-Logged h user, Other-from_le user step)
  History-Logged (sent {log} {m} {m'} {m1} {m''} now s h through sends) user =
      let same : m1.messages ≡ m'.messages = counted_messages now s m' m1 through in
      let more = Sends-from user sends in ground (arith, History-Logged h user, rw same at more)

  -- The counter covers the sends, which stop at the rate.
  abbrev pub Metered : List (ℕ × ℕ) → Mailbox → Mailbox → Type 0
  Metered log m m' =
      (user epoch : ℕ)
      → (count_where (is_by user epoch) log + m.sends user epoch ≤ m'.sends user epoch)
        × (count_where (is_by user epoch) log ≤ send_rate - m.sends user epoch)

  counted_send :
      (now s : ℕ) (m m1 : Mailbox)
      → assert_send_rate send_rate now s m ≡ (ok tt, m1)
      → (m.sends s (minute now) + 1 ≤ send_rate) × (m1.sends ≡ bump s (minute now) m.sends)
  unfolding assert_send_rate
  counted_send now s m m1 h = (ground arith, sym (ap (λ p. p.1.sends) h))

  is_by_same :
      (now s : ℕ) (sends : ℕ → ℕ → ℕ) (user epoch : ℕ)
      → bump s (minute now) sends user epoch
        ≡ sends user epoch + (if is_by user epoch (s, minute now) then 1 else 0)
  is_by_same now s sends user epoch = refl

  History-Metered :
      {log : List (ℕ × ℕ)} {m m' : Mailbox}
      → History send_rate request_rate log m m'
      → Metered log m m'
  unfolding tables
  History-Metered (started m) user epoch = (omega arith, omega arith)
  History-Metered (other h step) user epoch =
      let (covered, stops) = History-Metered h user epoch in
      (omega (arith, covered, Other-sends_le user epoch step), stops)
  History-Metered (sent {log} {m} {m'} {m1} {m''} now s h through sends) user epoch =
      let (covered, stops) = History-Metered h user epoch in
      let (under, counted) = counted_send now s m' m1 through in
      let kept = Sends-sends sends in
      let more : m''.sends user epoch ≡ bump s (minute now) m'.sends user epoch =
        rw (kept, counted) refl in
      (ground (arith, covered, more), ground (arith, covered, stops, under))

  -- Any calls are a history of their steps, in which each message is created by a committed send of
  -- its sender right after a rate check that let it through. The history logs the sender and the
  -- minute of the check of every such send, also where the message was recalled or deleted since.
  -- Every user's messages are no more than before and the user's logged sends together; and of a user
  -- and a minute no more sends are logged than the counter rose by, and no more than were left of the
  -- configured rate before.
  pub perform_all-Metered :
      (qs : List Request) (m : Mailbox)
      → (log : List (ℕ × ℕ)) × History send_rate request_rate log m
          (perform_all send_rate request_rate qs m)
        × Logged log m (perform_all send_rate request_rate qs m)
        × Metered log m (perform_all send_rate request_rate qs m)
  perform_all-Metered qs m =
      let (log, h) = perform_all-History send_rate request_rate qs m in
      (log, h, History-Logged h, History-Metered h)
