-- ===== src/Chat/Outcomes.antt =====
-- What an answer to a request and a recall leave behind where they commit.
use wenyouzhan.Common.{
  ℕ, ◌≡◌, inl, inr, Bool, true, false, Option, none, some, ◌⊎◌, not, update_where, has_row,
  if◌then◌else◌,
}
use wenyouzhan.Exception.{ok, err}
use wenyouzhan.Chat.{
  Mailbox, Conversation, Message, accepted, declined, canceled, same_status, conversation_not_found,
  not_allowed,
}
use wenyouzhan.Chat.Handling.{
  accept, decline, set_status, close, is_pending_to, is_pending_from, delete_messages,
  recall_message, recall_row, is_recallable, recalled,
}
use wenyouzhan.Chat.Checks.{assert_pair_writable, conversation_by_id}
use wenyouzhan.Chat.Transactions.{change, claim, mark_received, modify, pure, ◌>>◌}
use wenyouzhan.Chat.Effects.{after_read, after_claim, left_by}

pub accept_ok :
    (now : ℕ) (c : Conversation) (actor : ℕ) (m : Mailbox) (u : Unit {0}) (m' : Mailbox)
    → accept now c actor m ≡ ok (u, m')
    → (m' ≡ mark_received true now c.id actor (change c.id (set_status accepted) m))
      × ((x : Conversation) × (conversation_by_id c.id m ≡ some x) × (is_pending_to actor x ≡ true))
unfolding accept
accept_ok now c actor m u m' h =
    let (_, _, rest) = after_read (assert_pair_writable actor c.requester_id) _ m u m' h in
    let (x, there, waits, end) =
      after_claim c.id (is_pending_to actor) (set_status accepted) _ m u m' rest in
    (left_by end, (x, there, waits))

pub decline_ok :
    (c : Conversation) (actor : ℕ) (m : Mailbox) (u : Unit {0}) (m' : Mailbox)
    → decline c actor m ≡ ok (u, m')
    → (m' ≡ delete_messages c.id (change c.id (close declined) m))
      × ((x : Conversation) × (conversation_by_id c.id m ≡ some x) × (is_pending_to actor x ≡ true))
unfolding decline
decline_ok c actor m u m' h =
    let (x, there, waits, end) =
      after_claim c.id (is_pending_to actor) (close declined) _ m u m' h in
    (left_by end, (x, there, waits))

-- A request that its sender takes back.
pub cancel_ok :
    (c : Conversation) (sender : ℕ) (m : Mailbox) (b : Bool) (m' : Mailbox)
    → (claim c.id (is_pending_from sender) (close canceled)
          >> (modify (delete_messages c.id) >> pure true))
        m
      ≡ ok (b, m')
    → (m' ≡ delete_messages c.id (change c.id (close canceled) m))
      × ((x : Conversation) × (conversation_by_id c.id m ≡ some x)
          × (is_pending_from sender x ≡ true))
cancel_ok c sender m b m' h =
    let (x, there, waits, end) =
      after_claim c.id (is_pending_from sender) (close canceled) _ m b m' h in
    (left_by end, (x, there, waits))

abbrev pub taken_back : ℕ → ℕ → ℕ → Mailbox → Mailbox
taken_back now id sender m = record m {
  messages = update_where (is_recallable id sender) (recalled now) m.messages;
}

recall_row_ok :
    (now id sender : ℕ) (m : Mailbox) (b : Bool) (m' : Mailbox)
    → (recall_row now id sender >> pure false) m ≡ ok (b, m')
    → m' ≡ taken_back now id sender m
recall_row_ok now id sender m b m' h = by_found (has_row (is_recallable id sender) m.messages) h
  where
    by_found :
        (found : Bool)
        → ((λ _. if found then ok (tt, taken_back now id sender m) else err not_allowed)
              >> pure false)
            m
          ≡ ok (b, m')
        → m' ≡ taken_back now id sender m
    by_found true e = left_by e
    by_found false e = cc

pub recall_message_ok :
    (now : ℕ) (x : Message) (sender : ℕ) (m : Mailbox) (b : Bool) (m' : Mailbox)
    → recall_message now x sender m ≡ ok (b, m')
    → (m' ≡ taken_back now x.id sender m)
      ⊎ ((c : Conversation) × (m' ≡ delete_messages c.id (change c.id (close canceled) m))
          × ((y : Conversation) × (conversation_by_id c.id m ≡ some y)
              × (is_pending_from sender y ≡ true)))
unfolding recall_message
recall_message_ok now x sender m b m' h = by_row (conversation_by_id x.conversation_id m) h
  where
    Taken : Type 0
    Taken =
        (c : Conversation) × (m' ≡ delete_messages c.id (change c.id (close canceled) m))
        × ((y : Conversation) × (conversation_by_id c.id m ≡ some y)
            × (is_pending_from sender y ≡ true))

    by_status :
        (c : Conversation) (waits open_one : Bool)
        → (if waits
            then (claim c.id (is_pending_from sender) (close canceled)
                  >> (modify (delete_messages c.id) >> pure true))
                m
            else if not open_one
            then err not_allowed
            else (recall_row now x.id sender >> pure false) m)
          ≡ ok (b, m')
        → (m' ≡ taken_back now x.id sender m) ⊎ Taken
    by_status c true o e = let (left, found) = cancel_ok c sender m b m' e in inr (c, left, found)
    by_status c false true e = inl (recall_row_ok now x.id sender m b m' e)
    by_status c false false e = cc

    by_row :
        (o : Option Conversation)
        → (elim o [
          | none ↦ err conversation_not_found
          | some c ↦
              if is_pending_from sender c
              then (claim c.id (is_pending_from sender) (close canceled)
                    >> (modify (delete_messages c.id) >> pure true))
                  m
              else if not (same_status c.status accepted)
              then err not_allowed
              else (recall_row now x.id sender >> pure false) m
        ])
          ≡ ok (b, m')
        → (m' ≡ taken_back now x.id sender m) ⊎ Taken
    by_row none e = cc
    by_row (some c) e = by_status c (is_pending_from sender c) (same_status c.status accepted) e
