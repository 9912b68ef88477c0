-- ===== src/Chat/Histories.antt =====
-- The calls of direct messages as histories of their steps.
use wenyouzhan.Common.{
  ℕ, ◌+◌, ◌≡◌, refl, Bool, true, false, List, [], ◌∷◌, ◌++◌, ltb, if◌then◌else◌,
}
use wenyouzhan.ErrorCode.{rate_limited}
use wenyouzhan.Exception.{Result, ok, err, business}
use wenyouzhan.Chat.{
  Mailbox, Conversation, Message, Status, Input, Txn, transaction, committed, then_call, ◌>>◌,
}
use wenyouzhan.Chat.Checks.{assert_send_rate, assert_request_rate, bump, minute}
use wenyouzhan.Chat.Transactions.{send_in_accepted, transition_and_send, open_conversation}
use wenyouzhan.Chat.Sending.{status_for, send_accepted, reopen, open_first}
use wenyouzhan.Chat.Handling.{accept, decline, archive, mark_up_to, recall_message}
use wenyouzhan.Chat.Steps.{Kept, Moves}
use wenyouzhan.Chat.Calls.{Request, perform_all, perform_all_moves}

-- A committed transaction that creates a message of the sender.
pub data Sends (now s : ℕ) : Mailbox → Mailbox → Type 0 where
  in_accepted :
      (k r : ℕ) (input : Input) (m : Mailbox) (id : ℕ) (m' : Mailbox)
      → send_in_accepted now k s r input m ≡ ok (id, m')
      → Sends now s m m'
  in_reopened :
      (c : Conversation) (r : ℕ) (input : Input) (status : Status) (flag : Bool) (m : Mailbox)
      (id : ℕ) (m' : Mailbox)
      → transition_and_send now c s r input status flag m ≡ ok (id, m')
      → Sends now s m m'
  in_opened :
      (r : ℕ) (status : Status) (input : Input) (m : Mailbox) (ids : ℕ × ℕ) (m' : Mailbox)
      → open_conversation now s r status input m ≡ ok (ids, m')
      → Sends now s m m'

-- A step that creates no message: a use of a counter without a send after it, or a committed
-- transaction of another kind.
pub data Other (send_rate request_rate : ℕ) : Mailbox → Mailbox → Type 0 where
  counts_request :
      (now user : ℕ) (m : Mailbox)
      → Other send_rate request_rate m (assert_request_rate request_rate now user m).1
  counts_send :
      (now user : ℕ) (m : Mailbox)
      → Other send_rate request_rate m (assert_send_rate send_rate now user m).1
  accepts :
      (now : ℕ) (c : Conversation) (actor : ℕ) (m : Mailbox) (u : Unit {0}) (m' : Mailbox)
      → accept now c actor m ≡ ok (u, m')
      → Other send_rate request_rate m m'
  declines :
      (c : Conversation) (actor : ℕ) (m : Mailbox) (u : Unit {0}) (m' : Mailbox)
      → decline c actor m ≡ ok (u, m')
      → Other send_rate request_rate m m'
  archives :
      (now k user : ℕ) (flag : Bool) (m : Mailbox) (u : Unit {0}) (m' : Mailbox)
      → archive now k user flag m ≡ ok (u, m')
      → Other send_rate request_rate m m'
  marks :
      (now k user : ℕ) (anchor : Message) (m : Mailbox) (u : Unit {0}) (m' : Mailbox)
      → mark_up_to now k user anchor m ≡ ok (u, m')
      → Other send_rate request_rate m m'
  recalls :
      (now : ℕ) (x : Message) (s : ℕ) (m : Mailbox) (w : Bool) (m' : Mailbox)
      → recall_message now x s m ≡ ok (w, m')
      → Other send_rate request_rate m m'

-- The steps between two states of the tables, with the sender and the minute of every message that
-- was created, the latest first. A send comes right after a use of its counter that let it through.
pub data History (send_rate request_rate : ℕ) : List (ℕ × ℕ) → Mailbox → Mailbox → Type 0 where
  started : (m : Mailbox) → History send_rate request_rate [] m m
  other :
      {log : List (ℕ × ℕ)} {m m' m'' : Mailbox}
      → History send_rate request_rate log m m'
      → Other send_rate request_rate m' m''
      → History send_rate request_rate log m m''
  sent :
      {log : List (ℕ × ℕ)} {m m' m1 m'' : Mailbox} (now s : ℕ)
      → History send_rate request_rate log m m'
      → assert_send_rate send_rate now s m' ≡ (ok tt, m1)
      → Sends now s m1 m''
      → History send_rate request_rate ((s, minute now) ∷ log) m m''

module _ (send_rate request_rate : ℕ) where
  append :
      {log log' : List (ℕ × ℕ)} {m m' m'' : Mailbox}
      → History send_rate request_rate log m m'
      → History send_rate request_rate log' m' m''
      → History send_rate request_rate (log' ++ log) m m''
  append h (started m) = h
  append h (other h' step) = other (append h h') step
  append h (sent now s h' through sends) = sent now s (append h h') through sends

  -- Some history leads from the one to the other.
  abbrev Leads : Mailbox → Mailbox → Type 0
  Leads m m' = (log : List (ℕ × ℕ)) × History send_rate request_rate log m m'

  Other-Leads : {m m' : Mailbox} → Other send_rate request_rate m m' → Leads m m'
  Other-Leads {m} {m'} step = ([], other (started m) step)

  -- A rate check and a transaction that sends.
  send-Leads :
      {A : Type 0} (now s : ℕ) (t : Txn A)
      → ((m : Mailbox) (a : A) (m' : Mailbox) → t m ≡ ok (a, m') → Sends now s m m')
      → Moves Leads (assert_send_rate send_rate now s >> transaction t)
  unfolding assert_send_rate then_call
  send-Leads {A} now s t sends m = by_rate (ltb send_rate (m.sends s (minute now) + 1)) refl
    where
      counted : Mailbox
      counted = record m { sends = bump s (minute now) m.sends }

      by_result :
          (x : Result (A × Mailbox))
          → assert_send_rate send_rate now s m ≡ (ok tt, counted)
          → t counted ≡ x
          → Leads m (committed x counted).1
      by_result (ok (a, m')) through e =
          ((s, minute now) ∷ [], sent now s (started m) through (sends counted a m' e))
      by_result (err e) through e' = Other-Leads (counts_send now s m)

      by_rate :
          (over : Bool)
          → ltb send_rate (m.sends s (minute now) + 1) ≡ over
          → Leads m
              (then_call
                ((if over then err (business rate_limited 429) else ok tt), counted)
                (λ _. transaction t)).1
      by_rate true e = Other-Leads (counts_send now s m)
      by_rate false e = by_result (t counted) (rw e refl) refl

  Leads-Kept : Kept send_rate request_rate Leads
  unfolding send_accepted reopen open_first
  Leads-Kept = record {
    closed = record {
      same = λ m. ([], started m);
      next = λ m m' m'' (log, h) (log', h'). (log' ++ log, append h h');
    };
    asked = λ now user m. Other-Leads (counts_request now user m);
    sent = λ now k s r input.
        send-Leads now s (send_in_accepted now k s r input)
          λ m id m' h. in_accepted k r input m id m' h;
    reopened = λ now c s r input status flag allowed.
        send-Leads now s (transition_and_send now c s r input status flag)
          λ m id m' h. in_reopened c r input status flag m id m' h;
    opened = λ now s r input known.
        send-Leads now s (open_conversation now s r (status_for known) input)
          λ m ids m' h. in_opened r (status_for known) input m ids m' h;
    accepting = λ now c actor m u m' h. Other-Leads (accepts now c actor m u m' h);
    declining = λ c actor m u m' h. Other-Leads (declines c actor m u m' h);
    archived = λ now k user flag m u m' h. Other-Leads (archives now k user flag m u m' h);
    marked = λ now k user anchor m u m' h. Other-Leads (marks now k user anchor m u m' h);
    recalling = λ now x s m w m' h. Other-Leads (recalls now x s m w m' h);
  }

  -- Any calls are a history of their steps.
  pub perform_all-History :
      (qs : List Request) (m : Mailbox)
      → (log : List (ℕ × ℕ)) × History send_rate request_rate log m
          (perform_all send_rate request_rate qs m)
  perform_all-History qs m = perform_all_moves Leads-Kept qs m
