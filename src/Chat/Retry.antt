-- ===== src/Chat/Retry.antt =====
-- A send that is repeated with its request id.
use wenyouzhan.Common.{
  ℕ, ◌≡◌, refl, ap, sym, ◌∙◌, inl, inr, Bool, true, false, not, Option-cases, Option, none, some,
  ◌==◌, arith, find_first-insert-none, find_first-satisfies, insert, if◌then◌else◌,
}
use wenyouzhan.Exception.{Result, ok, err}
use wenyouzhan.Chat.{
  Mailbox, Conversation, Message, Status, pending, accepted, declined, canceled, Input, Txn, Call,
  transaction, committed, then_call, ◌>>=◌, fail, fail_if, checking, conversation_not_found,
  invalid_message,
}
use wenyouzhan.Chat.Checks.{
  find_duplicate, is_request, conversation_by_id, is_conversation, is_participant, other_user,
  assert_send_rate, find_message_for_user,
}
use wenyouzhan.Chat.Transactions.{new_message, send_in_accepted}
use wenyouzhan.Chat.Sending.{send, send_new, send_in, send_accepted}
use wenyouzhan.Chat.Effects.{send_in_accepted_ok, send_in_accepted_id}

call_ok :
    {A B : Type 0} (c : Call A) (f : A → Call B) (m : Mailbox) (b : B) (m' : Mailbox)
    → (c >>= f) m ≡ (ok b, m')
    → (a : A) × (m1 : Mailbox) × (c m ≡ (ok a, m1)) × (f a m1 ≡ (ok b, m'))
unfolding then_call
call_ok {A} {B} c f m b m' h = by_result (c m) h
  where
    by_result :
        (x : Result A × Mailbox)
        → then_call x f ≡ (ok b, m')
        → (a : A) × (m1 : Mailbox) × (x ≡ (ok a, m1)) × (f a m1 ≡ (ok b, m'))
    by_result (ok a, m1) e = (a, m1, refl, e)
    by_result (err e, m1) h = cc

transaction_ok :
    {A : Type 0} (t : Txn A) (m : Mailbox) (a : A) (m' : Mailbox)
    → transaction t m ≡ (ok a, m')
    → t m ≡ ok (a, m')
transaction_ok {A} t m a m' h = by_result (t m) h
  where
    by_result : (x : Result (A × Mailbox)) → committed x m ≡ (ok a, m') → x ≡ ok (a, m')
    by_result (ok (b, m1)) e = cc
    by_result (err e) h = cc

module _ (send_rate request_rate : ℕ) where
  -- A send that comes through adds its message.
  send_accepted_adds :
      (now k s r : ℕ) (input : Input) (m : Mailbox) (id : ℕ) (m' : Mailbox)
      → send_accepted send_rate request_rate now k s r input m ≡ (ok id, m')
      → m'.messages ≡ insert (new_message (m.inserted_at id) id k s r input) m.messages
  unfolding send_accepted assert_send_rate
  send_accepted_adds now k s r input m id m' h =
      let (_, m1, e1, e2) = call_ok (assert_send_rate send_rate now s) _ m id m' h in
      let e3 = transaction_ok (send_in_accepted now k s r input) m1 id m' e2 in
      let (left, _, _) = send_in_accepted_ok now k s r input m1 id m' e3 in
      let is_new = send_in_accepted_id now k s r input m1 id m' e3 in
      let counted : m.messages ≡ m1.messages = ap (λ p. p.1.messages) e1 in
      let clock : m.inserted_at ≡ m1.inserted_at = ap (λ p. p.1.inserted_at) e1 in
      rw left (rw (is_new, counted, clock) refl)

  send_new_adds :
      (now k s : ℕ) (input : Input) (m : Mailbox) (id : ℕ) (m' : Mailbox)
      → send_new send_rate request_rate now k s input m ≡ (ok id, m')
      → (r : ℕ) × (m'.messages ≡ insert (new_message (m.inserted_at id) id k s r input) m.messages)
  unfolding send_new send_in then_call
  send_new_adds now k s input m id m' h = by_row (conversation_by_id k m) refl h
    where
      by_status :
          (c : Conversation) (status : Status)
          → c.id ≡ k
          → send_in send_rate request_rate now c s input status m ≡ (ok id, m')
          → (r : ℕ) × (m'.messages
              ≡ insert (new_message (m.inserted_at id) id k s r input) m.messages)
      by_status c accepted same e = (
        other_user c s,
        rw (← same) (send_accepted_adds now c.id s (other_user c s) input m id m' e),
      )
      by_status c pending same h = cc
      by_status c declined same h = cc
      by_status c canceled same h = cc

      by_part :
          (c : Conversation) (part : Bool)
          → c.id ≡ k
          → (if part
                then send_in send_rate request_rate now c s input c.status
                else fail conversation_not_found)
              m
            ≡ (ok id, m')
          → (r : ℕ) × (m'.messages
              ≡ insert (new_message (m.inserted_at id) id k s r input) m.messages)
      by_part c true same e = by_status c c.status same e
      by_part c false same h = cc

      by_row :
          (o : Option Conversation)
          → conversation_by_id k m ≡ o
          → (elim o as (λ _. Call ℕ) [
            | none ↦ fail conversation_not_found
            | some c ↦
                if is_participant c s
                then send_in send_rate request_rate now c s input c.status
                else fail conversation_not_found
          ])
              m
            ≡ (ok id, m')
          → (r : ℕ) × (m'.messages
              ≡ insert (new_message (m.inserted_at id) id k s r input) m.messages)
      by_row none found h = cc
      by_row (some c) found e =
          by_part c (is_participant c s)
            (let hit = find_first-satisfies (is_conversation k) m.conversations c found in
              ground (arith, hit))
            e

  -- A send whose request id was seen before writes nothing.
  send_seen :
      (now k s : ℕ) (input : Input) (m : Mailbox) (y : Message)
      → find_duplicate s input.client_request_id m ≡ some y
      → send send_rate request_rate now k s input m
        ≡ then_call
            (fail_if (not (y.conversation_id == k)) invalid_message m)
            (λ _. checking (find_message_for_user y.id s))
  unfolding send then_call
  send_seen now k s input m y seen = rw seen refl

  -- A check that comes last leaves the tables.
  last_check :
      {A : Type 0} (b : Bool) (g : Mailbox → Result A) (m : Mailbox) (x : A) (m' : Mailbox)
      → then_call (fail_if b invalid_message m) (λ _. checking g) ≡ (ok x, m')
      → m ≡ m'
  unfolding then_call
  last_check true g m x m' h = cc
  last_check false g m x m' h = ap (λ p. p.1) h

  added_found :
      (now k s r id : ℕ) (input : Input) (m m1 : Mailbox)
      → find_duplicate s input.client_request_id m ≡ none
      → m1.messages ≡ insert (new_message (m.inserted_at id) id k s r input) m.messages
      → find_duplicate s input.client_request_id m1
        ≡ some (new_message (m.inserted_at id) id k s r input)
  added_found now k s r id input m m1 unseen added = rw added (
      ground (
        arith,
        find_first-insert-none (is_request s input.client_request_id) m.messages
            (new_message (m.inserted_at id) id k s r input) unseen,
      ))

  fresh_retry :
      (now now' k s : ℕ) (input : Input) (m : Mailbox) (x : Message) (m' : Mailbox)
      → find_duplicate s input.client_request_id m ≡ none
      → (send_new send_rate request_rate now k s input >>= λ id.
            checking (find_message_for_user id s))
          m
        ≡ (ok x, m')
      → send send_rate request_rate now' k s input m' ≡ (ok x, m')
  unfolding then_call
  fresh_retry now now' k s input m x m' unseen h =
      let (id, m1, e1, e2) = call_ok (send_new send_rate request_rate now k s input) _ m x m' h in
      let (r, added) = send_new_adds now k s input m id m1 e1 in
      let seen = added_found now k s r id input m m1 unseen added in
      let same : m1 ≡ m' = ap (λ p. p.1) e2 in
      let again =
        send_seen now' k s input m1 (new_message (m.inserted_at id) id k s r input) seen in
      let own : (k == k) ≡ true = ground arith in
      let answer : send send_rate request_rate now' k s input m1 ≡ (ok x, m1) =
        rw (again, own) (rw (← same) at e2) in
      rw (← same) answer

  -- A send that is repeated with the same request id, at any time, answers the same message and
  -- writes nothing.
  pub send_retry :
      (now now' k s : ℕ) (input : Input) (m : Mailbox) (x : Message) (m' : Mailbox)
      → send send_rate request_rate now k s input m ≡ (ok x, m')
      → send send_rate request_rate now' k s input m' ≡ (ok x, m')
  unfolding send then_call
  send_retry now now' k s input m x m' h =
      elim (Option-cases (find_duplicate s input.client_request_id m)) [
        | inl unseen ↦ fresh_retry now now' k s input m x m' unseen (rw unseen at h)
        | inr (y, seen) ↦
            let e = send_seen now k s input m y seen in
            let same =
              last_check (not (y.conversation_id == k)) (find_message_for_user y.id s) m x m'
                (sym e ∙ h) in
            rw (← same) (send_seen now' k s input m y seen ∙ sym e ∙ (rw (← same) at h))
      ]
