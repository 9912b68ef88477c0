-- ===== src/Chat/Progress.antt =====
-- The status of a conversation over all calls (src/direct-messages/).
use wenyouzhan.Common.{◌+◌, ℕ, ◌≡◌, refl, inl, inr, some, List, insert}
use wenyouzhan.Chat.{Mailbox, Conversation, Status, accepted, declined, canceled, Input}
use wenyouzhan.Chat.Checks.{conversation_by_id, assert_send_rate, assert_request_rate}
use wenyouzhan.Chat.Transactions.{change, touched, transitioned, new_conversation}
use wenyouzhan.Chat.Sending.{status_for}
use wenyouzhan.Chat.Handling.{archive, mark_up_to, set_status}
use wenyouzhan.Chat.Effects.{
  opened, send_in_accepted_ok, open_conversation_ok, transition_and_send_ok, left_by,
}
use wenyouzhan.Chat.Outcomes.{accept_ok, decline_ok, recall_message_ok}
use wenyouzhan.Chat.Statuses.{
  Continues, Statuses, Statuses-refl, Statuses-trans, Statuses-touched, Statuses-transitioned,
  Statuses-handled, Statuses-closed, Statuses-inserted, waiting_to, waiting_from, pending_later,
}
use wenyouzhan.Chat.Steps.{Parts, kept_of_parts}
use wenyouzhan.Chat.Calls.{Request, perform_all, perform_all_moves}

Statuses-reopened :
    (now id s r : ℕ) (status : Status) (m : Mailbox)
    → Statuses m (change id (transitioned s r status) m)
    → Statuses m (change id (touched now) (change id (transitioned s r status) m))
Statuses-reopened now id s r status m h =
    let m' = change id (transitioned s r status) m in
    Statuses-trans m m' (change id (touched now) m') h (Statuses-touched now id m')

Statuses-opened :
    (s r : ℕ) (status : Status) (input : Input) (m : Mailbox)
    → Statuses m (opened s r status input m)
Statuses-opened s r status input m =
    let n = m.core.next_id in
    let m1 : Mailbox = record m {
      conversations = insert (new_conversation n s r status) m.conversations;
    } in
    Statuses-trans m m1 (change n (touched (m.inserted_at (n + 1))) m1)
      (Statuses-inserted s r n status m m1 refl) (Statuses-touched (m.inserted_at (n + 1)) n m1)

status_parts : Parts Statuses
unfolding assert_send_rate assert_request_rate archive mark_up_to
status_parts = record {
  closed = record { same = Statuses-refl; next = Statuses-trans };
  asked = λ limit now user m. Statuses-refl m;
  counted = λ limit now user m. Statuses-refl m;
  sent = λ now k s r input m id m' h.
      let (left, _, _) = send_in_accepted_ok now k s r input m id m' h in
      rw left (Statuses-touched (m.inserted_at m.core.next_id) k m);
  reopened = λ now c s r input status flag allowed m id m' h.
      let (left, _, (x, there, same)) =
        transition_and_send_ok now c s r input status flag m id m' h in
      rw left (
        Statuses-reopened (m.inserted_at m.core.next_id) c.id s r status m
          (Statuses-transitioned c.id s r status m x there (rw same allowed)));
  opened = λ now s r input known m ids m' h.
      let (left, _) = open_conversation_ok now s r (status_for known) input m ids m' h in
      rw left (Statuses-opened s r (status_for known) input m);
  accepting = λ now c actor m u m' h.
      let (left, (x, there, waits)) = accept_ok now c actor m u m' h in
      rw left (
        Statuses-handled c.id accepted (set_status accepted) m x (λ y. refl)
          (λ y at. (refl, refl, pending_later y.status accepted at)) there
          (waiting_to actor x waits));
  declining = λ c actor m u m' h.
      let (left, (x, there, waits)) = decline_ok c actor m u m' h in
      rw left (Statuses-closed c.id declined m x there (waiting_to actor x waits));
  archived = λ now k user flag m u m' h. rw (left_by h) (Statuses-refl m);
  marked = λ now k user anchor m u m' h. rw (left_by h) (Statuses-refl m);
  recalling = λ now x sender m b m' h. elim (recall_message_ok now x sender m b m' h) [
    | inl left ↦ rw left (Statuses-refl m)
    | inr (c, left, (y, there, waits)) ↦
        rw left (Statuses-closed c.id canceled m y there (waiting_from sender y waits))
  ];
}

-- After any calls, a conversation is still there, between the same two users; if it was accepted
-- it still is, and if it was declined it is declined or accepted.
pub perform_all-Statuses :
    (send_rate request_rate : ℕ) (qs : List Request) (m : Mailbox) (k : ℕ) (c : Conversation)
    → conversation_by_id k m ≡ some c
    → (c' : Conversation) × (conversation_by_id k (perform_all send_rate request_rate qs m)
        ≡ some c')
      × Continues c c'
perform_all-Statuses send_rate request_rate qs =
    perform_all_moves
      (kept_of_parts {send_rate = send_rate} {request_rate = request_rate} status_parts) qs
