-- ===== src/Chat/Sizes.antt =====
-- What a conversation's status says of its messages, after any calls.
use wenyouzhan.Common.{ℕ, ◌≡◌, refl, inl, inr, Bool, true, false, some, List, arith}
use wenyouzhan.Exception.{ok}
use wenyouzhan.Chat.{Mailbox, Conversation, accepted, declined, canceled}
use wenyouzhan.Chat.Checks.{conversation_by_id, assert_send_rate, assert_request_rate}
use wenyouzhan.Chat.Transactions.{record_usage, assert_accepted}
use wenyouzhan.Chat.Sending.{status_for}
use wenyouzhan.Chat.Handling.{archive, mark_up_to, recalled}
use wenyouzhan.Chat.Requests.{Valid, fits}
use wenyouzhan.Chat.Effects.{
  send_in_accepted_ok, open_conversation_ok, transition_and_send_ok, left_by,
}
use wenyouzhan.Chat.Outcomes.{accept_ok, decline_ok, recall_message_ok}
use wenyouzhan.Chat.Keeps.{
  Valid-posted, Valid-reopened, Valid-accepted, Valid-closed, Valid-rewritten, Valid-opened,
}
use wenyouzhan.Chat.Steps.{Parts, kept_of_parts}
use wenyouzhan.Chat.Calls.{Request, perform_all, perform_all_moves}

abbrev KeepsValid : Mailbox → Mailbox → Type 0
KeepsValid m m' = Valid m → Valid m'

accepted_row :
    (k : ℕ) (m : Mailbox)
    → assert_accepted k m ≡ ok tt
    → (c : Conversation) × (conversation_by_id k m ≡ some c) × (c.status ≡ accepted)
accepted_row k m h = ground arith

first_fits : (known : Bool) → fits (status_for known) 1 ≡ true
first_fits true = refl
first_fits false = refl

valid_parts : Parts KeepsValid
unfolding assert_send_rate assert_request_rate archive mark_up_to
valid_parts = record {
  closed = record { same = λ m v. v; next = λ m m' m'' f g v. g (f v) };
  asked = λ limit now user m v. v;
  counted = λ limit now user m v. v;
  sent = λ now k s r input m id m' h v.
      let (left, _, allowed) = send_in_accepted_ok now k s r input m id m' h in
      let (c, there, is_open) = accepted_row k m allowed in
      rw left
        (Valid-posted k s r input (record_usage now s input.sticker_asset_id m) c v there is_open);
  reopened = λ now c s r input status flag allowed m id m' h v.
      let (left, _, (x, there, same)) =
        transition_and_send_ok now c s r input status flag m id m' h in
      rw left (
        Valid-reopened now c.id s r input status flag (record_usage now s input.sticker_asset_id m)
          x v there (rw same allowed));
  opened = λ now s r input known m ids m' h v.
      let (left, _) = open_conversation_ok now s r (status_for known) input m ids m' h in
      rw left (
        Valid-opened s r (status_for known) input (record_usage now s input.sticker_asset_id m) v
          (first_fits known));
  accepting = λ now c actor m u m' h v.
      let (left, (x, there, _)) = accept_ok now c actor m u m' h in
      rw left (Valid-accepted now c.id actor m x v there);
  declining = λ c actor m u m' h v.
      let (left, (x, there, _)) = decline_ok c actor m u m' h in
      rw left (Valid-closed c.id declined m x v there refl);
  archived = λ now k user flag m u m' h v. ground (arith, v, h);
  marked = λ now k user anchor m u m' h v. rw (left_by h) (Valid-rewritten _ _ m (λ y. refl) v);
  recalling = λ now x sender m b m' h v. elim (recall_message_ok now x sender m b m' h) [
    | inl left ↦ rw left (Valid-rewritten _ (recalled now) m (λ y. refl) v)
    | inr (c, left, (y, there, _)) ↦ rw left (Valid-closed c.id canceled m y v there refl)
  ];
}

-- After any calls, a pending request has exactly one message and a declined or canceled
-- conversation has none, where that and the freshness of ids held before.
pub perform_all-Valid :
    (send_rate request_rate : ℕ) (qs : List Request) (m : Mailbox)
    → Valid m
    → Valid (perform_all send_rate request_rate qs m)
perform_all-Valid send_rate request_rate qs m =
    perform_all_moves
      (kept_of_parts {send_rate = send_rate} {request_rate = request_rate} valid_parts) qs m
