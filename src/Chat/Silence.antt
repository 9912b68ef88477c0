-- ===== src/Chat/Silence.antt =====
-- Blocked users and direct messages.
use wenyouzhan.Common.{
  ℕ, ◌+◌, ◌≤◌, ◌≡◌, refl, inl, inr, Bool, true, false, ◌&&◌, ◌||◌, Bool-cases, List, [], ◌∷◌, ◌==◌,
  arith, tables, has_row, count_where, count_where-insert, count_where-update_where,
  count_where-update_where_le, count_where-remove_where_le, insert,
}
use wenyouzhan.Exception.{ok}
use wenyouzhan.Store.Rows.{UserBlock}
use wenyouzhan.Access.Blocks.{is_blocked_pair, blocks_row}
use wenyouzhan.Chat.{Mailbox, Message, Input}
use wenyouzhan.Chat.Checks.{
  assert_send_rate, assert_request_rate, assert_pair_writable, assert_not_blocked,
}
use wenyouzhan.Chat.Transactions.{mark_received, new_message}
use wenyouzhan.Chat.Sending.{status_for}
use wenyouzhan.Chat.Handling.{archive, mark_up_to, in_conversation}
use wenyouzhan.Chat.Effects.{
  send_in_accepted_ok, open_conversation_ok, transition_and_send_ok, left_by,
}
use wenyouzhan.Chat.Outcomes.{accept_ok, decline_ok, recall_message_ok}
use wenyouzhan.Chat.Steps.{Parts, kept_of_parts}
use wenyouzhan.Chat.Calls.{Request, perform_all, perform_all_moves}

-- A message from one of two users to the other.
abbrev pub between : ℕ → ℕ → Message → Bool
between a b x = x.sender_id == a && x.recipient_id == b || x.sender_id == b && x.recipient_id == a

-- The blocks stay, and two blocked users have no more messages than before.
abbrev pub Silent : ℕ → ℕ → Mailbox → Mailbox → Type 0
Silent a b m m' =
    (m'.core.blocks ≡ m.core.blocks)
    × (is_blocked_pair a b m.core ≡ true
        → count_where (between a b) m'.messages ≤ count_where (between a b) m.messages)

blocked_comm :
    (a b : ℕ) (rows : List UserBlock)
    → has_row (λ r. blocks_row a b r || blocks_row b a r) rows
      ≡ has_row (λ r. blocks_row b a r || blocks_row a b r) rows
unfolding tables
blocked_comm a b [] = refl
blocked_comm a b (r ∷ rows) = ground (arith, blocked_comm a b rows)

writable_open :
    (s r : ℕ) (m : Mailbox)
    → assert_pair_writable s r m ≡ ok tt
    → is_blocked_pair s r m.core ≡ false
unfolding assert_pair_writable assert_not_blocked
writable_open s r m h = ground arith

-- A message between users who may write to each other is not one between blocked users.
not_between :
    (a b now id k s r : ℕ) (input : Input) (m : Mailbox)
    → assert_pair_writable s r m ≡ ok tt
    → is_blocked_pair a b m.core ≡ true
    → between a b (new_message now id k s r input) ≡ false
not_between a b now id k s r input m writable blocked =
    let open_one = writable_open s r m writable in
    elim (Bool-cases (s == a && r == b)) [
      | inl same ↦
          let e : s ≡ a = ground arith in
          let e' : r ≡ b = ground arith in absurd (let h = rw (e, e') at open_one in ground arith)
      | inr other ↦ elim (Bool-cases (s == b && r == a)) [
        | inl same ↦
            let e : s ≡ b = ground arith in
            let e' : r ≡ a = ground arith in
            absurd
              (let h = rw (e, e') at open_one in ground (arith, blocked_comm a b m.core.blocks))
        | inr other' ↦ ground arith
      ]
    ]

Silent-sent :
    (a b now id k s r : ℕ) (input : Input) (m : Mailbox) (ys : List Message)
    → assert_pair_writable s r m ≡ ok tt
    → count_where (between a b) ys ≡ count_where (between a b) m.messages
    → is_blocked_pair a b m.core ≡ true
    → count_where (between a b) (insert (new_message now id k s r input) ys)
      ≤ count_where (between a b) m.messages
Silent-sent a b now id k s r input m ys writable same blocked = ground (
  arith,
  count_where-insert (between a b) ys (new_message now id k s r input),
  not_between a b now id k s r input m writable blocked,
  same,
)

module _ (a b : ℕ) where
  Silent-refl : (m : Mailbox) → Silent a b m m
  Silent-refl m = (refl, λ h. omega arith)

  Silent-trans : (m m' m'' : Mailbox) → Silent a b m m' → Silent a b m' m'' → Silent a b m m''
  Silent-trans m m' m'' (same, f) (same', g) = (
    cc,
    λ h. (let h' : is_blocked_pair a b m'.core ≡ true = rw same h in omega (arith, f h, g h')),
  )

  Silent-parts : Parts (Silent a b)
  unfolding assert_send_rate assert_request_rate archive mark_up_to
  Silent-parts = record {
    closed = record { same = Silent-refl; next = Silent-trans };
    asked = λ limit now user m. Silent-refl m;
    counted = λ limit now user m. Silent-refl m;
    sent = λ now k s r input m id m' h.
        let (left, writable, _) = send_in_accepted_ok now k s r input m id m' h in
        rw left (
          refl,
          Silent-sent a b (m.inserted_at m.core.next_id) m.core.next_id k s r input m m.messages
              writable refl,
        );
    reopened = λ now c s r input status flag allowed m id m' h.
        let (left, writable, _) = transition_and_send_ok now c s r input status flag m id m' h in
        rw left (
          refl,
          Silent-sent a b (m.inserted_at m.core.next_id) m.core.next_id c.id s r input m
              (mark_received flag now c.id s m).messages writable
              (count_where-update_where _ (between a b) _ m.messages λ x. refl),
        );
    opened = λ now s r input known m ids m' h.
        let (left, writable) = open_conversation_ok now s r (status_for known) input m ids m' h in
        rw left (
          refl,
          Silent-sent a b (m.inserted_at (m.core.next_id + 1)) (m.core.next_id + 1) m.core.next_id s
              r input m m.messages writable refl,
        );
    accepting = λ now c actor m u m' h.
        let (left, _) = accept_ok now c actor m u m' h in
        rw left (refl, λ _. count_where-update_where_le _ (between a b) _ m.messages λ x. refl);
    declining = λ c actor m u m' h.
        let (left, _) = decline_ok c actor m u m' h in
        rw left
          (refl, λ _. count_where-remove_where_le (in_conversation c.id) (between a b) m.messages);
    archived = λ now k user flag m u m' h. rw (left_by h) (Silent-refl m);
    marked = λ now k user anchor m u m' h.
        rw (left_by h)
          (refl, λ _. count_where-update_where_le _ (between a b) _ m.messages λ x. refl);
    recalling = λ now x sender m w m' h. elim (recall_message_ok now x sender m w m' h) [
      | inl left ↦
          rw left (refl, λ _. count_where-update_where_le _ (between a b) _ m.messages λ y. refl)
      | inr (c, left, _) ↦
          rw left
            (refl, λ _. count_where-remove_where_le (in_conversation c.id) (between a b) m.messages)
    ];
  }

-- While one of two users blocks the other, no calls add a message between them.
pub perform_all-Silent :
    (send_rate request_rate : ℕ) (qs : List Request) (m : Mailbox) (a b : ℕ)
    → is_blocked_pair a b m.core ≡ true
    → count_where (between a b) (perform_all send_rate request_rate qs m).messages
      ≤ count_where (between a b) m.messages
perform_all-Silent send_rate request_rate qs m a b =
    (perform_all_moves
      (kept_of_parts {send_rate = send_rate} {request_rate = request_rate} (Silent-parts a b)) qs
      m).1
