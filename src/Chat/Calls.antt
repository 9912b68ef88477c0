-- ===== src/Chat/Calls.antt =====
-- Every call of direct messages from outside, and relations between the tables before and after it.
use wenyouzhan.Common.{
  ℕ, ◌≡◌, refl, inl, inr, Bool, true, false, not, ◌||◌, Bool-cases, ◌==◌, if◌then◌else◌, List, [],
  ◌∷◌, is_some, find_first, find_unique, has_row,
}
use wenyouzhan.Chat.{
  Mailbox, Conversation, Message, Status, pending, accepted, declined, canceled, fail_if, reading,
  checking, transaction, ◌>>◌, Input, invalid_message, conversation_not_found, not_allowed,
  message_not_found, same_status,
}
use wenyouzhan.Chat.Checks.{
  are_mutual_followers, assert_active_user, assert_not_blocked, is_pair, find_duplicate, other_user,
  conversation_by_id, is_conversation, is_participant, is_message, takes_part, assert_participant,
}
use wenyouzhan.Chat.Sending.{
  assert_request_rate_unless, renew, initiate_existing, initiate_first, initiate_new, initiate,
  send_in, send_new, send, status_for,
}
use wenyouzhan.Chat.Handling.{
  accept, decline, handle_request, archive, set_archived, mark_up_to, mark_read, recall_message,
  recall, is_outside, is_late, recall_expired, is_pending_to, is_pending_from,
}
use wenyouzhan.Chat.Steps.{
  reopens, Moves, Commits, Kept, then_moves, transaction_moves, guard_moves, commit_moves,
  option_moves, bool_moves,
}

-- A call from outside.
pub data Request : Type 0 where
  initiating : (now sender recipient : ℕ) (input : Input) → Request
  sending : (now conversation sender : ℕ) (input : Input) → Request
  handling : (now conversation actor : ℕ) (accepts : Bool) → Request
  archiving : (now conversation user : ℕ) (archived : Bool) → Request
  reading_up_to : (now conversation user through : ℕ) → Request
  recalling : (now id sender : ℕ) → Request

-- The tables after a call.
unfoldable pub perform : ℕ → ℕ → Request → Mailbox → Mailbox
perform send_rate request_rate (initiating now s r input) m =
    (initiate send_rate request_rate now s r input m).1
perform send_rate request_rate (sending now k s input) m =
    (send send_rate request_rate now k s input m).1
perform send_rate request_rate (handling now k actor accepts) m =
    (handle_request now k actor accepts m).1
perform send_rate request_rate (archiving now k u archived) m = (set_archived now k u archived m).1
perform send_rate request_rate (reading_up_to now k u through) m = (mark_read now k u through m).1
perform send_rate request_rate (recalling now id s) m = (recall now id s m).1

-- The tables after a list of calls.
unfoldable pub perform_all : ℕ → ℕ → List Request → Mailbox → Mailbox
unfolding perform
perform_all send_rate request_rate [] m = m
perform_all send_rate request_rate (q ∷ qs) m =
    perform_all send_rate request_rate qs (perform send_rate request_rate q m)

module _ {send_rate request_rate : ℕ} {R : Mailbox → Mailbox → Type 0}
    (kept : Kept send_rate request_rate R) where
  open kept use {closed}
  open closed use {same, next}

  request_rate_moves :
      (b : Bool) (now user : ℕ)
      → Moves R (assert_request_rate_unless send_rate request_rate b now user)
  unfolding assert_request_rate_unless
  request_rate_moves true now user m = same m
  request_rate_moves false now user m = kept.asked now user m

  renew_moves :
      (now : ℕ) (c : Conversation) (s r : ℕ) (input : Input)
      → c.status ≡ canceled
      → Moves R (renew send_rate request_rate now c s r input)
  unfolding renew
  renew_moves now c s r input is_canceled =
      then_moves closed (reading (are_mutual_followers s r)) _ same λ friends.
        then_moves closed
          (assert_request_rate_unless send_rate request_rate (c.recipient_id == s || friends) now s)
          _ (request_rate_moves (c.recipient_id == s || friends) now s)
          λ _.
            kept.reopened now c s r input (status_for (c.recipient_id == s || friends)) false
              (rw is_canceled (by_friends (c.recipient_id == s || friends)))
    where
      by_friends : (b : Bool) → reopens canceled (status_for b) ≡ true
      by_friends true = refl
      by_friends false = refl

  initiate_existing_moves :
      (now : ℕ) (c : Conversation) (s r : ℕ) (input : Input) (status : Status)
      → c.status ≡ status
      → Moves R (initiate_existing send_rate request_rate now c s r input status)
  unfolding initiate_existing
  initiate_existing_moves now c s r input accepted e m = kept.sent now c.id s r input m
  initiate_existing_moves now c s r input pending e m = elim (Bool-cases (c.requester_id == s)) [
    | inl own ↦ rw own (same m)
    | inr other ↦ rw other (kept.reopened now c s r input accepted true (rw e refl) m)
  ]
  initiate_existing_moves now c s r input declined e m = elim (Bool-cases (c.requester_id == s)) [
    | inl own ↦ rw own (same m)
    | inr other ↦ rw other (kept.reopened now c s r input accepted false (rw e refl) m)
  ]
  initiate_existing_moves now c s r input canceled e m = renew_moves now c s r input e m

  initiate_first_moves :
      (now s r : ℕ) (input : Input) → Moves R (initiate_first send_rate request_rate now s r input)
  unfolding initiate_first
  initiate_first_moves now s r input =
      then_moves closed (reading (are_mutual_followers s r)) _ same λ friends.
        then_moves closed (assert_request_rate_unless send_rate request_rate friends now s) _
          (request_rate_moves friends now s) λ _. kept.opened now s r input friends

  initiate_new_moves :
      (now s r : ℕ) (input : Input) → Moves R (initiate_new send_rate request_rate now s r input)
  unfolding initiate_new
  initiate_new_moves now s r input = guard_moves closed (s == r) invalid_message _ λ _.
      then_moves closed (checking (assert_active_user r)) _ same λ _.
        then_moves closed (checking (assert_not_blocked s r)) _ same λ _.
          then_moves closed (reading (λ m. find_first (is_pair s r) m.conversations)) _ same
            λ existing. option_moves closed existing _ _ (initiate_first_moves now s r input) (λ c.
              then_moves closed (initiate_existing send_rate request_rate now c s r input c.status)
                _ (initiate_existing_moves now c s r input c.status refl) λ _. same)

  initiate_moves :
      (now s r : ℕ) (input : Input) → Moves R (initiate send_rate request_rate now s r input)
  unfolding initiate
  initiate_moves now s r input =
      then_moves closed (reading (find_duplicate s input.client_request_id)) _ same λ duplicate.
        option_moves closed duplicate _ _
          (then_moves closed (initiate_new send_rate request_rate now s r input) _
            (initiate_new_moves now s r input) λ _. same)
          (λ x. guard_moves closed (not (x.recipient_id == r)) invalid_message _ λ _. same)

  send_in_moves :
      (now : ℕ) (c : Conversation) (s : ℕ) (input : Input) (status : Status)
      → Moves R (send_in send_rate request_rate now c s input status)
  unfolding send_in
  send_in_moves now c s input pending = same
  send_in_moves now c s input declined = same
  send_in_moves now c s input canceled = same
  send_in_moves now c s input accepted = kept.sent now c.id s (other_user c s) input

  send_new_moves :
      (now k s : ℕ) (input : Input) → Moves R (send_new send_rate request_rate now k s input)
  unfolding send_new
  send_new_moves now k s input = then_moves closed (reading (conversation_by_id k)) _ same λ found.
      option_moves closed found _ _ same (λ c.
        bool_moves closed (is_participant c s) _ _ (send_in_moves now c s input c.status) same)

  send_moves : (now k s : ℕ) (input : Input) → Moves R (send send_rate request_rate now k s input)
  unfolding send
  send_moves now k s input =
      then_moves closed (reading (find_duplicate s input.client_request_id)) _ same λ duplicate.
        option_moves closed duplicate _ _
          (then_moves closed (send_new send_rate request_rate now k s input) _
            (send_new_moves now k s input) λ _. same)
          (λ x. guard_moves closed (not (x.conversation_id == k)) invalid_message _ λ _. same)

  handle_request_moves :
      (now k actor : ℕ) (accepts : Bool) → Moves R (handle_request now k actor accepts)
  unfolding handle_request
  handle_request_moves now k actor accepts =
      then_moves closed (reading (conversation_by_id k)) _ same λ found.
        option_moves closed found _ _ same (λ c.
          guard_moves closed (not (is_participant c actor)) conversation_not_found _ λ _.
            guard_moves closed (not (is_pending_to actor c)) not_allowed _ λ _.
              commit_moves closed (if accepts then accept now c actor else decline c actor) _
                (chosen c accepts) λ _. same)
    where
      chosen :
          (c : Conversation) (b : Bool)
          → Commits R (if b then accept now c actor else decline c actor)
      chosen c true = kept.accepting now c actor
      chosen c false = kept.declining c actor

  set_archived_moves : (now k user : ℕ) (flag : Bool) → Moves R (set_archived now k user flag)
  unfolding set_archived
  set_archived_moves now k user flag =
      then_moves closed
        (reading (λ m.
          find_unique (is_conversation k) (λ c. has_row (takes_part c.id user) m.participants)
            m.conversations))
        _ same
        λ found. option_moves closed found _ _ same (λ c.
          guard_moves closed (not (same_status c.status accepted || is_pending_from user c))
            not_allowed _
            λ _.
              commit_moves closed (archive now k user flag) _ (kept.archived now k user flag)
                λ _. same)

  mark_read_moves : (now k user through : ℕ) → Moves R (mark_read now k user through)
  unfolding mark_read
  mark_read_moves now k user through =
      then_moves closed (checking (assert_participant k user)) _ same λ _.
        then_moves closed (reading (λ m. find_first (is_message through) m.messages)) _ same
          λ found. option_moves closed found _ _ same (λ anchor.
            guard_moves closed (not (anchor.conversation_id == k)) message_not_found _ λ _.
              transaction_moves closed (mark_up_to now k user anchor)
                (kept.marked now k user anchor))

  recall_fresh_moves :
      (now : ℕ) (x : Message) (sender : ℕ)
      → Moves R
          (fail_if (is_late now x) recall_expired >> transaction (recall_message now x sender))
  recall_fresh_moves now x sender =
      guard_moves closed (is_late now x) recall_expired _
        λ _. transaction_moves closed (recall_message now x sender) (kept.recalling now x sender)

  recall_moves : (now id sender : ℕ) → Moves R (recall now id sender)
  unfolding recall
  recall_moves now id sender =
      then_moves closed (reading (λ m. find_first (is_message id) m.messages)) _ same λ found.
        option_moves closed found _ _ same (λ x.
          then_moves closed (reading (conversation_by_id x.conversation_id)) _ same λ conversation.
            guard_moves closed (is_outside sender conversation) message_not_found _ λ _.
              guard_moves closed (not (x.sender_id == sender)) not_allowed _ λ _.
                bool_moves closed (is_some x.recalled_at) _ _ same
                  (recall_fresh_moves now x sender))

  pub perform_moves : (q : Request) → (m : Mailbox) → R m (perform send_rate request_rate q m)
  unfolding perform
  perform_moves (initiating now s r input) = initiate_moves now s r input
  perform_moves (sending now k s input) = send_moves now k s input
  perform_moves (handling now k actor accepts) = handle_request_moves now k actor accepts
  perform_moves (archiving now k u flag) = set_archived_moves now k u flag
  perform_moves (reading_up_to now k u through) = mark_read_moves now k u through
  perform_moves (recalling now id s) = recall_moves now id s

  pub perform_all_moves :
      (qs : List Request) (m : Mailbox) → R m (perform_all send_rate request_rate qs m)
  unfolding perform_all
  perform_all_moves [] m = same m
  perform_all_moves (q ∷ qs) m =
      let m' = perform send_rate request_rate q m in
      next m m' (perform_all send_rate request_rate qs m') (perform_moves q m)
        (perform_all_moves qs m')
