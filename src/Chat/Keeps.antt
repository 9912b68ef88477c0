-- ===== src/Chat/Keeps.antt =====
-- What each transaction does to `Valid`.
use wenyouzhan.Common.{
  ℕ, ◌+◌, ◌<◌, ◌≡◌, refl, inl, inr, Bool, true, false, Option-cases, some, List, ◌==◌, arith, All,
  All-map, All-insert, All-update_where, All-remove_where, All-find_first, find_first,
  find_first-satisfies, find_first-insert-none, find_first-insert-some, find_first-absent,
  count_where-insert, count_where-none, count_where-update_where, count_where-remove_where_self,
  count_where-remove_where_other, update_first_twice, update_first-insert_absent, ◌⊎◌, insert,
  update_where, update_first,
}
use wenyouzhan.Chat.{Mailbox, Conversation, Message, Status, accepted, Input}
use wenyouzhan.Chat.Checks.{is_conversation, conversation_by_id}
use wenyouzhan.Chat.Transactions.{
  touched, change, transitioned, mark_received, new_message, new_conversation,
}
use wenyouzhan.Chat.Handling.{in_conversation, delete_messages, set_status, close}
use wenyouzhan.Chat.Requests.{Valid, fits, size, Valid-change}
use wenyouzhan.Chat.Effects.{posted, opened, reopened}
use wenyouzhan.Chat.Steps.{reopens}

size-insert_other :
    (now id k s r j : ℕ) (input : Input) (xs : List Message)
    → (k == j) ≡ false
    → size j (insert (new_message now id k s r input) xs) ≡ size j xs
size-insert_other now id k s r j input xs other =
    ground (arith, count_where-insert (in_conversation j) xs (new_message now id k s r input))

size-insert_self :
    (now id k s r : ℕ) (input : Input) (xs : List Message)
    → size k (insert (new_message now id k s r input) xs) ≡ size k xs + 1
size-insert_self now id k s r input xs =
    ground (arith, count_where-insert (in_conversation k) xs (new_message now id k s r input))

below_next :
    (n : ℕ) (xs : List Message)
    → All (λ x. x.conversation_id < n) xs
    → All (λ x. x.conversation_id < n + 1) xs
below_next n xs h = All-map (λ x b. omega (arith, b)) xs h

found_below :
    (n k : ℕ) (cs : List Conversation) (c : Conversation)
    → All (λ x. x.id < n) cs
    → find_first (is_conversation k) cs ≡ some c
    → k < n + 1
found_below n k cs c below found = ground (
  arith,
  find_first-satisfies (is_conversation k) cs c found,
  All-find_first (λ x. x.id < n) (is_conversation k) cs c below found,
)

-- A message comes to a conversation, whose row changes.
Valid-sent :
    (now k s r : ℕ) (input : Input) (m m' : Mailbox) (f : Conversation → Conversation)
    (ys : List Message) (c : Conversation)
    → Valid m
    → conversation_by_id k m ≡ some c
    → ((x : Conversation) → (f x).id ≡ x.id)
    → ((j : ℕ) → size j ys ≡ size j m.messages)
    → All (λ x. x.conversation_id < m.core.next_id) ys
    → fits (f c).status (size k m.messages + 1) ≡ true
    → m'.conversations ≡ update_first (is_conversation k) f m.conversations
    → m'.messages ≡ insert (new_message now m.core.next_id k s r input) ys
    → m'.core.next_id ≡ m.core.next_id + 1
    → Valid m'
Valid-sent now k s r input m m' f ys c valid found keeps sizes below fit rows messages next =
    let n = m.core.next_id in
    Valid-change m m' k f c valid found keeps rows
      (λ j other.
        rw messages (ground (arith, size-insert_other now n k s r j input ys other, sizes j)))
      (rw messages (ground (arith, size-insert_self now n k s r input ys, sizes k, fit)))
      (omega (arith, next))
      (rw (messages, next)
        (All-insert (λ x. x.conversation_id < n + 1) ys (new_message now n k s r input)
          (below_next n ys below) (found_below n k m.conversations c valid.1.0 found)))

pub Valid-posted :
    (k s r : ℕ) (input : Input) (m : Mailbox) (c : Conversation)
    → Valid m
    → conversation_by_id k m ≡ some c
    → c.status ≡ accepted
    → Valid (posted k s r input m)
Valid-posted k s r input m c valid found open_one =
    Valid-sent (m.inserted_at m.core.next_id) k s r input m (posted k s r input m)
      (touched (m.inserted_at m.core.next_id)) m.messages c valid found (λ x. refl) (λ j. refl)
      valid.1.1 (rw open_one refl) refl refl refl

-- Where a message reopens a conversation, its new status fits one message more.
reopens-fits : (a b : Status) (n : ℕ) → reopens a b ≡ true → fits a n ≡ true → fits b (n + 1) ≡ true
reopens-fits a b n h h' = ground arith

pub Valid-reopened :
    (now k s r : ℕ) (input : Input) (next : Status) (flag : Bool) (m : Mailbox) (c : Conversation)
    → Valid m
    → conversation_by_id k m ≡ some c
    → reopens c.status next ≡ true
    → Valid (reopened now k s r input next flag m)
Valid-reopened now k s r input next flag m c valid found allowed =
    let read_off = (mark_received flag now k s m).messages in
    let at = m.inserted_at m.core.next_id in
    Valid-sent at k s r input m (reopened now k s r input next flag m)
      (λ x. touched at (transitioned s r next x)) read_off c valid found (λ x. refl)
      (λ j. count_where-update_where _ (in_conversation j) _ m.messages λ x. refl)
      (All-update_where (λ x. x.conversation_id < m.core.next_id) _ _ m.messages (λ x h. h)
        valid.1.1)
      (reopens-fits c.status next (size k m.messages) allowed (valid.0 k c found))
      (update_first_twice (is_conversation k) (transitioned s r next) (touched at) m.conversations
        λ x h. h)
      refl refl

-- A request is accepted.
pub Valid-accepted :
    (now k actor : ℕ) (m : Mailbox) (c : Conversation)
    → Valid m
    → conversation_by_id k m ≡ some c
    → Valid (mark_received true now k actor (change k (set_status accepted) m))
Valid-accepted now k actor m c valid found =
    Valid-change m (mark_received true now k actor (change k (set_status accepted) m)) k
      (set_status accepted) c valid found (λ x. refl) refl
      (λ j other. count_where-update_where _ (in_conversation j) _ m.messages λ x. refl) refl
      (omega arith)
      (All-update_where (λ x. x.conversation_id < m.core.next_id) _ _ m.messages (λ x h. h)
        valid.1.1)

-- A request is declined or taken back, and its messages are deleted.
pub Valid-closed :
    (k : ℕ) (status : Status) (m : Mailbox) (c : Conversation)
    → Valid m
    → conversation_by_id k m ≡ some c
    → fits status 0 ≡ true
    → Valid (delete_messages k (change k (close status) m))
Valid-closed k status m c valid found fit =
    Valid-change m (delete_messages k (change k (close status) m)) k (close status) c valid found
      (λ x. refl) refl
      (λ j other.
        count_where-remove_where_other (in_conversation k) (in_conversation j) m.messages
          λ x h. ground arith)
      (rw (count_where-remove_where_self (in_conversation k) m.messages) fit) (omega arith)
      (All-remove_where (λ x. x.conversation_id < m.core.next_id) (in_conversation k) m.messages
        valid.1.1)

-- Messages change, none of them its conversation.
pub Valid-rewritten :
    (p : Message → Bool) (f : Message → Message) (m : Mailbox)
    → ((x : Message) → (f x).conversation_id ≡ x.conversation_id)
    → Valid m
    → Valid (record m { messages = update_where p f m.messages })
Valid-rewritten p f m keeps (fit, (cs, xs)) = (
  λ k c found.
      rw (count_where-update_where p (in_conversation k) f m.messages λ x. rw (keeps x) refl)
        (fit k c found),
  (
    cs,
    All-update_where (λ x. x.conversation_id < m.core.next_id) p f m.messages
        (λ x h. rw (keeps x) h) xs,
  ),
)

-- A row with a new id is what its id finds, and the other ids find what they found.
found_new :
    (n j : ℕ) (row : Conversation) (cs : List Conversation) (d : Conversation)
    → All (λ x. x.id < n) cs
    → row.id ≡ n
    → find_first (is_conversation j) (insert row cs) ≡ some d
    → ((n ≡ j) × (d ≡ row)) ⊎ (((n == j) ≡ false) × (find_first (is_conversation j) cs ≡ some d))
found_new n j row cs d below new found =
    let absent =
      find_first-absent (is_conversation n) cs (All-map (λ x b. ground (arith, b)) cs below) in
    elim (Option-cases (find_first (is_conversation j) cs)) [
      | inl missing ↦ ground (arith, find_first-insert-none (is_conversation j) cs row missing)
      | inr (e, there) ↦ ground (
        arith,
        find_first-insert-some (is_conversation j) cs row e there,
        found_below n j cs e below there,
        All-find_first (λ x. x.id < n) (is_conversation j) cs e below there,
        find_first-satisfies (is_conversation j) cs e there,
      )
    ]

no_size : (n : ℕ) (xs : List Message) → All (λ x. x.conversation_id < n) xs → size n xs ≡ 0
no_size n xs below =
    count_where-none (in_conversation n) xs (All-map (λ x b. ground (arith, b)) xs below)

-- A new conversation comes with its first message.
pub Valid-opened :
    (s r : ℕ) (status : Status) (input : Input) (m : Mailbox)
    → Valid m
    → fits status 1 ≡ true
    → Valid (opened s r status input m)
Valid-opened s r status input m (fit, (cs, xs)) first =
    let n = m.core.next_id in
    let at = m.inserted_at (n + 1) in
    let row = touched at (new_conversation n s r status) in
    let message = new_message at (n + 1) n s r input in
    let rows =
      update_first-insert_absent (is_conversation n) (touched at) m.conversations
        (new_conversation n s r status) (All-map (λ x b. ground (arith, b)) m.conversations cs)
        (ground arith) in
    (
      λ j d found. elim (found_new n j row m.conversations d cs refl (rw (← rows) found)) [
        | inl (same, is_row) ↦ rw is_row (
            rw (← same) (
              ground (
                arith,
                size-insert_self at (n + 1) n s r input m.messages,
                no_size n m.messages xs,
                first,
              )))
        | inr (other, there) ↦
            ground
              (arith, size-insert_other at (n + 1) n s r j input m.messages other, fit j d there)
      ],
      (
        rw rows (
            All-insert (λ (x : Conversation). x.id < n + 1 + 1) m.conversations row
              (All-map (λ x b. omega (arith, b)) m.conversations cs) (omega arith)),
        All-insert (λ (x : Message). x.conversation_id < n + 1 + 1) m.messages message
            (All-map (λ x b. omega (arith, b)) m.messages xs) (omega arith),
      ),
    )
