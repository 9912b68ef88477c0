-- ===== src/Chat/Requests.antt =====
-- What a conversation's status says of its messages.
use wenyouzhan.Common.{
  ℕ, ◌≤◌, ◌<◌, ◌≡◌, inl, inr, Bool, true, false, Bool-cases, some, List, ◌==◌, arith, All, All-map,
  All-update_first, find_first-satisfies, find_first-update_first_self,
  find_first-update_first_other, count_where, update_first,
}
use wenyouzhan.Chat.{Mailbox, Conversation, Message, Status, pending, accepted, declined, canceled}
use wenyouzhan.Chat.Checks.{is_conversation, conversation_by_id}
use wenyouzhan.Chat.Handling.{in_conversation}

-- A pending request has its one message, a closed one has none, an accepted one has any number.
abbrev pub fits : Status → ℕ → Bool
fits pending n = n == 1
fits accepted n = true
fits declined n = n == 0
fits canceled n = n == 0

abbrev pub size : ℕ → List Message → ℕ
size k = count_where (in_conversation k)

abbrev pub Fits : Mailbox → Type 0
Fits m =
    (k : ℕ) (c : Conversation)
    → conversation_by_id k m ≡ some c
    → fits c.status (size k m.messages) ≡ true

-- The ids that are given out are new.
abbrev pub IdsBelow : ℕ → List Conversation → List Message → Type 0
IdsBelow n cs xs = All (λ c. c.id < n) cs × All (λ x. x.conversation_id < n) xs

abbrev pub Valid : Mailbox → Type 0
Valid m = Fits m × IdsBelow m.core.next_id m.conversations m.messages

pub IdsBelow-mono :
    (n k : ℕ) (cs : List Conversation) (xs : List Message)
    → n ≤ k
    → IdsBelow n cs xs
    → IdsBelow k cs xs
IdsBelow-mono n k cs xs le (h, l) =
    (All-map (λ c b. omega (arith, b)) cs h, All-map (λ x b. omega (arith, b)) xs l)

pub apart_ids :
    (id k : ℕ) (f : Conversation → Conversation) (x : Conversation)
    → (f x).id ≡ x.id
    → (id == k) ≡ false
    → is_conversation id x ≡ true
    → (is_conversation k x ≡ false) × (is_conversation k (f x) ≡ false)
apart_ids id k f x keeps other hit = ground arith

-- One conversation changes, with its messages.
pub Valid-change :
    (m m' : Mailbox) (id : ℕ) (f : Conversation → Conversation) (c : Conversation)
    → Valid m
    → conversation_by_id id m ≡ some c
    → ((x : Conversation) → (f x).id ≡ x.id)
    → m'.conversations ≡ update_first (is_conversation id) f m.conversations
    → ((k : ℕ) → (id == k) ≡ false → size k m'.messages ≡ size k m.messages)
    → fits (f c).status (size id m'.messages) ≡ true
    → m.core.next_id ≤ m'.core.next_id
    → All (λ x. x.conversation_id < m'.core.next_id) m'.messages
    → Valid m'
Valid-change m m' id f c (fit, (cs, xs)) found keeps rows others now le below =
    let hit = find_first-satisfies (is_conversation id) m.conversations c found in
    let hit' : is_conversation id (f c) ≡ true = rw (keeps c) hit in
    let here = find_first-update_first_self (is_conversation id) f m.conversations c hit' found in
    (
      λ k d there. elim (Bool-cases (id == k)) [
        | inl same ↦ (let e : id ≡ k = ground arith in rw (← e) (ground (arith, here)))
        | inr other ↦ ground (
          arith,
          fit k d,
          others k other,
          find_first-update_first_other (is_conversation id) (is_conversation k) f m.conversations
              (λ x at. apart_ids id k f x (keeps x) other at),
        )
      ],
      (
        rw rows (
            All-update_first (λ (x : Conversation). x.id < m'.core.next_id) (is_conversation id) f
              m.conversations (λ x e b. rw (keeps x) b)
              (IdsBelow-mono m.core.next_id m'.core.next_id m.conversations m.messages le
                (cs, xs)).0),
        below,
      ),
    )
