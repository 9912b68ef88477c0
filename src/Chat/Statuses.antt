-- ===== src/Chat/Statuses.antt =====
-- How the status of a conversation moves.
use wenyouzhan.Common.{
  ℕ, ◌≡◌, refl, inl, inr, Bool, true, false, Bool-cases, some, ◌==◌, arith, find_first-satisfies,
  find_first-update_first_self, find_first-update_first_other, find_first-insert-some, insert,
}
use wenyouzhan.Chat.{Mailbox, Conversation, Status, pending, accepted, declined, canceled}
use wenyouzhan.Chat.Checks.{conversation_by_id, is_conversation}
use wenyouzhan.Chat.Transactions.{change, touched, transitioned, new_conversation}
use wenyouzhan.Chat.Handling.{close, is_pending_to, is_pending_from}
use wenyouzhan.Chat.Requests.{apart_ids}
use wenyouzhan.Chat.Effects.{same_status_eq}
use wenyouzhan.Chat.Steps.{reopens}

-- An accepted conversation stays accepted, and a declined one becomes accepted at most.
abbrev pub later : Status → Status → Bool
later accepted accepted = true
later accepted _ = false
later declined declined = true
later declined accepted = true
later declined _ = false
later pending _ = true
later canceled _ = true

-- The row keeps its two users.
abbrev pub Continues : Conversation → Conversation → Type 0
Continues c c' =
    (c'.first_user_id ≡ c.first_user_id)
    × (c'.second_user_id ≡ c.second_user_id)
    × (later c.status c'.status ≡ true)

abbrev pub Statuses : Mailbox → Mailbox → Type 0
Statuses m m' =
    (k : ℕ) (c : Conversation)
    → conversation_by_id k m ≡ some c
    → (c' : Conversation) × (conversation_by_id k m' ≡ some c') × Continues c c'

later_self : (a : Status) → later a a ≡ true
later_self a = ground arith

later_trans : (a b c : Status) → later a b ≡ true → later b c ≡ true → later a c ≡ true
later_trans a b c h h' = ground arith

pub Statuses-refl : (m : Mailbox) → Statuses m m
Statuses-refl m k c found = (c, found, (refl, refl, later_self c.status))

pub Statuses-trans : (m m' m'' : Mailbox) → Statuses m m' → Statuses m' m'' → Statuses m m''
Statuses-trans m m' m'' f g k c found =
    let (c', found', (first, second, at)) = f k c found in
    let (c'', found'', (first', second', at')) = g k c' found' in
    (c'', found'', (cc, cc, later_trans c.status c'.status c''.status at at'))

-- What one row's update does to all of them.
Statuses-change :
    (id : ℕ) (f : Conversation → Conversation) (m : Mailbox)
    → ((x : Conversation) → (f x).id ≡ x.id)
    → ((x : Conversation) → conversation_by_id id m ≡ some x → Continues x (f x))
    → Statuses m (change id f m)
Statuses-change id f m keeps step k c found = elim (Bool-cases (id == k)) [
  | inl same ↦
      let e : id ≡ k = ground arith in
      let here = rw (← e) at found in
      let hit = find_first-satisfies (is_conversation id) m.conversations c here in
      let hit' : is_conversation id (f c) ≡ true = rw (keeps c) hit in
      (
        f c,
        rw (← e) (find_first-update_first_self (is_conversation id) f m.conversations c hit' here),
        step c here,
      )
  | inr other ↦
      let left =
        find_first-update_first_other (is_conversation id) (is_conversation k) f m.conversations
          λ x at. apart_ids id k f x (keeps x) other at in
      (c, rw left found, (refl, refl, later_self c.status))
]

pub Statuses-touched : (now id : ℕ) (m : Mailbox) → Statuses m (change id (touched now) m)
Statuses-touched now id m =
    Statuses-change id (touched now) m (λ x. refl) λ x h. (refl, refl, later_self x.status)

-- Where a message reopens a conversation.
pub Statuses-transitioned :
    (id s r : ℕ) (status : Status) (m : Mailbox) (c : Conversation)
    → conversation_by_id id m ≡ some c
    → reopens c.status status ≡ true
    → Statuses m (change id (transitioned s r status) m)
Statuses-transitioned id s r status m c found allowed =
    Statuses-change id (transitioned s r status) m (λ x. refl)
      λ x there.
        (refl, refl, (let same : x ≡ c = cc in rw same (reopens_later c.status status allowed)))
  where
    reopens_later : (a b : Status) → reopens a b ≡ true → later a b ≡ true
    reopens_later a b h = ground arith

-- A pending conversation may take any status.
pub pending_later : (a b : Status) → a ≡ pending → later a b ≡ true
pending_later a b h = ground arith

pub Statuses-handled :
    (id : ℕ) (status : Status) (f : Conversation → Conversation) (m : Mailbox) (c : Conversation)
    → ((x : Conversation) → (f x).id ≡ x.id)
    → ((x : Conversation) → x.status ≡ pending → Continues x (f x))
    → conversation_by_id id m ≡ some c
    → c.status ≡ pending
    → Statuses m (change id f m)
Statuses-handled id status f m c keeps step found waits =
    Statuses-change id f m keeps λ x there. step x (let same : x ≡ c = cc in rw same waits)

pub waiting_to : (user : ℕ) (x : Conversation) → is_pending_to user x ≡ true → x.status ≡ pending
waiting_to user x h = ground (arith, same_status_eq x.status pending)

pub waiting_from :
    (user : ℕ) (x : Conversation) → is_pending_from user x ≡ true → x.status ≡ pending
waiting_from user x h = ground (arith, same_status_eq x.status pending)

pub Statuses-closed :
    (id : ℕ) (status : Status) (m : Mailbox) (c : Conversation)
    → conversation_by_id id m ≡ some c
    → c.status ≡ pending
    → Statuses m (change id (close status) m)
Statuses-closed id status m c =
    Statuses-handled id status (close status) m c (λ x. refl)
      λ x waits. (refl, refl, pending_later x.status status waits)

pub Statuses-inserted :
    (s r n : ℕ) (status : Status) (m m' : Mailbox)
    → m'.conversations ≡ insert (new_conversation n s r status) m.conversations
    → Statuses m m'
Statuses-inserted s r n status m m' rows k c found = (
  c,
  rw rows (
      find_first-insert-some (is_conversation k) m.conversations (new_conversation n s r status) c
        found),
  (refl, refl, later_self c.status),
)
