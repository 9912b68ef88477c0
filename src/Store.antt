-- ===== src/Store.antt =====
-- The database, and the services' calls on it. A call inside `prisma.$transaction` is a function
-- from the database to a result with the new database; an exception carries no database, because
-- the transaction is rolled back. Reads outside a transaction are functions from the database.
pub mod Keys
pub mod Rows
use wenyouzhan.Common.{
  ◌≡◌, inl, inr, arith, ℕ, ◌+◌, Bool, true, false, Option, none, some, List, [], has_row, insert,
  if◌then◌else◌,
}
use wenyouzhan.Exception.{BusinessException, Result, Result-cases, ok, err}
use wenyouzhan.Store.Keys.{event_key_eq}
use wenyouzhan.Store.Rows.{
  User, UserSanction, UserBlock, UserFollow, Thread, ThreadMember, ThreadLike, ThreadInvite,
  Subscription, Moment, Wallet, WalletTransaction, DailyCheckIn, ExperienceEvent,
  ExperienceDailyStat, RefreshToken, OutboxRow,
}

-- `next_id` is what the database's id generator gives next.
pub record Store : Type 0 where
  pub users : List User
  pub sanctions : List UserSanction
  pub blocks : List UserBlock
  pub follows : List UserFollow
  pub threads : List Thread
  pub members : List ThreadMember
  pub likes : List ThreadLike
  pub invites : List ThreadInvite
  pub subscriptions : List Subscription
  pub moments : List Moment
  pub wallets : List Wallet
  pub wallet_transactions : List WalletTransaction
  pub check_ins : List DailyCheckIn
  pub experience_events : List ExperienceEvent
  pub experience_stats : List ExperienceDailyStat
  pub refresh_tokens : List RefreshToken
  pub outbox : List OutboxRow
  pub next_id : ℕ

abbrev pub empty_store : Store
empty_store = record {
  users = [];
  sanctions = [];
  blocks = [];
  follows = [];
  threads = [];
  members = [];
  likes = [];
  invites = [];
  subscriptions = [];
  moments = [];
  wallets = [];
  wallet_transactions = [];
  check_ins = [];
  experience_events = [];
  experience_stats = [];
  refresh_tokens = [];
  outbox = [];
  next_id = 1000;
}

abbrev pub Tx : Type 0 → Type 0
Tx A = Store → Result (A × Store)

abbrev pub pure : {A : Type 0} → A → Tx A
pure a s = ok (a, s)

abbrev pub throw : {A : Type 0} → BusinessException → Tx A
throw e s = err e

infixl 5 ◌>>=◌ ◌>>◌
abbrev pub ◌>>=◌ : {A B : Type 0} → Tx A → (A → Tx B) → Tx B
◌>>=◌ m f s = elim (m s) [ ok (a, s') ↦ f a s' | err e ↦ err e ]

abbrev pub ◌>>◌ : {A B : Type 0} → Tx A → Tx B → Tx B
m >> k = m >>= λ _. k

abbrev pub gets : {A : Type 0} → (Store → A) → Tx A
gets f s = ok (f s, s)

-- `if (!row) throw e`
abbrev pub or_throw : {A : Type 0} → Option A → BusinessException → Tx A
or_throw none e s = err e
or_throw (some a) e s = ok (a, s)

-- `if (bad) throw e`
abbrev pub throw_if : Bool → BusinessException → Tx (Unit {0})
throw_if true e s = err e
throw_if false e s = ok (tt, s)

abbrev pub modify : (Store → Store) → Tx (Unit {0})
modify f s = ok (tt, f s)

-- A check that only reads.
abbrev pub reads : {A : Type 0} → (Store → Result A) → Tx A
reads f s = elim (f s) [ ok a ↦ ok (a, s) | err e ↦ err e ]

-- The id of the row that is created next.
abbrev pub fresh_id : Tx ℕ
fresh_id s = ok (s.next_id, record s { next_id = s.next_id + 1 })

-- `OutboxService.enqueue`: an upsert by `eventKey` whose update changes nothing.
unfoldable pub add_event : OutboxRow → List OutboxRow → List OutboxRow
add_event e rows =
    if has_row (λ o. event_key_eq o.event_key e.event_key) rows then rows else insert e rows

abbrev pub enqueue : OutboxRow → Store → Store
enqueue e s = record s { outbox = add_event e s.outbox }

-- A sequence that succeeds is a first call that succeeds and a rest that does.
pub >>=-eq-ok :
    {A B : Type 0} (m : Tx A) (f : A → Tx B) (s : Store) {b : B × Store}
    → (m >>= f) s ≡ ok b
    → (a : A) × (t : Store) × (m s ≡ ok (a, t)) × (f a t ≡ ok b)
>>=-eq-ok m f s h = elim (Result-cases (m s)) [
  | inl ((a, t), e) ↦ (a, t, e, ground arith)
  | inr (x, e) ↦ absurd (ground arith)
]
