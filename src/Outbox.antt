-- ===== src/Outbox.antt =====
-- The dispatcher of the outbox (src/outbox/outbox.dispatcher.ts), with a database that does not fail.
-- A text is the list of its UTF-16 code units.
pub mod Steps
pub mod Once
pub mod Acknowledged
pub mod Emissions
pub mod Batches
pub mod Traces
pub mod Draining
pub mod Failures
use wenyouzhan.Common.{
  Text, take, ℕ, zero, suc, ◌+◌, ◌*◌, Bool, true, false, not, ◌&&◌, Option, none, some, List, [],
  ◌∷◌, ◌++◌, ◌==◌, ltb, leb, if◌then◌else◌, is_none, is_some, update_where, insert,
}

-- A row of `domain_outbox`.
pub record Event : Type 0 where
  pub id : ℕ
  pub event_type : Text
  pub payload : ℕ
  pub attempts : ℕ
  pub available_at : ℕ
  pub processed_at : Option ℕ
  pub last_error : Option Text

-- The table in the order of `created_at`, and the ids of the events that were given to
-- `emitAsync`, the latest first.
pub record Outbox : Type 0 where
  pub rows : List Event
  pub emitted : List ℕ

abbrev pub is_due : ℕ → Event → Bool
is_due now r = is_none r.processed_at && leb r.available_at now

abbrev pub leased : ℕ → Event → Event
leased now r = record r { attempts = r.attempts + 1; available_at = now + 60_000 }

-- `claim`: the claimed rows, and the table after it.
unfoldable pub claim : ℕ → ℕ → List Event → List Event × List Event
claim zero now rows = ([], rows)
claim (suc limit) now [] = ([], [])
claim (suc limit) now (r ∷ rows) =
    let taken = claim limit now rows in
    let passed = claim (suc limit) now rows in
    if is_due now r
    then (leased now r ∷ taken.0, leased now r ∷ taken.1)
    else (passed.0, r ∷ passed.1)

-- `Math.min(300, Math.max(5, row.attempts * 10))`
unfoldable pub retry_seconds : ℕ → ℕ
retry_seconds attempts =
    let wanted = if ltb (attempts * 10) 5 then 5 else attempts * 10 in
    if ltb wanted 300 then wanted else 300

-- `where: { id: row.id, processedAt: null }`
abbrev pub is_open : ℕ → Event → Bool
is_open id r = r.id == id && is_none r.processed_at

abbrev pub processed : ℕ → Event → Event
processed now r = record r { processed_at = some now; last_error = none }

-- `message.slice(0, 2000)` is what is kept of the error.
abbrev pub put_off : ℕ → ℕ → Text → Event → Event
put_off now attempts message r = record r {
  last_error = some (take 2_000 message);
  available_at = now + retry_seconds attempts * 1_000;
}

-- `Unknown domain event type: ${eventType}`
unfoldable pub unknown_type : Text → Text
unknown_type event_type =
    (85 ∷ 110 ∷ 107 ∷ 110 ∷ 111 ∷ 119 ∷ 110 ∷ 32 ∷ 100 ∷ 111 ∷ 109 ∷ 97 ∷ 105 ∷ 110 ∷ 32 ∷ 101 ∷ 118
      ∷ 101 ∷ 110 ∷ 116 ∷ 32 ∷ 116 ∷ 121 ∷ 112 ∷ 101 ∷ 58 ∷ 32 ∷ [])
    ++ event_type

-- `Invalid payload for ${eventType}: ${z.prettifyError(result.error)}`
unfoldable pub invalid_payload : Text → Text → Text
invalid_payload event_type problem =
    (73 ∷ 110 ∷ 118 ∷ 97 ∷ 108 ∷ 105 ∷ 100 ∷ 32 ∷ 112 ∷ 97 ∷ 121 ∷ 108 ∷ 111 ∷ 97 ∷ 100 ∷ 32 ∷ 102
      ∷ 111 ∷ 114 ∷ 32 ∷ [])
    ++ event_type
    ++ (58 ∷ 32 ∷ problem)

-- `No listener registered for domain event: ${row.eventType}`
unfoldable pub no_listener : Text → Text
no_listener event_type =
    (78 ∷ 111 ∷ 32 ∷ 108 ∷ 105 ∷ 115 ∷ 116 ∷ 101 ∷ 110 ∷ 101 ∷ 114 ∷ 32 ∷ 114 ∷ 101 ∷ 103 ∷ 105
      ∷ 115 ∷ 116 ∷ 101 ∷ 114 ∷ 101 ∷ 100 ∷ 32 ∷ 102 ∷ 111 ∷ 114 ∷ 32 ∷ 100 ∷ 111 ∷ 109 ∷ 97 ∷ 105
      ∷ 110 ∷ 32 ∷ 101 ∷ 118 ∷ 101 ∷ 110 ∷ 116 ∷ 58 ∷ 32 ∷ [])
    ++ event_type

-- `schema` gives the schema of a type, where there is one: the check of a payload, which ends with
-- the text of the problem, or none. `listener_count` is that of the event emitter.
module _ (schema : Text → Option (ℕ → Option Text)) (listener_count : Text → ℕ) where
  -- `assertDomainEventPayload`: the message of the error that it throws, if it does.
  unfoldable pub assert_domain_event_payload : Text → ℕ → Option Text
  assert_domain_event_payload event_type payload = elim (schema event_type) [
    | none ↦ some (unknown_type event_type)
    | some safe_parse ↦ elim (safe_parse payload) [
      | some problem ↦ some (invalid_payload event_type problem)
      | none ↦ none
    ]
  ]

  -- Why an event is not given to its listeners, if it is not.
  unfoldable pub refusal : Event → Option Text
  refusal r = elim (assert_domain_event_payload r.event_type r.payload) [
    | some message ↦ some message
    | none ↦ if listener_count r.event_type == 0 then some (no_listener r.event_type) else none
  ]

  abbrev pub confirm : ℕ → Event → Outbox → Outbox
  confirm now r o = record o { rows = update_where (is_open r.id) (processed now) o.rows }

  abbrev pub postpone : ℕ → Event → Text → Outbox → Outbox
  postpone now r e o = record o {
    rows = update_where (is_open r.id) (put_off now r.attempts e) o.rows;
  }

  abbrev pub emit : Event → Outbox → Outbox
  emit r o = record o { emitted = r.id ∷ o.emitted }

  -- The end of `emitAsync`: none, or the message of the error that it throws.
  abbrev pub after_emit : ℕ → Event → Option Text → Outbox → Outbox
  after_emit now r none o = confirm now r o
  after_emit now r (some message) o = postpone now r message o

  -- `deliver` of a claimed row, which ends at `now`.
  unfoldable pub deliver : ℕ → Event → Option Text → Outbox → Outbox
  deliver now r outcome o = elim (refusal r) [
    | some e ↦ postpone now r e o
    | none ↦ after_emit now r outcome (emit r o)
  ]

  -- The deliveries one after another: `ends` and `outcome` say when and how that of an event ends.
  unfoldable pub deliver_all : (Event → ℕ) → (Event → Option Text) → List Event → Outbox → Outbox
  deliver_all ends outcome [] o = o
  deliver_all ends outcome (r ∷ rs) o =
      deliver_all ends outcome rs (deliver (ends r) r (outcome r) o)

  -- `dispatchBatch`
  unfoldable pub dispatch_batch : ℕ → (Event → ℕ) → (Event → Option Text) → Outbox → Outbox
  dispatch_batch now ends outcome o =
      let (taken, rows) = claim 50 now o.rows in
      deliver_all ends outcome taken (record o { rows = rows })
