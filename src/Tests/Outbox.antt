-- ===== src/Tests/Outbox.antt =====
-- Three events of an outbox: one processed, two pending.
use wenyouzhan.Common.{
  All, ◌++◌, length, ltb, Text, ℕ, ◌+◌, ◌≤◌, ◌≡◌, refl, ◌==◌, if◌then◌else◌, Option, none, some, [],
  ◌∷◌, arith, tables, find_first,
}
use wenyouzhan.Outbox.{
  Event, Outbox, is_open, leased, claim, unknown_type, assert_domain_event_payload, refusal,
  deliver, dispatch_batch,
}
use wenyouzhan.Outbox.Steps.{World, Run}
use wenyouzhan.Outbox.Once.{has_event_id, Run-settled}
use wenyouzhan.Outbox.Acknowledged.{Acknowledged, Run-Acknowledged}
use wenyouzhan.Outbox.Emissions.{Claimed, emissions, attempts_of, Run-emissions_le}
use wenyouzhan.Outbox.Batches.{pending_count, AllDue}
use wenyouzhan.Outbox.Draining.{PendingAccepted, batches, batches_drain}
use wenyouzhan.Outbox.Traces.{claiming, delivering, batch_actions, dispatch_batch-Run}
use wenyouzhan.Outbox.Failures.{failure, deliver_failed}

-- The type "a" has a schema, which accepts one payload, and a listener; the type "b" has none.
abbrev schema : Text → Option (ℕ → Option Text)
schema (x ∷ []) =
    if x == 97 then some (λ payload. if payload == 4 then none else some (33 ∷ [])) else none
schema _ = none

abbrev one_listener : Text → ℕ
one_listener event_type = 1

abbrev event : ℕ → Event
event id = record {
  id = id;
  event_type = 97 ∷ [];
  payload = 4;
  attempts = 0;
  available_at = 1_000;
  processed_at = none;
  last_error = none;
}

abbrev old : Event
old = record (event 7) { event_type = 98 ∷ []; attempts = 1; processed_at = some 900 }

abbrev box : Outbox
box = record { rows = old ∷ event 8 ∷ event 9 ∷ []; emitted = 7 ∷ [] }

-- The listeners of event 8 throw.
abbrev throws_at_8 : Event → Option Text
throws_at_8 r = if r.id == 8 then some (66 ∷ []) else none

-- The deliveries end a second and more after the claim.
abbrev ends : Event → ℕ
ends r = 3_000 + r.id

abbrev before : World
before = record { box = box; taken = [] }

abbrev after : World
after = record { box = dispatch_batch schema one_listener 2_000 ends throws_at_8 box; taken = [] }

batch-Run : Run schema one_listener before after
batch-Run = (dispatch_batch-Run schema one_listener 2_000 ends throws_at_8 box).1

-- The batch is a claim and two deliveries, of the events 8 and 9.
batch_actions_value :
    batch_actions 2_000 ends throws_at_8 box
    ≡ claiming 50 2_000
      ∷ delivering (leased 2_000 (event 8)) 3_008 (some (66 ∷ []))
      ∷ delivering (leased 2_000 (event 9)) 3_009 none
      ∷ []
unfolding claim tables
batch_actions_value = refl

old_found : find_first (has_event_id 7) box.rows ≡ some old
unfolding tables
old_found = refl

Run-settled_example : find_first (has_event_id 7) after.box.rows ≡ some old
Run-settled_example = Run-settled schema one_listener 7 old 900 batch-Run refl old_found

box-Acknowledged : Acknowledged box
unfolding tables
box-Acknowledged = (λ h. refl, (λ h. cc, (λ h. cc, tt)))

Run-Acknowledged_example : Acknowledged after.box
Run-Acknowledged_example = Run-Acknowledged schema one_listener batch-Run box-Acknowledged

before-Claimed : Claimed before
unfolding tables
before-Claimed k = ground arith

Run-emissions_le_example : emissions 8 after.box ≤ attempts_of 8 after.box.rows
Run-emissions_le_example = Run-emissions_le schema one_listener 8 batch-Run before-Claimed

box_accepted : All (PendingAccepted schema one_listener) box.rows
unfolding refusal assert_domain_event_payload
box_accepted = (λ h. cc, (λ h. refl, (λ h. refl, tt)))

-- Not every event is accepted.
old_refused : refusal schema one_listener old ≡ some (unknown_type (98 ∷ []))
unfolding refusal assert_domain_event_payload
old_refused = refl

box-AllDue : AllDue 1_500 box
unfolding tables
box-AllDue = (λ h. cc, (λ h. refl, (λ h. refl, tt)))

box-pending_count : pending_count box ≡ 2
unfolding tables
box-pending_count = refl

batches_drain_example :
    pending_count (batches schema one_listener (1_600 ∷ []) ends (λ r. none) box) ≡ 0
batches_drain_example =
    batches_drain schema one_listener ends 1_500 (1_600 ∷ []) box box_accepted (omega arith, tt)
      box-AllDue (omega (arith, box-pending_count))

fails : failure schema one_listener (event 8) (some (66 ∷ [])) ≡ some (66 ∷ [])
unfolding refusal assert_domain_event_payload
fails = refl

found_8 : find_first (is_open 8) box.rows ≡ some (event 8)
unfolding tables
found_8 = refl

deliver_failed_example :
    (z : Event) × (find_first
        (is_open 8)
        (deliver schema one_listener 3_000 (event 8) (some (66 ∷ [])) box).rows
      ≡ some z)
    × (z.processed_at ≡ none)
    × ((kept rest : Text) × (z.last_error ≡ some kept)
        × (66 ∷ [] ≡ kept ++ rest)
        × (length kept
            ≡ (if ltb 2_000 (length {A = ℕ} (66 ∷ [])) then 2_000 else length {A = ℕ} (66 ∷ []))))
    × (3_000 + 5_000 ≤ z.available_at)
    × (z.available_at ≤ 3_000 + 300_000)
deliver_failed_example =
    deliver_failed schema one_listener 3_000 (event 8) (some (66 ∷ [])) (66 ∷ []) box (event 8)
      fails found_8
