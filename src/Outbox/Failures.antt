-- ===== src/Outbox/Failures.antt =====
-- Deliveries that fail.
use wenyouzhan.Common.{
  take, take_prefix, length-take, length, ltb, if◌then◌else◌, ◌++◌, Text, ℕ, ◌+◌, ◌≤◌, ◌≡◌, refl,
  Option, none, some, List, arith, find_first, find_first-update_where_self, update_where,
}
use wenyouzhan.Outbox.{
  Event, Outbox, is_open, put_off, refusal, deliver, emit, postpone, after_emit, retry_seconds,
}

-- A failed delivery waits 5 seconds at least and 5 minutes at most, and no less after more
-- attempts.
pub retry_seconds_bounds :
    (attempts more : ℕ)
    → attempts ≤ more
    → (5 ≤ retry_seconds attempts)
      × (retry_seconds attempts ≤ retry_seconds more)
      × (retry_seconds more ≤ 300)
unfolding retry_seconds
retry_seconds_bounds attempts more h = ground arith

module _ (schema : Text → Option (ℕ → Option Text)) (listener_count : Text → ℕ) where
  -- Why a delivery fails, if it does.
  abbrev pub failure : Event → Option Text → Option Text
  failure r outcome = elim (refusal schema listener_count r) [
    | some e ↦ some e
    | none ↦ elim outcome [ none ↦ none | some message ↦ some message ]
  ]

  put_off_row :
      (now : ℕ) (r y : Event) (e : Text) (rows : List Event)
      → find_first (is_open r.id) rows ≡ some y
      → find_first (is_open r.id) (update_where (is_open r.id) (put_off now r.attempts e) rows)
        ≡ some (put_off now r.attempts e y)
  put_off_row now r y e rows =
      find_first-update_where_self (is_open r.id) (put_off now r.attempts e) rows y λ z. refl

  -- A delivery that fails, at `now`, of an event that is still pending leaves it pending with the
  -- first 2,000 code units of the error's message, or all if there are no more, and puts its next
  -- claim off by 5 seconds at least and 5 minutes at most.
  pub deliver_failed :
      (now : ℕ) (r : Event) (outcome : Option Text) (e : Text) (o : Outbox) (y : Event)
      → failure r outcome ≡ some e
      → find_first (is_open r.id) o.rows ≡ some y
      → (z : Event) × (find_first
            (is_open r.id)
            (deliver schema listener_count now r outcome o).rows
          ≡ some z)
        × (z.processed_at ≡ y.processed_at)
        × ((kept rest : Text) × (z.last_error ≡ some kept)
            × (e ≡ kept ++ rest)
            × (length kept ≡ (if ltb 2_000 (length e) then 2_000 else length e)))
        × (now + 5_000 ≤ z.available_at)
        × (z.available_at ≤ now + 300_000)
  unfolding deliver
  deliver_failed now r outcome e o y fails found = (
    put_off now r.attempts e y,
    by_refusal (refusal schema listener_count r) outcome fails,
    refl,
    (take 2_000 e, (take_prefix 2_000 e).0, refl, (take_prefix 2_000 e).1, length-take 2_000 e),
    omega (arith, retry_seconds_bounds r.attempts r.attempts (omega arith)),
    omega (arith, retry_seconds_bounds r.attempts r.attempts (omega arith)),
  )
    where
      by_refusal :
          (x : Option Text) (outcome : Option Text)
          → elim x [
            | some e' ↦ some e'
            | none ↦ elim outcome [ none ↦ none | some message ↦ some message ]
          ]
            ≡ some e
          → find_first
              (is_open r.id)
              (elim x as (λ _. Outbox) [
                | some e' ↦ postpone schema listener_count now r e' o
                | none ↦
                    after_emit schema listener_count now r outcome (emit schema listener_count r o)
              ]).rows
            ≡ some (put_off now r.attempts e y)
      by_refusal (some e') outcome fails =
          let same : e' ≡ e = cc in rw same (put_off_row now r y e o.rows found)
      by_refusal none (some message) fails =
          let same : message ≡ e = cc in rw same (put_off_row now r y e o.rows found)
      by_refusal none none fails = cc
