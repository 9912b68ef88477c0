-- ===== src/Outbox/Emissions.antt =====
-- How often an event is given to its listeners.
use wenyouzhan.Common.{
  Text, ℕ, zero, suc, ◌+◌, ◌≤◌, ◌≡◌, refl, Option, List, [], ◌∷◌, ◌++◌, ◌==◌, arith, tables,
  if◌then◌else◌, update_where, sum_of-update_where, count_where-append, sum_of-insert, sum_of,
  count_where,
}
use wenyouzhan.Outbox.{Event, Outbox, claim, is_open, processed, put_off, deliver}
use wenyouzhan.Outbox.Once.{has_event_id}
use wenyouzhan.Outbox.Steps.{
  deliver_ind, World, Step, enqueues, claims, delivers, loses, Run, rest, then_step,
}

abbrev pub emissions : ℕ → Outbox → ℕ
emissions k o = count_where (λ x. x == k) o.emitted

-- The attempts that are counted for an id.
abbrev pub attempts_of : ℕ → List Event → ℕ
attempts_of k = sum_of (λ r. if r.id == k then r.attempts else 0)

-- What was emitted or is about to be was claimed.
abbrev pub Claimed : World → Type 0
Claimed w =
    (k : ℕ) → emissions k w.box + count_where (has_event_id k) w.taken ≤ attempts_of k w.box.rows

claim-attempts :
    (limit now k : ℕ) (rows : List Event)
    → attempts_of k (claim limit now rows).1
      ≡ attempts_of k rows + count_where (has_event_id k) (claim limit now rows).0
unfolding claim tables
claim-attempts zero now k rows = ground arith
claim-attempts (suc limit) now k [] = ground arith
claim-attempts (suc limit) now k (x ∷ rows) =
    ground (arith, claim-attempts limit now k rows, claim-attempts (suc limit) now k rows)

deliver-emissions :
    (schema : Text → Option (ℕ → Option Text)) (listener_count : Text → ℕ) (now k : ℕ) (x : Event)
    (outcome : Option Text) (o : Outbox)
    → (emissions k (deliver schema listener_count now x outcome o)
        ≤ emissions k o + (if x.id == k then 1 else 0))
      × (attempts_of k (deliver schema listener_count now x outcome o).rows ≡ attempts_of k o.rows)
unfolding tables
deliver-emissions schema listener_count now k x outcome o =
    deliver_ind schema listener_count now x outcome o
      (λ o'.
        (emissions k o' ≤ emissions k o + (if x.id == k then 1 else 0))
        × (attempts_of k o'.rows ≡ attempts_of k o.rows))
      (λ e. (omega arith, same (put_off now x.attempts e) (λ y. refl) (λ y. refl)))
      (λ e. (ground arith, same (put_off now x.attempts e) (λ y. refl) (λ y. refl)))
      (ground arith, same (processed now) (λ y. refl) (λ y. refl))
  where
    same :
        (f : Event → Event)
        → ((y : Event) → (f y).id ≡ y.id)
        → ((y : Event) → (f y).attempts ≡ y.attempts)
        → attempts_of k (update_where (is_open x.id) f o.rows) ≡ attempts_of k o.rows
    same f ids attempts =
        sum_of-update_where (λ r. if r.id == k then r.attempts else 0) (is_open x.id) f o.rows
          λ y. rw (ids y, attempts y) refl

-- What is said of an event is taken out of a list of claimed ones.
taken-count :
    (k : ℕ) (before after : List Event) (r : Event)
    → count_where (has_event_id k) (before ++ r ∷ after)
      ≡ count_where (has_event_id k) (before ++ after) + (if r.id == k then 1 else 0)
unfolding tables
taken-count k before after r = ground (
  arith,
  count_where-append (has_event_id k) before (r ∷ after),
  count_where-append (has_event_id k) before after,
)

module _ (schema : Text → Option (ℕ → Option Text)) (listener_count : Text → ℕ) where
  Step-Claimed : {w w' : World} → Step schema listener_count w w' → Claimed w → Claimed w'
  Step-Claimed (enqueues w x fresh) h k =
      ground (
        arith,
        h k,
        sum_of-insert (λ (r : Event). if r.id == k then r.attempts else 0) w.box.rows x,
      )
  Step-Claimed (claims w limit now) h k = omega (
    arith,
    h k,
    claim-attempts limit now k w.box.rows,
    count_where-append (has_event_id k) w.taken (claim limit now w.box.rows).0,
  )
  Step-Claimed (delivers w before after x now outcome here) h k =
      let (more, same) = deliver-emissions schema listener_count now k x outcome w.box in
      let before_it = rw here at h k in
      omega (arith, more, same, before_it, taken-count k before after x)
  Step-Claimed (loses w before after x here) h k =
      let before_it = rw here at h k in omega (arith, before_it, taken-count k before after x)

  Run-Claimed : {w w' : World} → Run schema listener_count w w' → Claimed w → Claimed w'
  Run-Claimed (rest w) h = h
  Run-Claimed (then_step run step) h = Step-Claimed step (Run-Claimed run h)

  -- However dispatchers claim, deliver and stop, an event is given to its listeners no more often
  -- than its row counts attempts, where that held before, with the claimed events counted in.
  pub Run-emissions_le :
      {w w' : World} (k : ℕ)
      → Run schema listener_count w w'
      → Claimed w
      → emissions k w'.box ≤ attempts_of k w'.box.rows
  Run-emissions_le k run h = omega (arith, Run-Claimed run h k)
