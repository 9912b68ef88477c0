-- ===== src/Outbox/Once.antt =====
-- Claims and deliveries by any number of dispatchers.
use wenyouzhan.Common.{
  Text, ℕ, zero, suc, ◌≡◌, refl, Bool, Option, some, List, [], ◌∷◌, ◌==◌, arith, tables,
  update_where, find_first, find_first-update_where_kept, find_first-insert-some,
}
use wenyouzhan.Outbox.Steps.{
  deliver_ind, World, Step, enqueues, claims, delivers, loses, Run, rest, then_step,
}
use wenyouzhan.Outbox.{Event, Outbox, claim, is_open, processed, put_off, deliver}

abbrev pub has_event_id : ℕ → Event → Bool
has_event_id k r = r.id == k

-- A claim leaves the processed events alone.
claim-settled :
    (limit now k : ℕ) (rows : List Event) (r : Event) (t : ℕ)
    → find_first (has_event_id k) rows ≡ some r
    → r.processed_at ≡ some t
    → find_first (has_event_id k) (claim limit now rows).1 ≡ some r
unfolding claim tables
claim-settled zero now k rows r t found done = found
claim-settled (suc limit) now k [] r t found done = cc
claim-settled (suc limit) now k (x ∷ rows) r t found done =
    ground (arith, claim-settled limit now k rows r t, claim-settled (suc limit) now k rows r t)

-- What a delivery does to the table: nothing to a row that is processed.
deliver-settled :
    (schema : Text → Option (ℕ → Option Text)) (listener_count : Text → ℕ) (now k : ℕ) (x : Event)
    (outcome : Option Text) (o : Outbox) (r : Event) (t : ℕ)
    → find_first (has_event_id k) o.rows ≡ some r
    → r.processed_at ≡ some t
    → find_first (has_event_id k) (deliver schema listener_count now x outcome o).rows ≡ some r
deliver-settled schema listener_count now k x outcome o r t found done =
    deliver_ind schema listener_count now x outcome o
      (λ o'. find_first (has_event_id k) o'.rows ≡ some r)
      (λ e. later (put_off now x.attempts e) (λ y. refl))
      (λ e. later (put_off now x.attempts e) (λ y. refl)) (later (processed now) (λ y. refl))
  where
    later :
        (f : Event → Event)
        → ((y : Event) → has_event_id k (f y) ≡ has_event_id k y)
        → find_first (has_event_id k) (update_where (is_open x.id) f o.rows) ≡ some r
    later f keeps =
        find_first-update_where_kept (is_open x.id) (has_event_id k) f o.rows r keeps found
          (ground (arith, done))

module _ (schema : Text → Option (ℕ → Option Text)) (listener_count : Text → ℕ) where
  Step-settled :
      {w w' : World} (k : ℕ) (r : Event) (t : ℕ)
      → Step schema listener_count w w'
      → r.processed_at ≡ some t
      → find_first (has_event_id k) w.box.rows ≡ some r
      → find_first (has_event_id k) w'.box.rows ≡ some r
  Step-settled k r t (enqueues w x fresh) done found =
      find_first-insert-some (has_event_id k) w.box.rows x r found
  Step-settled k r t (claims w limit now) done found =
      claim-settled limit now k w.box.rows r t found done
  Step-settled k r t (delivers w before after x now outcome here) done found =
      deliver-settled schema listener_count now k x outcome w.box r t found done
  Step-settled k r t (loses w before after x here) done found = found

  -- However dispatchers claim, deliver and stop, an event that was processed stays as it is: it is
  -- found with the same attempts, time of processing and error.
  pub Run-settled :
      {w w' : World} (k : ℕ) (r : Event) (t : ℕ)
      → Run schema listener_count w w'
      → r.processed_at ≡ some t
      → find_first (has_event_id k) w.box.rows ≡ some r
      → find_first (has_event_id k) w'.box.rows ≡ some r
  Run-settled k r t (rest w) done found = found
  Run-settled k r t (then_step run step) done found =
      Step-settled k r t step done (Run-settled k r t run done found)
