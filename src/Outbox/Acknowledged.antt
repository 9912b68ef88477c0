-- ===== src/Outbox/Acknowledged.antt =====
-- The emission of the events that are marked as processed.
use wenyouzhan.Common.{
  Text, ℕ, zero, suc, ◌≡◌, true, Bool-cases, Option, List, [], ◌∷◌, ◌==◌, arith, tables, is_some,
  update_where, All, All-map, All-insert, All-update_where, has_row, inl, inr,
}
use wenyouzhan.Outbox.{Event, Outbox, is_due, leased, claim, is_open, processed, put_off, deliver}
use wenyouzhan.Outbox.Steps.{
  deliver_ind, World, Step, enqueues, claims, delivers, loses, Run, rest, then_step,
}

abbrev pub WasEmitted : List ℕ → Event → Type 0
WasEmitted emitted r = is_some r.processed_at ≡ true → has_row (λ x. x == r.id) emitted ≡ true

-- What is processed was emitted.
abbrev pub Acknowledged : Outbox → Type 0
Acknowledged o = All (WasEmitted o.emitted) o.rows

claim-All :
    (P : Event → Type 0) (limit now : ℕ) (rows : List Event)
    → ((r : Event) → P r → P (leased now r))
    → All P rows
    → All P (claim limit now rows).1
unfolding claim
claim-All P zero now rows step h = h
claim-All P (suc limit) now [] step h = tt
claim-All P (suc limit) now (x ∷ rows) step h = elim (Bool-cases (is_due now x)) [
  | inl due ↦ rw due (step x h.0, claim-All P limit now rows step h.1)
  | inr later ↦ rw later (h.0, claim-All P (suc limit) now rows step h.1)
]

emit-WasEmitted :
    (k : ℕ) (emitted : List ℕ) (r : Event) → WasEmitted emitted r → WasEmitted (k ∷ emitted) r
unfolding tables
emit-WasEmitted k emitted r h done = ground (arith, h)

-- A confirmation comes with the emission of the same event.
confirm-All :
    (now k : ℕ) (emitted : List ℕ) (rows : List Event)
    → All (WasEmitted emitted) rows
    → All (WasEmitted (k ∷ emitted)) (update_where (is_open k) (processed now) rows)
unfolding tables
confirm-All now k emitted [] h = tt
confirm-All now k emitted (r ∷ rows) h =
    (λ done. ground (arith, h.0), confirm-All now k emitted rows h.1)

deliver-Acknowledged :
    (schema : Text → Option (ℕ → Option Text)) (listener_count : Text → ℕ) (now : ℕ) (x : Event)
    (outcome : Option Text) (o : Outbox)
    → Acknowledged o
    → Acknowledged (deliver schema listener_count now x outcome o)
deliver-Acknowledged schema listener_count now x outcome o h =
    deliver_ind schema listener_count now x outcome o Acknowledged
      (λ e.
        All-update_where (WasEmitted o.emitted) (is_open x.id) (put_off now x.attempts e) o.rows
          (λ r g. g) h)
      (λ e.
        All-update_where (WasEmitted (x.id ∷ o.emitted)) (is_open x.id) (put_off now x.attempts e)
          o.rows (λ r g. g) (All-map (emit-WasEmitted x.id o.emitted) o.rows h))
      (confirm-All now x.id o.emitted o.rows h)

module _ (schema : Text → Option (ℕ → Option Text)) (listener_count : Text → ℕ) where
  Step-Acknowledged :
      {w w' : World} → Step schema listener_count w w' → Acknowledged w.box → Acknowledged w'.box
  Step-Acknowledged (enqueues w x fresh) h =
      All-insert (WasEmitted w.box.emitted) w.box.rows x h λ done. ground (arith, fresh, done)
  Step-Acknowledged (claims w limit now) h =
      claim-All (WasEmitted w.box.emitted) limit now w.box.rows (λ r g. g) h
  Step-Acknowledged (delivers w before after x now outcome here) h =
      deliver-Acknowledged schema listener_count now x outcome w.box h
  Step-Acknowledged (loses w before after x here) h = h

  -- However dispatchers claim, deliver and stop, every event that is marked as processed was given
  -- to its listeners, where that held before.
  pub Run-Acknowledged :
      {w w' : World} → Run schema listener_count w w' → Acknowledged w.box → Acknowledged w'.box
  Run-Acknowledged (rest w) h = h
  Run-Acknowledged (then_step run step) h = Step-Acknowledged step (Run-Acknowledged run h)
