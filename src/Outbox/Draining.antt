-- ===== src/Outbox/Draining.antt =====
-- Batches after one another.
use wenyouzhan.Common.{
  zero, suc, inl, inr, Bool-cases, All-update_where, update_where, Text, ℕ, ◌*◌, ◌-◌, ◌≤◌, ◌≡◌,
  refl, ap, true, Option, none, List, [], ◌∷◌, leb, arith, tables, All, All-map, count_where,
  length,
}
use wenyouzhan.Outbox.{
  leased, is_open, processed, Event, Outbox, is_due, claim, refusal, confirm, emit, deliver,
  deliver_all, dispatch_batch,
}
use wenyouzhan.Outbox.Batches.{
  is_pending, pending_count, AllDue, LeftDue, is_left, claim-left, claim-length, claim-LeftDue,
  confirm-left, confirm-LeftDue,
}

-- With all pending events due, these are the due events.
due_count :
    (now t : ℕ) (rows : List Event)
    → t ≤ now
    → All (λ r. is_pending r ≡ true → leb r.available_at t ≡ true) rows
    → count_where (is_due now) rows ≡ count_where is_pending rows
unfolding tables
due_count now t [] late h = refl
due_count now t (r ∷ rows) late h = ground (arith, h.0, due_count now t rows late h.1)

left_nothing : (rows : List Event) → count_where is_pending rows ≡ count_where (is_left []) rows
unfolding tables
left_nothing [] = refl
left_nothing (r ∷ rows) = ground (arith, left_nothing rows)

left_of_none : (r : Event) → is_pending r ≡ true → is_left [] r ≡ true
unfolding tables
left_of_none r h = ground (arith, h)

module _ (schema : Text → Option (ℕ → Option Text)) (listener_count : Text → ℕ) where
  -- The batches at the given times.
  unfoldable pub batches : List ℕ → (Event → ℕ) → (Event → Option Text) → Outbox → Outbox
  batches [] ends outcome o = o
  batches (now ∷ times) ends outcome o =
      batches times ends outcome (dispatch_batch schema listener_count now ends outcome o)

  -- The schema of its type accepts the event, and a listener waits for it.
  abbrev pub Accepted : Event → Type 0
  Accepted r = refusal schema listener_count r ≡ none

  abbrev pub PendingAccepted : Event → Type 0
  PendingAccepted r = is_pending r ≡ true → Accepted r

  leased-Accepted : (now : ℕ) (r : Event) → Accepted r → Accepted (leased now r)
  unfolding refusal
  leased-Accepted now r h = h

  claim-Accepted :
      (limit now : ℕ) (rows : List Event)
      → All PendingAccepted rows
      → All Accepted (claim limit now rows).0 × All PendingAccepted (claim limit now rows).1
  unfolding claim
  claim-Accepted zero now rows h = (tt, h)
  claim-Accepted (suc limit) now [] h = (tt, tt)
  claim-Accepted (suc limit) now (r ∷ rows) h = elim (Bool-cases (is_due now r)) [
    | inl due ↦
        let pending : is_pending r ≡ true = ground (arith, due) in
        let accepted = leased-Accepted now r (h.0 pending) in
        let (taken, kept) = claim-Accepted limit now rows h.1 in
        rw due ((accepted, taken), (λ p. accepted, kept))
    | inr later ↦
        let (taken, kept) = claim-Accepted (suc limit) now rows h.1 in rw later (taken, (h.0, kept))
  ]

  deliver-Accepted :
      (now : ℕ) (r : Event) (o : Outbox)
      → Accepted r
      → deliver schema listener_count now r none o
        ≡ confirm schema listener_count now r (emit schema listener_count r o)
  unfolding deliver
  deliver-Accepted now r o h = rw (deliver, h) refl

  deliver_all_step :
      (ends : Event → ℕ) (c : Event) (cs : List Event) (o : Outbox)
      → Accepted c
      → deliver_all schema listener_count ends (λ r. none) (c ∷ cs) o
        ≡ deliver_all schema listener_count ends
            (λ r. none)
            cs
            (confirm schema listener_count (ends c) c (emit schema listener_count c o))
  unfolding deliver_all
  deliver_all_step ends c cs o h =
      ap (deliver_all schema listener_count ends (λ r. none) cs) (deliver-Accepted (ends c) c o h)

  deliver_none :
      (ends : Event → ℕ) (o : Outbox) → deliver_all schema listener_count ends (λ r. none) [] o ≡ o
  unfolding deliver_all
  deliver_none ends o = refl

  confirm-PendingAccepted :
      (now k : ℕ) (rows : List Event)
      → All PendingAccepted rows
      → All PendingAccepted (update_where (is_open k) (processed now) rows)
  confirm-PendingAccepted now k rows =
      All-update_where PendingAccepted (is_open k) (processed now) rows λ r h p. cc

  -- After the deliveries of what was claimed.
  abbrev Left : ℕ → ℕ → Outbox → Type 0
  Left t most o = (pending_count o ≤ most) × AllDue t o × All PendingAccepted o.rows

  deliver_all-Left :
      (ends : Event → ℕ) (t : ℕ) (cs : List Event) (o : Outbox)
      → All Accepted cs
      → All (LeftDue t cs) o.rows
      → All PendingAccepted o.rows
      → Left t
          (count_where (is_left cs) o.rows)
          (deliver_all schema listener_count ends (λ r. none) cs o)
  deliver_all-Left ends t [] o taken h kept = rw (deliver_none ends o) (
    omega (arith, left_nothing o.rows),
    All-map (λ r g pending. g (left_of_none r pending)) o.rows h,
    kept,
  )
  deliver_all-Left ends t (c ∷ cs) o taken h kept = rw (deliver_all_step ends c cs o taken.0) (
      let rows = confirm-LeftDue (ends c) t c cs o.rows h in
      let o' = confirm schema listener_count (ends c) c (emit schema listener_count c o) in
      let (fewer, due, kept') =
        deliver_all-Left ends t cs o' taken.1 rows
          (confirm-PendingAccepted (ends c) c.id o.rows kept) in
      (omega (arith, fewer, confirm-left (ends c) c cs o.rows), due, kept'))

  dispatch_batch-Left :
      (ends : Event → ℕ) (now t : ℕ) (o : Outbox)
      → t ≤ now
      → AllDue t o
      → All PendingAccepted o.rows
      → Left t (pending_count o - 50) (dispatch_batch schema listener_count now ends (λ r. none) o)
  unfolding dispatch_batch
  dispatch_batch-Left ends now t o late due accepted =
      let (cs, rows) = claim 50 now o.rows in
      let (taken, kept) = claim-Accepted 50 now o.rows accepted in
      let (fewer, due', kept') =
        deliver_all-Left ends t cs (record o { rows = rows }) taken
          (claim-LeftDue 50 now t o.rows due) kept in
      (
        ground (
          arith,
          fewer,
          claim-left 50 now o.rows,
          claim-length 50 now o.rows,
          due_count now t o.rows late due,
        ),
        due',
        kept',
      )

  -- Where every pending event is one that its schema accepts and that has a listener, may be claimed
  -- from `t` on, and is handled without an error by its listeners, enough batches after `t` leave no
  -- event pending: one for each 50 events, rounded up.
  pub batches_drain :
      (ends : Event → ℕ) (t : ℕ) (times : List ℕ) (o : Outbox)
      → All PendingAccepted o.rows
      → All (λ now. t ≤ now) times
      → AllDue t o
      → pending_count o ≤ 50 * length times
      → pending_count (batches times ends (λ r. none) o) ≡ 0
  unfolding batches
  batches_drain ends t [] o accepted late due enough = omega (arith, enough)
  batches_drain ends t (now ∷ times) o accepted late due enough =
      let (fewer, due', accepted') = dispatch_batch-Left ends now t o late.0 due accepted in
      batches_drain ends t times (dispatch_batch schema listener_count now ends (λ r. none) o)
        accepted' late.1 due' (omega (arith, fewer, enough))
