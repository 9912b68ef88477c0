-- ===== src/Outbox/Traces.antt =====
-- A batch of the dispatcher as a trace of its actions.
use wenyouzhan.Common.{Text, ℕ, ◌≡◌, refl, Option, List, [], ◌∷◌, ◌++◌, map}
use wenyouzhan.Outbox.{Event, Outbox, claim, deliver, deliver_all, dispatch_batch}
use wenyouzhan.Outbox.Steps.{World, claimed, Step, claims, delivers, Run, rest, then_step}

-- What a dispatcher does in a batch.
pub data Action : Type 0 where
  claiming : (limit now : ℕ) → Action
  delivering : (r : Event) (now : ℕ) (outcome : Option Text) → Action

-- The actions of a batch: one claim of at most 50 events, then a delivery of each claimed event, in
-- the order of the claim.
abbrev pub batch_actions : ℕ → (Event → ℕ) → (Event → Option Text) → Outbox → List Action
batch_actions now ends outcome o =
    claiming 50 now ∷ map (λ r. delivering r (ends r) (outcome r)) (claim 50 now o.rows).0

module _ (schema : Text → Option (ℕ → Option Text)) (listener_count : Text → ℕ) where
  -- The actions, one after another, between two worlds.
  pub data Trace : List Action → World → World → Type 0 where
    ended : (w : World) → Trace [] w w
    claims_then :
        {actions : List Action} {w' : World} (w : World) (limit now : ℕ)
        → Trace actions (claimed limit now w) w'
        → Trace (claiming limit now ∷ actions) w w'
    delivers_then :
        {actions : List Action} {w' : World} (w : World) (before after : List Event) (r : Event)
        (now : ℕ) (outcome : Option Text)
        → w.taken ≡ before ++ r ∷ after
        → Trace actions
            (record {
              box = deliver schema listener_count now r outcome w.box;
              taken = before ++ after;
            })
            w'
        → Trace (delivering r now outcome ∷ actions) w w'

  Step-Run :
      {w w' w'' : World}
      → Step schema listener_count w w'
      → Run schema listener_count w' w''
      → Run schema listener_count w w''
  Step-Run step (rest w) = then_step (rest _) step
  Step-Run step (then_step run last) = then_step (Step-Run step run) last

  -- Every trace is a run of the dispatchers' steps.
  pub Trace-Run :
      {actions : List Action} {w w' : World} → Trace actions w w' → Run schema listener_count w w'
  Trace-Run (ended w) = rest w
  Trace-Run (claims_then w limit now more) = Step-Run (claims w limit now) (Trace-Run more)
  Trace-Run (delivers_then w before after r now outcome here more) =
      Step-Run (delivers w before after r now outcome here) (Trace-Run more)

  deliver_all-Trace :
      (ends : Event → ℕ) (outcome : Event → Option Text) (rs : List Event) (o : Outbox)
      → Trace
          (map (λ r. delivering r (ends r) (outcome r)) rs)
          (record { box = o; taken = rs })
          (record { box = deliver_all schema listener_count ends outcome rs o; taken = [] })
  unfolding deliver_all
  deliver_all-Trace ends outcome [] o = ended (record { box = o; taken = [] })
  deliver_all-Trace ends outcome (r ∷ rs) o =
      delivers_then (record { box = o; taken = r ∷ rs }) [] rs r (ends r) (outcome r) refl
        (deliver_all-Trace ends outcome rs (deliver schema listener_count (ends r) r (outcome r) o))

  pub dispatch_batch-Run :
      (now : ℕ) (ends : Event → ℕ) (outcome : Event → Option Text) (o : Outbox)
      → Trace
          (batch_actions now ends outcome o)
          (record { box = o; taken = [] })
          (record { box = dispatch_batch schema listener_count now ends outcome o; taken = [] })
        × Run schema listener_count
            (record { box = o; taken = [] })
            (record { box = dispatch_batch schema listener_count now ends outcome o; taken = [] })
  unfolding dispatch_batch
  dispatch_batch-Run now ends outcome o =
      let trace =
        claims_then (record { box = o; taken = [] }) 50 now
          (deliver_all-Trace ends outcome (claim 50 now o.rows).0
            (record o { rows = (claim 50 now o.rows).1 })) in
      (trace, Trace-Run trace)
