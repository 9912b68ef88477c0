-- ===== src/Outbox/Steps.antt =====
-- Any number of dispatchers at work: claims and deliveries in any order, with claimed events that
-- are lost where a process ends.
use wenyouzhan.Common.{Text, ℕ, ◌≡◌, Option, none, some, List, ◌∷◌, ◌++◌, insert}
use wenyouzhan.Outbox.{Event, Outbox, claim, deliver, refusal, confirm, postpone, emit, after_emit}

-- What holds of an outbox after a refusal, after a listener's error and after a confirmation holds
-- after a delivery.
pub deliver_ind :
    (schema : Text → Option (ℕ → Option Text)) (listener_count : Text → ℕ) (now : ℕ) (r : Event)
    (outcome : Option Text) (o : Outbox) (P : Outbox → Type 0)
    → ((e : Text) → P (postpone schema listener_count now r e o))
    → ((e : Text) → P (postpone schema listener_count now r e (emit schema listener_count r o)))
    → P (confirm schema listener_count now r (emit schema listener_count r o))
    → P (deliver schema listener_count now r outcome o)
unfolding deliver
deliver_ind schema listener_count now r outcome o P refused failed well =
    by_refusal (refusal schema listener_count r) outcome
  where
    by_refusal :
        (x : Option Text) (outcome : Option Text)
        → P (elim x [
          | some e ↦ postpone schema listener_count now r e o
          | none ↦ after_emit schema listener_count now r outcome (emit schema listener_count r o)
        ])
    by_refusal (some e) outcome = refused e
    by_refusal none (some message) = failed message
    by_refusal none none = well

-- `taken` are the claimed events that are not delivered yet.
pub record World : Type 0 where
  pub box : Outbox
  pub taken : List Event

abbrev pub claimed : ℕ → ℕ → World → World
claimed limit now w = record {
  box = record (w.box) { rows = (claim limit now w.box.rows).1 };
  taken = w.taken ++ (claim limit now w.box.rows).0;
}

module _ (schema : Text → Option (ℕ → Option Text)) (listener_count : Text → ℕ) where
  pub data Step : World → World → Type 0 where
    enqueues :
        (w : World) (r : Event)
        → r.processed_at ≡ none
        → Step w (record w { box = record (w.box) { rows = insert r w.box.rows } })
    claims : (w : World) (limit now : ℕ) → Step w (claimed limit now w)
    delivers :
        (w : World) (before after : List Event) (r : Event) (now : ℕ) (outcome : Option Text)
        → w.taken ≡ before ++ r ∷ after
        → Step w (record {
          box = deliver schema listener_count now r outcome w.box;
          taken = before ++ after;
        })
    loses :
        (w : World) (before after : List Event) (r : Event)
        → w.taken ≡ before ++ r ∷ after
        → Step w (record w { taken = before ++ after })

  pub data Run : World → World → Type 0 where
    rest : (w : World) → Run w w
    then_step : {w w' w'' : World} → Run w w' → Step w' w'' → Run w w''
