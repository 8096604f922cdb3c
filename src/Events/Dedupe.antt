-- ===== src/Events/Dedupe.antt =====
-- flydesk/events/dedupe.py. The collection `processed_events` with its unique index on the consumer
-- and the event is a parameter, with its documented behaviour.
use fly_desk.Prelude.{◌≡◌, String, Bool, true, false, Option, none, some}

pub record Processed : Type 1 where
  pub State : Type 0
  pub seen : State → String → String → Bool
  -- `insert_one({"consumer": ..., "event_id": ...})`; `none` is the `DuplicateKeyError`
  pub insert_one : State → String → String → Option State
  pub insert_one-some :
      (s s' : State) (consumer event_id : String)
      → insert_one s consumer event_id ≡ some s'
      → seen s' consumer event_id ≡ true
  pub insert_one-none :
      (s : State) (consumer event_id : String)
      → insert_one s consumer event_id ≡ none
      → seen s consumer event_id ≡ true
  pub insert_one-seen :
      (s : State) (consumer event_id : String)
      → seen s consumer event_id ≡ true
      → insert_one s consumer event_id ≡ none

module _ (p : Processed) where
  abbrev pub marked : p.State → Option p.State → Bool × p.State
  marked s none = (false, s)
  marked s (some s') = (true, s')

  unfoldable pub mark_if_new : String → String → p.State → Bool × p.State
  mark_if_new event_id consumer s = marked s (p.insert_one s consumer event_id)

  marked-seen :
      (s : p.State) (consumer event_id : String) (o : Option p.State)
      → p.insert_one s consumer event_id ≡ o
      → p.seen (marked s o).1 consumer event_id ≡ true
  marked-seen s consumer event_id none e = p.insert_one-none s consumer event_id e
  marked-seen s consumer event_id (some s') e = p.insert_one-some s s' consumer event_id e

  -- Once a consumer has looked at an event, it counts as seen.
  pub mark_if_new-seen :
      (event_id consumer : String) (s : p.State)
      → p.seen (mark_if_new event_id consumer s).1 consumer event_id ≡ true
  unfolding mark_if_new
  mark_if_new-seen event_id consumer s =
      marked-seen s consumer event_id (p.insert_one s consumer event_id)
        (λ i. p.insert_one s consumer event_id)
