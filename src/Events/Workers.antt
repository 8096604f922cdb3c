-- ===== src/Events/Workers.antt =====
-- The loops of flydesk/events/management/commands/consume_events.py and relay_outbox.py. The consumer's
-- messages are given as a list; the relay's loop goes on for a number of rounds.
use fly_desk.Prelude.{ℕ, zero, suc, ◌≤◌, ◌≡◌, refl, Bool, List, [], ◌∷◌, arith, if◌then◌else◌}
use fly_desk.Prelude.Lists.{length}
use fly_desk.Errors.{Outcome, returned, raised}
use fly_desk.Domain.Text.{CharTable}
use fly_desk.Mongo.{Collection}
use fly_desk.Bookings.Repository.{id_of, index_field}
use fly_desk.Events.{Broker}
use fly_desk.Events.Dedupe.{Processed}
use fly_desk.Events.Relay as Relay
use fly_desk.Events.Relay.{relay_once}
use fly_desk.Events.Consumers.{World, Event, consume}

module _ (t : CharTable) (col : Collection id_of index_field) (p : Processed) (b : Broker) where
  -- What the consuming loop leaves: how many offsets it has committed, and how it ended.
  abbrev pub Consumed : Type 0
  Consumed = ℕ × Outcome (Unit {0}) × World t col p b

  abbrev pub committed : Consumed → Consumed
  committed (n, res, w) = (suc n, res, w)

  -- `Command._run` of consume_events.py: each message is committed after its consumers have ended; an
  -- exception ends the loop.
  unfoldable pub consume_all : List Event → World t col p b → Consumed
  consume_all [] w = (0, returned tt, w)
  consume_all (event ∷ rest) w =
      let (res, w') = consume t col p b event w in
      elim res [ returned _ ↦ committed (consume_all rest w') | raised e ↦ (0, raised e, w') ]

  abbrev pub Counted : List Event → Consumed → Type 0
  Counted events (n, returned _, w) = n ≡ length events
  Counted events (n, raised e, w) = suc n ≤ length events

  committed-Counted :
      (event : Event) (rest : List Event) (x : Consumed)
      → Counted rest x
      → Counted (event ∷ rest) (committed x)
  committed-Counted event rest (n, returned _, w) h = omega (arith, h)
  committed-Counted event rest (n, raised e, w) h = omega arith

  -- A loop that ends well has committed every message. One that ends with an exception has left at
  -- least one message uncommitted.
  pub consume_all-Counted :
      (events : List Event) (w : World t col p b) → Counted events (consume_all events w)
  unfolding consume_all
  consume_all-Counted [] w = refl
  consume_all-Counted (event ∷ rest) w =
      go (λ v. consume_all-Counted rest v) (consume t col p b event w)
    where
      go :
          ((v : World t col p b) → Counted rest (consume_all rest v))
          → (x : Outcome Bool × World t col p b)
          → Counted (event ∷ rest) (elim x.0 [
            | returned _ ↦ committed (consume_all rest x.1)
            | raised e ↦ (0, raised e, x.1)
          ])
      go counted (returned _, w') = committed-Counted event rest (consume_all rest w') (counted w')
      go counted (raised e, w') = omega arith

module _ (t : CharTable) (col : Collection id_of index_field) (b : Broker)
    (sleep : b.Env → b.Env) where
  -- `Command._run` of relay_outbox.py for at most so many rounds
  unfoldable pub relay_rounds :
      ℕ → Bool → Relay.World col b → Outcome (Unit {0}) × Relay.World col b
  relay_rounds zero once w = (returned tt, w)
  relay_rounds (suc n) once w =
      let (res, w') = relay_once t col b w in
      let more = relay_rounds n once (record w' { env = sleep w'.env }) in
      elim res [ returned _ ↦ if once then (returned tt, w') else more | raised e ↦ (raised e, w') ]
