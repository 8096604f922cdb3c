-- ===== src/Events/Consumers/Idempotence.antt =====
-- Redelivery of an event to the consumers of flydesk/events/consumers.py.
use fly_desk.Prelude.{◌+◌, ◌≡◌, refl, sym, ap, ◌∙◌, String, Bool, true, false, Option, none, some}
use fly_desk.Errors.{Exception, Outcome, returned, raised}
use fly_desk.Domain.Models.{Order}
use fly_desk.Domain.Text.{CharTable}
use fly_desk.Mongo.{Collection}
use fly_desk.Bookings.Repository.{id_of, index_field}
use fly_desk.Bookings.Repository
use fly_desk.Events.{Broker, Ended}
use fly_desk.Events.Dedupe.{Processed, marked, mark_if_new, mark_if_new-seen}
use fly_desk.Events.Consumers.{
  Event, World, Action, when_new, once, published, announce, stored, ticket, with_order, with_id,
  is_ticketed, handle_ticketing, handle_notification, audited, handle_audit, consume, after_done,
}

module _ (t : CharTable) (col : Collection id_of index_field) (p : Processed) (b : Broker) where
  -- Work that leaves the list of processed events alone.
  abbrev LeavesProcessed : Action t col p b Bool → Type 0
  LeavesProcessed work = (w : World t col p b) → (work w).1.processed ≡ w.processed

  new-seen :
      (id consumer : String) (work : Action t col p b Bool) (w : World t col p b)
      (m : Bool × p.State)
      → LeavesProcessed work
      → p.seen m.1 consumer id ≡ true
      → p.seen (when_new t col p b work m w).1.processed consumer id ≡ true
  new-seen id consumer work w (true, s) leaves h =
      ap (λ u. p.seen u consumer id) (leaves (record w { processed = s })) ∙ h
  new-seen id consumer work w (false, s) leaves h = h

  once-again :
      (id consumer : String) (work : Action t col p b Bool) (w : World t col p b)
      → p.seen w.processed consumer id ≡ true
      → once t col p b id consumer work w ≡ (returned false, w)
  unfolding once mark_if_new
  once-again id consumer work w seen =
      ap (λ o. when_new t col p b work (marked p w.processed o) w)
        (p.insert_one-seen w.processed consumer id seen)

  once_twice :
      (id consumer : String) (work work2 : Action t col p b Bool) (w : World t col p b)
      → LeavesProcessed work
      → let w' = (once t col p b id consumer work w).1 in
        once t col p b id consumer work2 w' ≡ (returned false, w')
  unfolding once
  once_twice id consumer work work2 w leaves =
      once-again id consumer work2 (once t col p b id consumer work w).1 (
        new-seen id consumer work w (mark_if_new p id consumer w.processed) leaves
          (mark_if_new-seen p id consumer w.processed))

  published-Leaves :
      (w : World t col p b) (x : Ended × b.Env)
      → (published t col p b w x).1.processed ≡ w.processed
  published-Leaves w (returned _, env) = refl
  published-Leaves w (raised e, env) = refl

  announce-Leaves :
      (order_id : String) (o : Order) → LeavesProcessed (announce t col p b order_id o)
  unfolding announce
  announce-Leaves order_id o w = published-Leaves w _

  stored-Leaves :
      (order_id : String) (o : Order) (s : Option col.State)
      → LeavesProcessed (stored t col p b order_id o s)
  stored-Leaves order_id o none w = refl
  stored-Leaves order_id o (some orders) w =
      announce-Leaves order_id o (record w { orders = orders; tickets = w.tickets + 1 })

  ticket-Leaves :
      (order_id : String) (o : Order) (done : Bool)
      → LeavesProcessed (ticket t col p b order_id o done)
  unfolding ticket
  ticket-Leaves order_id o true w = announce-Leaves order_id o w
  ticket-Leaves order_id o false w = stored-Leaves order_id _ _ w

  with_order-Leaves :
      (order_id : String) (r : Outcome (Option Order))
      → LeavesProcessed (with_order t col p b order_id r)
  with_order-Leaves order_id (raised e) w = refl
  with_order-Leaves order_id (returned none) w = refl
  with_order-Leaves order_id (returned (some o)) w =
      ticket-Leaves order_id o (is_ticketed o.status) w

  with_id-Leaves : (i : Option String) → LeavesProcessed (with_id t col p b i)
  with_id-Leaves none w = refl
  with_id-Leaves (some order_id) w =
      with_order-Leaves order_id (Repository.get t col w.orders order_id) w

  pub ticketing_seen :
      (e : Event) (w : World t col p b)
      → p.seen (handle_ticketing t col p b e w).1.processed "ticketing" e.id ≡ true
  unfolding handle_ticketing once
  ticketing_seen e w =
      new-seen e.id "ticketing" (with_id t col p b e.payload.order_id) w
        (mark_if_new p e.id "ticketing" w.processed) (with_id-Leaves e.payload.order_id)
        (mark_if_new-seen p e.id "ticketing" w.processed)

  pub seen_ignored :
      (e : Event) (w : World t col p b)
      → p.seen w.processed "ticketing" e.id ≡ true
      → handle_ticketing t col p b e w ≡ (returned false, w)
  unfolding handle_ticketing
  seen_ignored e w seen = once-again e.id "ticketing" (with_id t col p b e.payload.order_id) w seen

  -- However a consumer ended on an event, with an exception too: handling an event with that id
  -- again answers that it is a duplicate and changes nothing. This holds of each of the three.
  pub redelivery_ignored :
      (e e2 : Event) (w : World t col p b)
      → e2.id ≡ e.id
      → (let w' = (handle_ticketing t col p b e w).1 in
          handle_ticketing t col p b e2 w' ≡ (returned false, w'))
        × (let w' = (handle_notification t col p b e w).1 in
            handle_notification t col p b e2 w' ≡ (returned false, w'))
        × (let w' = (handle_audit t col p b e w).1 in
            handle_audit t col p b e2 w' ≡ (returned false, w'))
  unfolding handle_ticketing handle_notification handle_audit audited
  redelivery_ignored e e2 w same = (
    ap
          (λ i.
            once t col p b i "ticketing" (with_id t col p b e2.payload.order_id)
              (handle_ticketing t col p b e w).1)
          same
        ∙ once_twice e.id "ticketing" (with_id t col p b e.payload.order_id)
            (with_id t col p b e2.payload.order_id) w (with_id-Leaves e.payload.order_id),
    ap
          (λ i.
            once t col p b i "notifications" (λ v. (returned true, v))
              (handle_notification t col p b e w).1)
          same
        ∙ once_twice e.id "notifications" (λ v. (returned true, v)) (λ v. (returned true, v)) w
            (λ v. refl),
    ap (λ i. once t col p b i "audit" (audited t col p b e2) (handle_audit t col p b e w).1) same
        ∙ once_twice e.id "audit" (audited t col p b e) (audited t col p b e2) w (λ v. refl),
  )

  after_ticketing :
      (x : Outcome Bool × World t col p b)
      → (f : Action t col p b Bool) → ((v : World t col p b) → (f v).1.env ≡ v.env)
      → (after_done t col p b x f).1.env ≡ x.1.env
  after_ticketing (returned _, w) f keeps = keeps w
  after_ticketing (raised e, w) f keeps = refl

  quiet_once :
      (id consumer : String) (work : Action t col p b Bool) (w : World t col p b)
      → ((v : World t col p b) → (work v).1.env ≡ v.env)
      → (once t col p b id consumer work w).1.env ≡ w.env
  unfolding once
  quiet_once id consumer work w keeps = go (mark_if_new p id consumer w.processed)
    where
      go : (m : Bool × p.State) → (when_new t col p b work m w).1.env ≡ w.env
      go (true, s) = keeps (record w { processed = s })
      go (false, s) = refl

  -- If the ticketing of an event has failed, be it that the announcement of an issued ticket could
  -- not be sent, then a redelivery of that event does not reach the broker at all.
  pub failed_ticketing_lost :
      (e : Event) (w w' : World t col p b) (x : Exception)
      → handle_ticketing t col p b e w ≡ (raised x, w')
      → (consume t col p b e w ≡ (raised x, w')) × ((consume t col p b e w').1.env ≡ w'.env)
  unfolding consume handle_notification handle_audit audited
  failed_ticketing_lost e w w' x failed = (
    ap (λ y. after_done t col p b y rest) failed,
    after_ticketing (handle_ticketing t col p b e w') rest (λ v.
          after_ticketing (handle_notification t col p b e v) (handle_audit t col p b e)
            (λ u. quiet_once e.id "audit" (audited t col p b e) u (λ z. refl))
          ∙ quiet_once e.id "notifications" (λ z. (returned true, z)) v (λ z. refl))
        ∙ ap (λ (y : Outcome Bool × World t col p b). y.1.env)
            (ap (λ u. handle_ticketing t col p b e u)
                (sym (ap (λ (y : Outcome Bool × World t col p b). y.1) failed))
              ∙ (redelivery_ignored e e w refl).0)
        ∙ ap (λ (y : Outcome Bool × World t col p b). y.1.env) failed,
  )
    where
      rest : Action t col p b Bool
      rest v = after_done t col p b (handle_notification t col p b e v) (handle_audit t col p b e)
