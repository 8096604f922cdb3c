-- ===== src/Events/Consumers/Issued.antt =====
-- What the ticketing does with an event that it has not seen.
use fly_desk.Prelude.{
  ◌+◌, ◌≡◌, refl, sym, ap, ◌∙◌, Bool, true, false, String, some, if◌then◌else◌, eq_refl,
}
use fly_desk.Errors.{returned}
use fly_desk.Domain.Enums.{OrderStatus, ticketed}
use fly_desk.Domain.Text.{CharTable}
use fly_desk.Domain.Models.{Order}
use fly_desk.Mongo.{Collection}
use fly_desk.Bookings.Document.{reload}
use fly_desk.Bookings.Document.RoundTrip.{IsNormal}
use fly_desk.Bookings.Repository
use fly_desk.Bookings.Repository.{id_of, index_field, HoldsNormal}
use fly_desk.Bookings.Repository.Laws.{get-IsNormal, stored_doc, get-save, save-HoldsNormal}
use fly_desk.Events.{Message, Ended, Broker, tickets_issued, ticket_value}
use fly_desk.Events.Dedupe.{Processed, marked, mark_if_new}
use fly_desk.Events.Relay.Taken.{TakesAll}
use fly_desk.Events.Relay.Waiting.{save-same_key}
use fly_desk.Events.Consumers.{
  Event, World, issue, is_ticketed, announce, published, stored, ticket, with_order, with_id,
  when_new, once, handle_ticketing,
}

is_ticketed-eq : (s : OrderStatus) → is_ticketed s ≡ true → s ≡ ticketed
unfolding is_ticketed
is_ticketed-eq ticketed h = refl
is_ticketed-eq _ h = cc

module _ (t : CharTable) (col : Collection id_of index_field) (p : Processed) (b : Broker)
    (takes : TakesAll b) where
  -- The work ended with a ticketed order under the id, and the other orders are as they were.
  pub record Ticketed (order_id : String) (o : Order) (w v : World t col p b) : Type 0 where
    pub order : Order
    pub found : Repository.get t col v.orders order_id ≡ returned (some order)
    pub ticketed_now : order.status ≡ ticketed
    pub counted : v.tickets ≡ (if is_ticketed o.status then w.tickets else w.tickets + 1)
    pub normal : HoldsNormal t col v.orders
    pub marked_seen : v.processed ≡ w.processed

  announce-taken :
      (order_id : String) (o : Order) (w : World t col p b)
      → (e : b.Env) × (announce t col p b order_id o w ≡ (returned true, record w { env = e }))
  unfolding announce
  announce-taken order_id o w =
      let (id, env) = b.uuid w.env in
      let m : Message = record {
        topic = tickets_issued;
        key = order_id;
        value = ticket_value id order_id o.booking_reference;
      } in
      (
        (b.publish m env).1,
        ap (λ (r : Ended). published t col p b w (r, (b.publish m env).1)) (takes m env),
      )

  -- The ticketing of an order that is found under its id.
  ticket-Ticketed :
      (order_id : String) (o : Order) (w : World t col p b) (status : Bool)
      → HoldsNormal t col w.orders
      → Repository.get t col w.orders order_id ≡ returned (some o)
      → is_ticketed o.status ≡ status
      → (v : World t col p b) × (ticket t col p b order_id o status w ≡ (returned true, v))
        × Ticketed order_id o w v
  unfolding ticket issue reload
  ticket-Ticketed order_id o w true all found is =
      let (e, ended) = announce-taken order_id o w in
      (
        record w { env = e },
        ended,
        record {
          order = o;
          found = found;
          ticketed_now = is_ticketed-eq o.status is;
          counted = simp is;
          normal = all;
          marked_seen = refl;
        },
      )
  ticket-Ticketed order_id o w false all found is =
      let normal = get-IsNormal t col w.orders order_id o all found in
      let (d, at_id, keyed, same) = stored_doc t col w.orders order_id o all found in
      let copy = issue (b.now w.env) o in
      let copy_normal : IsNormal t copy = record {
        currency = normal.currency;
        slices = normal.slices;
      } in
      let (s, saved) =
        save-same_key t col w.orders copy d (ap (col.by_id w.orders) same ∙ at_id) (sym keyed) in
      let w' = record w { orders = s; tickets = w.tickets + 1 } in
      let (e, ended) = announce-taken order_id copy w' in
      (
        record w' { env = e },
        ap (λ x. stored t col p b order_id copy x w) saved ∙ ended,
        record {
          order = reload copy;
          found =
              ap (Repository.get t col s) (sym same)
              ∙ simp (eq_refl) at (get-save t col w.orders s copy o.id copy_normal saved);
          ticketed_now = refl;
          counted = simp is;
          normal = save-HoldsNormal t col w.orders s copy all copy_normal saved;
          marked_seen = refl;
        },
      )

  -- The ticketing has not seen an event of a stored order, and the broker takes every message. Then it
  -- does its work: the order is ticketed, and a ticket is counted if it was not before.
  pub ticket_issued :
      (e : Event) (order_id : String) (o : Order) (w : World t col p b) (s : p.State)
      → HoldsNormal t col w.orders
      → e.payload.order_id ≡ some order_id
      → p.insert_one w.processed "ticketing" e.id ≡ some s
      → Repository.get t col w.orders order_id ≡ returned (some o)
      → (v : World t col p b) × (handle_ticketing t col p b e w ≡ (returned true, v))
        × Ticketed order_id o (record w { processed = s }) v
  unfolding handle_ticketing once mark_if_new
  ticket_issued e order_id o w s all names new found =
      let u = record w { processed = s } in
      let (v, ended, done) = ticket-Ticketed order_id o u (is_ticketed o.status) all found refl in
      (
        v,
        ap
              (λ x.
                when_new t col p b (with_id t col p b e.payload.order_id) (marked p w.processed x)
                  w)
              new
            ∙ ap (λ x. with_id t col p b x u) names
            ∙ ap (λ x. with_order t col p b order_id x u) found
            ∙ ended,
        done,
      )
