-- ===== src/Bookings/Service/Phases.antt =====
-- `create_booking` of flydesk/bookings/services.py cut at its calls of shared services, so that
-- several requests can run interleaved.
pub mod Alone
use Prim.Native.String.{◌++◌}
use fly_desk.Prelude.{Bool, true, false, String, Option, none, some, ◌+◌}
use fly_desk.Errors.{
  Exception, Outcome, returned, raised, duplicate_key, domain, init, booking_in_progress,
}
use fly_desk.Domain.Text.{CharTable}
use fly_desk.Domain.Models.{Order}
use fly_desk.Mongo.{Collection}
use fly_desk.Bookings.Repository
use fly_desk.Bookings.Repository.{id_of, index_field}
use fly_desk.Bookings.Service.Ports.{Platform}
use fly_desk.Bookings.Service.{
  World, Request, truthy, find_key, reserve, place_order, resolve, persist,
}

-- Where a request stands: what it does next, with what it has in hand.
pub data Phase : Type 0 where
  looking : Phase
  reserving : String → Phase
  rechecking : String → Phase
  ordering : Option String → Phase
  saving : Option String → Order → Phase
  resolving : String → Phase
  done : Outcome Order → Phase

-- After `find_by_idempotency_key`, the first time, the second time and for the winner of a race.
abbrev pub after_looking : String → Outcome (Option Order) → Phase
after_looking key (returned none) = reserving key
after_looking key (returned (some existing)) = done (returned existing)
after_looking key (raised e) = done (raised e)

abbrev pub after_rechecking : Outcome (Option Order) → Phase
after_rechecking (returned none) = done (raised (domain (init booking_in_progress none)))
after_rechecking (returned (some existing)) = done (returned existing)
after_rechecking (raised e) = done (raised e)

abbrev pub after_resolving : Outcome (Option Order) → Phase
after_resolving (returned none) = done (raised duplicate_key)
after_resolving (returned (some winner)) = done (returned winner)
after_resolving (raised e) = done (raised e)

abbrev pub after_reserving : String → Outcome Bool → Phase
after_reserving key (returned true) = ordering (some key)
after_reserving key (returned false) = rechecking key
after_reserving key (raised e) = done (raised e)

abbrev pub after_ordering : Option String → Outcome Order → Phase
after_ordering key (returned order) = saving key order
after_ordering key (raised e) = done (raised e)

abbrev pub clash : Option String → Phase
clash none = done (raised duplicate_key)
clash (some key) = resolving key

module _ (t : CharTable) (col : Collection id_of index_field) (p : Platform) where
  abbrev pub start_with : Option String → World t col p → Phase × World t col p
  start_with none w = (ordering none, w)
  start_with (some key) w =
      let (found, w') = find_key t col p key w in (after_looking key found, w')

  abbrev pub after_saving :
      Option String → Order → Option col.State → World t col p → Phase × World t col p
  after_saving key order none w = (clash key, w)
  after_saving key order (some orders) w =
      (done (returned order), record w { orders = orders; bookings = w.bookings + 1 })

  -- One atomic step of a request.
  unfoldable pub step : Request p → Phase → World t col p → Phase × World t col p
  step r looking w = start_with (truthy r.idempotency_key) w
  step r (reserving key) w =
      let (free, w') = reserve t col p key w in (after_reserving key free, w')
  step r (rechecking key) w =
      let (found, w') = find_key t col p key w in (after_rechecking found, w')
  step r (ordering key) w =
      let (res, w') = place_order t col p r key w in (after_ordering key res, w')
  step r (saving key order) w = after_saving key order (Repository.save t col w.orders order) w
  step r (resolving key) w = let (found, w') = find_key t col p key w in (after_resolving found, w')
  step r (done res) w = (done res, w)
