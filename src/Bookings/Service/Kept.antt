-- ===== src/Bookings/Service/Kept.antt =====
-- What a booking of flydesk/bookings/services.py with an idempotency key leaves stored.
use Prim.Native.String.{◌++◌}
use fly_desk.Prelude.{
  ◌≡◌, refl, sym, ap, ◌∙◌, Bool, true, false, String, ◌⊎◌, inl, inr, Option, none, some, List,
  Option-cases, eq_refl,
}
use mathlib.Core.Path.{subst}
use fly_desk.Prelude.Options.{traverse}
use fly_desk.Errors.{Outcome, returned, raised}
use fly_desk.Domain.Text.{CharTable}
use fly_desk.Domain.Models.{BookingPassenger, Order}
use fly_desk.Mongo.{Collection}
use fly_desk.Bookings.Document.{reload}
use fly_desk.Bookings.Document.RoundTrip.{IsNormal}
use fly_desk.Bookings.Repository
use fly_desk.Bookings.Repository.{id_of, index_field, HoldsNormal}
use fly_desk.Bookings.Repository.Laws.{get-save, save-HoldsNormal}
use fly_desk.Bookings.Repository.Keys.{find_by_key_sound}
use fly_desk.Bookings.Service.Ports.{Platform}
use fly_desk.Bookings.Service.{
  World, Request, truthy, stage, continue, find_key, reserve, checked, stage_event, place_order,
  resolve, persist, saved, book, create_with, create_booking, winner_or_raise,
  existing_or_in_progress, book_or_recheck, replay_or_reserve, granted_reply, reservation_ttl,
}

-- The orders that the provider hands out are well-formed: they are built by the domain models.
abbrev pub GivesNormal : CharTable → Platform → Type 0
GivesNormal t p =
    (name : Option String) (offer_id : String) (ps : List BookingPassenger) (e : p.Env) (o : Order)
    → (p.create_order name offer_id ps e).0 ≡ returned o
    → IsNormal t o

module _ (t : CharTable) (col : Collection id_of index_field) (p : Platform)
    (normal : GivesNormal t p) where
  -- The order was read from the store, or has been saved and is read back with its total rounded.
  abbrev pub IsStoredAs : Order → Order → Type 0
  IsStoredAs o y = (y ≡ o) ⊎ (y ≡ reload o)

  -- The order that a call has returned is stored under its id with the key `k`.
  abbrev pub Kept : String → Outcome Order × World t col p → Type 0
  Kept k (returned o, w) =
      HoldsNormal t col w.orders
      × (y : Order) × (Repository.get t col w.orders o.id ≡ returned (some y))
      × (y.idempotency_key ≡ some k)
      × IsStoredAs o y
  Kept k (raised e, w) = Unit

  -- What `place_order` hands on.
  abbrev Ready : String → Outcome Order × World t col p → Type 0
  Ready k (returned o, w) = HoldsNormal t col w.orders × IsNormal t o × (o.idempotency_key ≡ some k)
  Ready k (raised e, w) = Unit

  provided-Ready :
      (k : String) (w : World t col p) (res : Outcome Order)
      → HoldsNormal t col w.orders
      → ((o : Order) → res ≡ returned o → IsNormal t o)
      → Ready k (continue (stage_event t col p (some k)) res w)
  unfolding stage_event stage
  provided-Ready k w (returned o) all h =
      (all, record { currency = (h o refl).currency; slices = (h o refl).slices }, refl)
  provided-Ready k w (raised e) all h = tt

  place_order-Ready :
      (r : Request p) (k : String) (w : World t col p)
      → HoldsNormal t col w.orders
      → Ready k (place_order t col p r (some k) w)
  unfolding place_order
  place_order-Ready r k w all = elim (Option-cases (traverse p.passenger r.passengers_data)) [
    | inl bad ↦ rw (bad, checked) tt
    | inr (passengers, good) ↦
        rw (good, checked)
          (provided-Ready k _ (p.create_order r.provider_name r.offer_id passengers w.env).0 all
            (normal r.provider_name r.offer_id passengers w.env))
  ]

  found-Kept :
      (k : String) (w : World t col p) (found : Outcome (Option Order))
      → HoldsNormal t col w.orders
      → Repository.find_by_idempotency_key t col w.orders k ≡ found
      → Kept k (continue (winner_or_raise t col p) found w)
        × Kept k (continue (existing_or_in_progress t col p) found w)
  found-Kept k w (returned none) all e = (tt, tt)
  found-Kept k w (returned (some o)) all e =
      let (has_key, stored) = find_by_key_sound t col w.orders k o all e in
      ((all, o, stored, has_key, inl refl), (all, o, stored, has_key, inl refl))
  found-Kept k w (raised x) all e = (tt, tt)

  persist-Kept :
      (k : String) (o : Order) (w : World t col p)
      → Ready k (returned o, w)
      → Kept k (persist t col p (some k) o w)
  unfolding persist
  persist-Kept k o w (all, well, has_key) = elim (Option-cases (Repository.save t col w.orders o)) [
    | inl clash ↦
        rw (clash, saved)
          (unfold resolve in
            (found-Kept k w (Repository.find_by_idempotency_key t col w.orders k) all refl).0)
    | inr (orders, stored) ↦
        rw (stored, saved)
          (
            save-HoldsNormal t col w.orders orders o all well stored,
            reload o,
            simp (eq_refl) at (get-save t col w.orders orders o o.id well stored),
            unfold reload in has_key,
            inr refl,
          )
  ]

  book-Kept :
      (r : Request p) (k : String) (w : World t col p)
      → HoldsNormal t col w.orders
      → Kept k (book t col p r (some k) w)
  unfolding book
  book-Kept r k w all =
      go (place_order t col p r (some k) w).0 (place_order t col p r (some k) w).1
        (place_order-Ready r k w all)
    where
      go :
          (res : Outcome Order) (u : World t col p)
          → Ready k (res, u)
          → Kept k (continue (persist t col p (some k)) res u)
      go (returned o) u st = persist-Kept k o u st
      go (raised e) u st = tt

  recheck-Kept :
      (r : Request p) (k : String) (w : World t col p) (free : Bool)
      → HoldsNormal t col w.orders
      → Kept k (book_or_recheck t col p r k free w)
  recheck-Kept r k w true all = book-Kept r k w all
  recheck-Kept r k w false all =
      unfold find_key in
      (found-Kept k w (Repository.find_by_idempotency_key t col w.orders k) all refl).1

  pub create_with-Kept :
      (r : Request p) (k : String) (w : World t col p)
      → HoldsNormal t col w.orders
      → Kept k (create_with t col p r (some k) w)
  unfolding find_key reserve
  create_with-Kept r k w all = go (Repository.find_by_idempotency_key t col w.orders k) refl
    where
      go :
          (found : Outcome (Option Order))
          → Repository.find_by_idempotency_key t col w.orders k ≡ found
          → Kept k (continue (replay_or_reserve t col p r k) found w)
      go (returned none) e =
          recheck-Kept r k _
            (granted_reply t col p (p.set_nx ("idem:" ++ k) reservation_ttl w.env).0) all
      go (returned (some o)) e =
          let (has_key, stored) = find_by_key_sound t col w.orders k o all e in
          (all, o, stored, has_key, inl refl)
      go (raised x) e = tt

  -- A returned order is stored under its id with the key of the request.
  pub create_booking-Kept :
      (r : Request p) (k : String) (w w' : World t col p) (o : Order)
      → HoldsNormal t col w.orders
      → truthy r.idempotency_key ≡ some k
      → create_booking t col p r w ≡ (returned o, w')
      → Kept k (returned o, w')
  unfolding create_booking
  create_booking-Kept r k w w' o all er e =
      subst (Kept k) (ap (λ m. create_with t col p r m w) (sym er) ∙ e) (create_with-Kept r k w all)
