-- ===== src/Bookings/Service/Refusal.antt =====
-- Two situations in which flydesk/bookings/services.py refuses a booking that nothing stands against.
use mathlib.Core.Path.{subst}
use fly_desk.Prelude.{
  ◌≡◌, ◌≢◌, refl, sym, ap, ◌∙◌, false, String, inl, inr, none, some, Option-cases, eq_iff, eq_refl,
  str_eq, arith,
}
use fly_desk.Errors.{Outcome, returned, raised, duplicate_key}
use fly_desk.Domain.Text.{CharTable}
use fly_desk.Domain.Models.{Order}
use fly_desk.Mongo.{Collection}
use fly_desk.Bookings.Document.{reload}
use fly_desk.Bookings.Document.RoundTrip.{IsNormal}
use fly_desk.Bookings.Repository
use fly_desk.Bookings.Repository.{id_of, index_field, HoldsNormal}
use fly_desk.Bookings.Repository.Laws.{get-save, save-HoldsNormal}
use fly_desk.Bookings.Repository.Keys.{key_unique}
use fly_desk.Bookings.Service.Ports.{Platform}
use fly_desk.Bookings.Service.Effects.{place_order-Staged, Staged}
use fly_desk.Bookings.Service.{
  World, Request, truthy, continue, place_order, resolve, persist, saved, book, create_with,
  create_booking,
}

ids_differ : (i j : String) → i ≢ j → str_eq i j ≡ false
ids_differ i j h = ground (arith, eq_iff i j)

module _ (t : CharTable) (col : Collection id_of index_field) (p : Platform) where
  keyless_clash :
      (s : col.State) (i : String) (a o : Order)
      → HoldsNormal t col s
      → Repository.get t col s i ≡ returned (some a)
      → a.idempotency_key ≡ none
      → IsNormal t o
      → o.idempotency_key ≡ none
      → o.id ≢ i
      → Repository.save t col s o ≡ none
  keyless_clash s i a o all there keyless well keyless' differ =
      elim (Option-cases (Repository.save t col s o)) [
        | inl clash ↦ clash
        | inr (s', stored) ↦ absurd (
            differ (
              key_unique t col s' o.id i (reload o) a
                (save-HoldsNormal t col s s' o all well stored)
                (simp (eq_refl) at (get-save t col s s' o o.id well stored))
                (simp (ids_differ o.id i differ) at (get-save t col s s' o i well stored) ∙ there)
                (unfold reload in keyless' ∙ sym keyless)))
      ]

  book_clash :
      (r : Request p) (w w' : World t col p) (o : Order)
      → place_order t col p r none w ≡ (returned o, w')
      → Repository.save t col w'.orders o ≡ none
      → book t col p r none w ≡ (raised duplicate_key, w')
  unfolding book persist resolve
  book_clash r w w' o placed clash =
      ap (λ (x : Outcome Order × World t col p). continue (persist t col p none) x.0 x.1) placed
      ∙ rw (clash, saved)

  -- While an order without an idempotency key is stored, a booking without one fails after the
  -- provider has made the order: the unique sparse index holds the null of the stored order too.
  pub keyless_refused :
      (r : Request p) (w w' : World t col p) (i : String) (a o : Order)
      → HoldsNormal t col w.orders
      → Repository.get t col w.orders i ≡ returned (some a)
      → a.idempotency_key ≡ none
      → truthy r.idempotency_key ≡ none
      → place_order t col p r none w ≡ (returned o, w')
      → IsNormal t o
      → o.idempotency_key ≡ none
      → o.id ≢ i
      → create_booking t col p r w ≡ (raised duplicate_key, w')
  unfolding create_booking
  keyless_refused r w w' i a o all there keyless none_given placed well keyless' differ =
      ap (λ m. create_with t col p r m w) none_given
      ∙ book_clash r w w' o placed (
          keyless_clash w'.orders i a o (subst (HoldsNormal t col) same all)
            (ap (λ s. Repository.get t col s i) (sym same) ∙ there) keyless well keyless' differ)
    where
      same : w.orders ≡ w'.orders
      same =
          sym
            (subst (Staged t col p w) placed
              (place_order-Staged t col p r none w w (refl, refl))).0.0
