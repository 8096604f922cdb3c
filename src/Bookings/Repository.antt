-- ===== src/Bookings/Repository.antt =====
-- `OrderRepository` of flydesk/bookings/repository.py, over a collection with its unique sparse
-- index on `idempotency_key`.
pub mod Laws
pub mod Keys
pub mod Fresh
use fly_desk.Prelude.{
  ℕ, ◌≡◌, ◌≢◌, refl, sym, ap, ◌∙◌, String, Bool, true, false, ◌||◌, Option, none, some, List, [],
  ◌∷◌, str_eq, eq_iff, eq_refl, if◌then◌else◌, Option-cases, Bool-cases, inl, inr, arith,
}
use mathlib.Core.Path.{subst}
use mathlib.Core.Option.{some-injective}
use fly_desk.Prelude.Options.{traverse}
use fly_desk.Errors.{Outcome, returned, raised, validation}
use fly_desk.Domain.Text.{CharTable}
use fly_desk.Domain.Models.{OutboxEvent, Order}
use fly_desk.Mongo.{Collection}
use fly_desk.Bookings.Document.{OrderDoc, to_doc, to_order, reload}
use fly_desk.Bookings.Document.RoundTrip.{IsNormal, to_order-to_doc}

abbrev pub id_of : OrderDoc → String
id_of d = d.doc_id

-- `ensure_order_indexes`: the index on `idempotency_key` is unique and sparse. A stored order has
-- the field always, since `model_dump` writes a null for an absent key.
abbrev pub index_field : OrderDoc → Option (Option String)
index_field d = some d.idempotency_key

-- `{"idempotency_key": key}`
abbrev pub key_is : String → Option String → Bool
key_is key none = false
key_is key (some k) = str_eq k key

abbrev pub is_unpublished : OutboxEvent → Bool
is_unpublished e = elim e.published_at [ none ↦ true | some _ ↦ false ]

-- `{"outbox": {"$elemMatch": {"published_at": None}}}`
unfoldable pub has_unpublished : List OutboxEvent → Bool
has_unpublished [] = false
has_unpublished (e ∷ rest) = is_unpublished e || has_unpublished rest

-- A document that does not pass the validation raises.
abbrev pub loaded : Option Order → Outcome (Option Order)
loaded none = raised (validation "Order")
loaded (some o) = returned (some o)

abbrev pub all_loaded : Option (List Order) → Outcome (List Order)
all_loaded none = raised (validation "Order")
all_loaded (some l) = returned l

module _ (t : CharTable) (col : Collection id_of index_field) where
  unfoldable pub save : col.State → Order → Option col.State
  save s o = let doc = to_doc o in col.replace_one s doc.doc_id doc

  unfoldable pub load : Option OrderDoc → Outcome (Option Order)
  load none = returned none
  load (some d) = loaded (to_order t d)

  unfoldable pub get : col.State → String → Outcome (Option Order)
  get s order_id = load (col.find_one s (λ d. str_eq d.doc_id order_id))

  unfoldable pub find_by_idempotency_key : col.State → String → Outcome (Option Order)
  find_by_idempotency_key s key = load (col.find_one s (λ d. key_is key d.idempotency_key))

  unfoldable pub find_with_unpublished_outbox : col.State → ℕ → Outcome (List Order)
  find_with_unpublished_outbox s limit =
      all_loaded (traverse (to_order t) (col.find s (λ d. has_unpublished d.outbox) limit))

  -- Every stored document is one that a well-formed order was saved as.
  abbrev pub HoldsNormal : col.State → Type 0
  HoldsNormal s =
      (i : String) (d : OrderDoc)
      → col.by_id s i ≡ some d
      → (o : Order) × IsNormal t o × (to_doc o ≡ d)
