-- ===== src/Demo/App/Shown.antt =====
-- The bookings that demo/app.py shows.
use fly_desk.Prelude.{ℕ, suc, arith, ◌≤◌, ◌≡◌, refl, sym, ap, ◌∙◌, some, List, [], ◌∷◌, map}
use fly_desk.Prelude.Lists.{All, length}
use fly_desk.Prelude.Options.{traverse}
use fly_desk.Errors.{returned, validation}
use fly_desk.Errors.Actions.{or_raise}
use fly_desk.Domain.Text.{CharTable}
use fly_desk.Domain.Models.{Order}
use fly_desk.Mongo.{Collection}
use fly_desk.Bookings.Document.{OrderDoc, to_doc, to_order, reload}
use fly_desk.Bookings.Document.RoundTrip.{to_order-to_doc}
use fly_desk.Bookings.Repository
use fly_desk.Bookings.Repository.{id_of, index_field, HoldsNormal, load, loaded}
use fly_desk.Bookings.Repository.Laws.{get-by_id}
use fly_desk.Bookings.Service.{World}
use fly_desk.Search.FanOut.{Loop}
use fly_desk.Search.Cache.{Platform}
use fly_desk.Demo.Seed.{Shop}
use fly_desk.Demo.App.{Newest, injected, reply_of, bookings_answer, bookings}
use fly_desk.Demo.Cockpit.{Cockpit, answered, BookingsAnswer}

-- The query gives stored documents, and no more than it was asked for.
pub record IsNewest (col : Collection id_of index_field) (newest : Newest col) : Type 0 where
  pub stored : (s : col.State) (n : ℕ) → All (λ d. col.by_id s (id_of d) ≡ some d) (newest s n)
  pub limited : (s : col.State) (n : ℕ) → length (newest s n) ≤ n

module _ (t : CharTable) (col : Collection id_of index_field) (s : col.State)
    (all : HoldsNormal t col s) where
  -- The document is that of the order which the repository finds under its id.
  abbrev pub IsStored : OrderDoc → Type 0
  IsStored doc =
      (o : Order) × (Repository.get t col s doc.doc_id ≡ returned (some o)) × (to_doc o ≡ doc)

  pub record Loaded (docs : List OrderDoc) : Type 0 where
    pub orders : List Order
    pub found : traverse (to_order t) docs ≡ some orders
    pub same_length : length orders ≡ length docs
    pub shown : All IsStored (map to_doc orders)

  load_all : (docs : List OrderDoc) → All (λ d. col.by_id s (id_of d) ≡ some d) docs → Loaded docs
  unfolding traverse load reload to_doc
  load_all [] h = record { orders = []; found = refl; same_length = refl; shown = tt }
  load_all (d ∷ docs) h =
      let rest = load_all docs h.1 in
      let (o, normal, same) = all (id_of d) d h.0 in
      let back : to_order t d ≡ some (reload o) =
        ap (to_order t) (sym same) ∙ to_order-to_doc t o normal in
      let id : o.id ≡ d.doc_id = ap (λ (x : OrderDoc). x.doc_id) same in
      record {
        orders = reload o ∷ rest.orders;
        found = simp (back, rest.found);
        same_length = ap suc rest.same_length;
        shown = (
          (
            reload o,
            get-by_id t col s o.id
                ∙ ap (λ i. load t col (col.by_id s i)) id
                ∙ ap (load t col) h.0
                ∙ ap loaded back,
            refl,
          ),
          rest.shown,
        );
      }

-- The list of bookings is always answered, with at most fifty of them and with their number, and each
-- one is the booking that the repository finds under its id.
pub bookings_shown :
    (t : CharTable) (l : Loop) (r : Platform l) (d : Shop l r) (a : Cockpit r)
    (col : Collection id_of index_field) (newest : Newest col)
    (w : World t col (injected t l r d a))
    → IsNewest col newest
    → (all : HoldsNormal t col w.orders)
    → (b : BookingsAnswer) × (bookings t l r d a col newest w ≡ (answered b, w))
      × (b.count ≡ length b.bookings)
      × (b.count ≤ 50)
      × All (IsStored t col w.orders all) b.bookings
unfolding bookings bookings_answer
bookings_shown t l r d a col newest w query all =
    let x = load_all t col w.orders all (newest w.orders 50) (query.stored w.orders 50) in
    (
      record { count = length x.orders; bookings = map to_doc x.orders },
      ap (λ m. reply_of (bookings_answer t l r d a col newest) (or_raise (validation "Order") m w))
          x.found,
      length-map x.orders,
      omega (arith, x.same_length, query.limited w.orders 50),
      x.shown,
    )
  where
    length-map : (l : List Order) → length l ≡ length (map to_doc l)
    length-map [] = refl
    length-map (o ∷ l) = ap suc (length-map l)
