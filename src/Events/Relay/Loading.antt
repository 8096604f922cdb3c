-- ===== src/Events/Relay/Loading.antt =====
-- What a round of the relay of flydesk/events/relay.py finds in the collection of orders.
use fly_desk.Prelude.{
  suc, ◌≤◌, ◌≡◌, refl, sym, ap, ◌∙◌, ℕ, Bool, String, true, false, inl, inr, some, List, [], ◌∷◌,
  Bool-cases, Option, none,
}
use fly_desk.Prelude.Lists.{All, In, length}
use fly_desk.Prelude.Options.{traverse}
use fly_desk.Errors.{returned}
use fly_desk.Domain.Text.{CharTable}
use fly_desk.Domain.Time.{Datetime}
use fly_desk.Domain.Models.{OutboxEvent, Order}
use fly_desk.Mongo.{Collection}
use fly_desk.Bookings.Document.{OrderDoc, to_doc, to_order, reload}
use fly_desk.Bookings.Document.RoundTrip.{to_order-to_doc}
use fly_desk.Bookings.Repository
use fly_desk.Bookings.Repository.{id_of, index_field, is_unpublished, has_unpublished, HoldsNormal}
use fly_desk.Events.Relay.Waiting.{HasId, Todo, Waits}

-- A query that finds fewer documents than it was asked for has found all.
abbrev pub FindsAll : Collection id_of index_field → Type 0
FindsAll col =
    (s : col.State) (q : OrderDoc → Bool) (n : ℕ) (i : String) (d : OrderDoc)
    → suc (length (col.find s q n)) ≤ n
    → col.by_id s i ≡ some d
    → q d ≡ true
    → In d (col.find s q n)

-- An order that is found has its id in the list.
pub In-HasId : (i : String) (o : Order) (l : List Order) → In o l → o.id ≡ i → HasId i l
In-HasId i o [] h e = absurd h
In-HasId i o (p ∷ l) (inl same) e = inl (ap (λ (x : Order). x.id) same ∙ e)
In-HasId i o (p ∷ l) (inr later) e = inr (In-HasId i o l later e)

-- The event has a time at which it was published.
abbrev pub IsPublished : OutboxEvent → Type 0
IsPublished e = (at_time : Datetime) × (e.published_at ≡ some at_time)

published-some :
    (p : Option Datetime)
    → (elim p [ none ↦ true | some _ ↦ false ]) ≡ false
    → (at_time : Datetime) × (p ≡ some at_time)
published-some none h = cc
published-some (some d) h = (d, refl)

IsPublished-All : (l : List OutboxEvent) → has_unpublished l ≡ false → All IsPublished l
unfolding has_unpublished
IsPublished-All [] h = tt
IsPublished-All (e ∷ l) h = elim (Bool-cases (is_unpublished e)) [
  | inl waits ↦ cc (simp waits at h)
  | inr done ↦ (published-some e.published_at done, IsPublished-All l (simp done at h))
]

module _ (t : CharTable) (col : Collection id_of index_field) where
  -- Each document of the list is read as an order that waits.
  pub record Loaded (docs : List OrderDoc) (s : col.State) : Type 0 where
    pub orders : List Order
    pub loaded : traverse (to_order t) docs ≡ some orders
    pub todo : All (Todo t col s) orders
    pub found :
        (d : OrderDoc)
        → In d docs
        → (o : Order) × In o orders × (o.id ≡ d.doc_id) × (o.outbox ≡ d.outbox)

  pub load_all :
      (s : col.State) (docs : List OrderDoc)
      → HoldsNormal t col s
      → All (λ d. (col.by_id s (id_of d) ≡ some d) × (has_unpublished d.outbox ≡ true)) docs
      → Loaded docs s
  unfolding traverse to_doc reload
  load_all s [] all h = record { orders = []; loaded = refl; todo = tt; found = λ d i. elim i [ ] }
  load_all s (d ∷ docs) all h =
      let rest = load_all s docs all h.1 in
      let (o, normal, same) = all d.doc_id d h.0.0 in
      let back : to_order t d ≡ some (reload o) =
        ap (to_order t) (sym same) ∙ to_order-to_doc t o normal in
      let id : o.id ≡ d.doc_id = ap (λ (x : OrderDoc). x.doc_id) same in
      record {
        orders = reload o ∷ rest.orders;
        loaded = simp (back, rest.loaded);
        todo = (
          (
            record { currency = normal.currency; slices = normal.slices },
            ap (λ (x : OrderDoc). has_unpublished x.outbox) same ∙ h.0.1,
            d,
            ap (col.by_id s) id ∙ h.0.0,
            ap (λ (x : OrderDoc). x.idempotency_key) (sym same),
          ),
          rest.todo,
        );
        found = λ e i. elim i [
          | inl here ↦ (
            reload o,
            inl refl,
            id ∙ ap (λ (x : OrderDoc). x.doc_id) here,
            ap (λ (x : OrderDoc). x.outbox) same ∙ ap (λ (x : OrderDoc). x.outbox) here,
          )
          | inr later ↦
              let (x, i, same_id, outbox) = rest.found e later in (x, inr i, same_id, outbox)
        ];
      }

  -- What a query for waiting documents gives where none waits.
  none_found :
      (s : col.State) (docs : List OrderDoc)
      → Waits t col [] s
      → All (λ d. (col.by_id s (id_of d) ≡ some d) × (has_unpublished d.outbox ≡ true)) docs
      → docs ≡ []
  none_found s [] w h = refl
  none_found s (d ∷ docs) w h = absurd (w.covered d.doc_id d h.0.0 h.0.1)

  pub none-Waits :
      (s : col.State)
      → Waits t col [] s
      → Repository.find_with_unpublished_outbox t col s 100 ≡ returned []
  unfolding Repository.find_with_unpublished_outbox traverse
  none-Waits s w =
      ap (λ docs. Repository.all_loaded (traverse (to_order t) docs))
        (none_found s (col.find s (λ d. has_unpublished d.outbox) 100) w
          (col.find-stored s (λ d. has_unpublished d.outbox) 100))

  -- No event of a stored order waits.
  abbrev pub NoneWaits : col.State → Type 0
  NoneWaits s = (i : String) (d : OrderDoc) → col.by_id s i ≡ some d → All IsPublished d.outbox

  pub Waits-NoneWaits : (s : col.State) → Waits t col [] s → NoneWaits s
  Waits-NoneWaits s w i d stored = elim (Bool-cases (has_unpublished d.outbox)) [
    | inl waits ↦ absurd (w.covered i d stored waits)
    | inr done ↦ IsPublished-All d.outbox done
  ]
