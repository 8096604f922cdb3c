-- ===== src/Events/Relay/Waiting.antt =====
-- What is known of the stored orders while a relay goes through those that wait.
use mathlib.Core.Option.{some-injective}
use fly_desk.Prelude.{
  ◌≡◌, sym, ap, ◌∙◌, String, true, false, ◌⊎◌, inl, inr, some, List, [], ◌∷◌, str_eq, eq_iff,
  Bool-cases, Option-cases,
}
use fly_desk.Prelude.Lists.{All}
use fly_desk.Domain.Text.{CharTable}
use fly_desk.Domain.Models.{OutboxEvent, Order}
use fly_desk.Mongo.{Collection}
use fly_desk.Bookings.Document.{OrderDoc, to_doc}
use fly_desk.Bookings.Document.RoundTrip.{IsNormal}
use fly_desk.Bookings.Repository
use fly_desk.Bookings.Repository.{id_of, index_field, is_unpublished, has_unpublished, HoldsNormal}
use fly_desk.Bookings.Repository.Laws.{by_id-save, save-HoldsNormal}
use fly_desk.Events.Relay.Laws.{with_outbox}

-- An order of the list has the id.
abbrev pub HasId : String → List Order → Type 0
HasId i [] = ⊥
HasId i (o ∷ rest) = (o.id ≡ i) ⊎ HasId i rest

module _ (t : CharTable) (col : Collection id_of index_field) where
  -- A waiting order, stored under its key.
  abbrev pub Todo : col.State → Order → Type 0
  Todo s o =
      IsNormal t o
      × (has_unpublished o.outbox ≡ true)
      × (d : OrderDoc) × (col.by_id s o.id ≡ some d)
      × (d.idempotency_key ≡ o.idempotency_key)

  -- What is known of the orders that are still to be relayed, and of those stored.
  pub record Waits (rest : List Order) (s : col.State) : Type 0 where
    pub normal : HoldsNormal t col s
    pub todo : All (Todo s) rest
    pub covered :
        (i : String) (d : OrderDoc)
        → col.by_id s i ≡ some d
        → has_unpublished d.outbox ≡ true
        → HasId i rest

  -- An order that is stored under its key can be saved again with that key.
  pub save-same_key :
      (s : col.State) (o : Order) (d : OrderDoc)
      → col.by_id s o.id ≡ some d
      → d.idempotency_key ≡ o.idempotency_key
      → (s' : col.State) × (Repository.save t col s o ≡ some s')
  unfolding Repository.save to_doc
  save-same_key s o d stored keyed = elim (Option-cases (Repository.save t col s o)) [
    | inl clash ↦
        let (e, found, differ, same) = col.replace_one-none s (to_doc o) clash in
        absurd (
          differ
            (col.unique s (id_of e) o.id e d o.idempotency_key found stored same (ap some keyed)))
    | inr saved ↦ saved
  ]

  saved-Todo :
      (o p : Order) (l : List OutboxEvent) (s s' : col.State)
      → Todo s o
      → Repository.save t col s (with_outbox o l) ≡ some s'
      → Todo s p
      → Todo s' p
  unfolding to_doc
  saved-Todo o p l s s' (_, _, d, at_o, key_o) saved (normal, waits, e, at_p, key_p) =
      let found = by_id-save t col s s' (with_outbox o l) p.id saved in
      elim (Bool-cases (str_eq o.id p.id)) [
        | inl here ↦
            let same : d ≡ e =
              some-injective d e (sym at_o ∙ ap (col.by_id s) ((eq_iff o.id p.id).0 here) ∙ at_p) in
            (
              normal,
              waits,
              to_doc (with_outbox o l),
              simp here at found,
              sym key_o ∙ ap (λ (x : OrderDoc). x.idempotency_key) same ∙ key_p,
            )
        | inr away ↦ (normal, waits, e, simp away at found ∙ at_p, key_p)
      ]

  saved_all-Todo :
      (o : Order) (rest : List Order) (l : List OutboxEvent) (s s' : col.State)
      → Todo s o
      → Repository.save t col s (with_outbox o l) ≡ some s'
      → All (Todo s) rest
      → All (Todo s') rest
  saved_all-Todo o [] l s s' at_o saved h = tt
  saved_all-Todo o (p ∷ rest) l s s' at_o saved h =
      (saved-Todo o p l s s' at_o saved h.0, saved_all-Todo o rest l s s' at_o saved h.1)

  -- After the save, what was known of the other orders still is.
  pub saved-Waits :
      (o : Order) (rest : List Order) (l : List OutboxEvent) (s s' : col.State)
      → Waits (o ∷ rest) s
      → has_unpublished l ≡ false
      → Repository.save t col s (with_outbox o l) ≡ some s'
      → Waits rest s'
  unfolding to_doc
  saved-Waits o rest l s s' w published saved =
      let done = with_outbox o l in
      record {
        normal =
            save-HoldsNormal t col s s' done w.normal
              (record { currency = w.todo.0.0.currency; slices = w.todo.0.0.slices }) saved;
        todo = saved_all-Todo o rest l s s' w.todo.0 saved w.todo.1;
        covered = λ i d stored waits.
            let found = by_id-save t col s s' done i saved in
            elim (Bool-cases (str_eq o.id i)) [
              | inl here ↦
                  let same : to_doc done ≡ d =
                    some-injective (to_doc done) d (sym (simp here at found) ∙ stored) in
                  cc (published, waits, same)
              | inr away ↦ elim (w.covered i d (sym (simp away at found) ∙ stored) waits) [
                | inl same ↦ cc (away, (eq_iff o.id i).1 same)
                | inr later ↦ later
              ]
            ];
      }

  -- Every id that is stored stays stored.
  abbrev pub KeepsIds : col.State → col.State → Type 0
  KeepsIds s s' =
      (i : String) (d : OrderDoc)
      → col.by_id s i ≡ some d
      → (d' : OrderDoc) × (col.by_id s' i ≡ some d')

  pub save-KeepsIds :
      (s s' : col.State) (o : Order) → Repository.save t col s o ≡ some s' → KeepsIds s s'
  save-KeepsIds s s' o saved i d stored =
      let found = by_id-save t col s s' o i saved in
      elim (Bool-cases (str_eq o.id i)) [
        | inl here ↦ (to_doc o, simp here at found)
        | inr away ↦ (d, simp away at found ∙ stored)
      ]
