-- ===== src/Bookings/Repository/Fresh.antt =====
-- Saving an order under a key that no stored order carries.
use mathlib.Core.Option.{some-injective}
use fly_desk.Prelude.{
  ◌≡◌, sym, ap, ◌∙◌, String, Option, none, some, eq_refl, Option-cases, inl, inr,
}
use fly_desk.Errors.{returned}
use fly_desk.Domain.Text.{CharTable}
use fly_desk.Domain.Models.{Order}
use fly_desk.Mongo.{Collection}
use fly_desk.Bookings.Document.{to_doc, to_order}
use fly_desk.Bookings.Repository.{
  id_of, index_field, key_is, load, loaded, find_by_idempotency_key, save,
}

module _ (t : CharTable) (col : Collection id_of index_field) where
  loaded-some : (x : Option Order) → loaded x ≡ returned none → ⊥
  loaded-some none e = cc
  loaded-some (some o) e = cc

  -- A search that ends with nothing has found no document.
  find_one-absent :
      (s : col.State) (key : String)
      → find_by_idempotency_key t col s key ≡ returned none
      → col.find_one s (λ d. key_is key d.idempotency_key) ≡ none
  unfolding find_by_idempotency_key load
  find_one-absent s key e =
      elim (Option-cases (col.find_one s (λ d. key_is key d.idempotency_key))) [
        | inl absent ↦ absent
        | inr (d, found) ↦ absurd (loaded-some (to_order t d) (ap (load t col) (sym found) ∙ e))
      ]

  -- An order with a key that is not in use yet can be saved.
  pub save-fresh :
      (s : col.State) (key : String) (o : Order)
      → find_by_idempotency_key t col s key ≡ returned none
      → o.idempotency_key ≡ some key
      → (s' : col.State) × (save t col s o ≡ some s')
  unfolding save to_doc
  save-fresh s key o unused keyed = elim (Option-cases (save t col s o)) [
    | inl clash ↦
        let (d, stored, _, same) = col.replace_one-none s (to_doc o) clash in
        cc (
          col.find_one-none s (λ e. key_is key e.idempotency_key) (find_one-absent s key unused)
              (id_of d) d stored,
          ap (key_is key) (some-injective _ _ same ∙ keyed),
          eq_refl key,
        )
    | inr found ↦ found
  ]
