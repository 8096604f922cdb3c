-- ===== src/Bookings/Repository/Keys.antt =====
-- Searches of `OrderRepository` by the idempotency key.
use fly_desk.Prelude.{
  ◌≡◌, ◌≢◌, sym, ap, ◌∙◌, String, true, Option, none, some, eq_iff, eq_refl, Option-cases, inl, inr,
}
use fly_desk.Errors.{returned}
use fly_desk.Domain.Text.{CharTable}
use fly_desk.Domain.Models.{Order}
use fly_desk.Mongo.{Collection}
use fly_desk.Bookings.Document.{reload}
use fly_desk.Bookings.Repository.{
  id_of, index_field, key_is, load, get, find_by_idempotency_key, HoldsNormal,
}
use fly_desk.Bookings.Repository.Laws.{
  get-by_id, load_lem, load-some, load-none, load-nothing, load-normal, stored_doc,
}

key_is-true : (key : String) (o : Option String) → key_is key o ≡ true → o ≡ some key
key_is-true key none h = cc
key_is-true key (some k) h = ap some ((eq_iff k key).0 h)

module _ (t : CharTable) (col : Collection id_of index_field) where
  -- A key search that finds an order finds a stored one that carries the key.
  pub find_by_key_sound :
      (s : col.State) (key : String) (o : Order)
      → HoldsNormal t col s
      → find_by_idempotency_key t col s key ≡ returned (some o)
      → (o.idempotency_key ≡ some key) × (get t col s o.id ≡ returned (some o))
  unfolding find_by_idempotency_key
  find_by_key_sound s key o all e =
      elim (Option-cases (col.find_one s (λ d. key_is key d.idempotency_key))) [
        | inl absent ↦ absurd (load-none t col o (ap (load t col) (sym absent) ∙ e))
        | inr (d, found) ↦
            let (stored, match) = col.find_one-some s (λ d. key_is key d.idempotency_key) d found in
            let (same_key, same_id) =
              load_lem t col s d.doc_id d o all stored (ap (load t col) (sym found) ∙ e) in
            (
              same_key ∙ key_is-true key d.idempotency_key match,
              get-by_id t col s o.id
                  ∙ ap (load t col) (ap (col.by_id s) same_id ∙ stored)
                  ∙ ap (load t col) (sym found)
                  ∙ e,
            )
      ]

  -- A key search that finds nothing: no stored order carries the key.
  pub find_by_key-none :
      (s : col.State) (key i : String) (o : Order)
      → HoldsNormal t col s
      → find_by_idempotency_key t col s key ≡ returned none
      → get t col s i ≡ returned (some o)
      → o.idempotency_key ≢ some key
  unfolding find_by_idempotency_key
  find_by_key-none s key i o all e there =
      elim (Option-cases (col.find_one s (λ d. key_is key d.idempotency_key))) [
        | inl absent ↦ elim (Option-cases (col.by_id s i)) [
          | inl gone ↦
              absurd
                (load-none t col o (ap (load t col) (sym gone) ∙ sym (get-by_id t col s i) ∙ there))
          | inr (d, stored) ↦ λ has_key.
              let (same_key, _) =
                load_lem t col s i d o all stored
                  (ap (load t col) (sym stored) ∙ sym (get-by_id t col s i) ∙ there) in
              cc (
                col.find_one-none s (λ d. key_is key d.idempotency_key) absent i d stored,
                ap (key_is key) (sym same_key ∙ has_key),
                eq_refl key,
              )
        ]
        | inr (d, found) ↦
            let (stored, _) = col.find_one-some s (λ d. key_is key d.idempotency_key) d found in
            absurd (load-some t col s d.doc_id d all stored (ap (load t col) (sym found) ∙ e))
      ]

  -- Two stored orders with the same key, and also two without one, are the same order.
  pub key_unique :
      (s : col.State) (i j : String) (a b : Order)
      → HoldsNormal t col s
      → get t col s i ≡ returned (some a)
      → get t col s j ≡ returned (some b)
      → a.idempotency_key ≡ b.idempotency_key
      → i ≡ j
  key_unique s i j a b all ea eb same =
      let (d, stored_d, key_d, _) = stored_doc t col s i a all ea in
      let (e, stored_e, key_e, _) = stored_doc t col s j b all eb in
      col.unique s i j d e a.idempotency_key stored_d stored_e (ap some (sym key_d))
        (ap some (sym key_e ∙ sym same))

  -- A key search does not fail on a store that holds well-formed orders only.
  pub find_by_key_total :
      (s : col.State) (key : String)
      → HoldsNormal t col s
      → (found : Option Order) × (find_by_idempotency_key t col s key ≡ returned found)
  unfolding find_by_idempotency_key
  find_by_key_total s key all =
      elim (Option-cases (col.find_one s (λ d. key_is key d.idempotency_key))) [
        | inl absent ↦ (none, ap (load t col) absent ∙ load-nothing t col)
        | inr (d, found) ↦
            let (stored, _) = col.find_one-some s (λ d. key_is key d.idempotency_key) d found in
            let (x, normal, same) = all d.doc_id d stored in
            (
              some (reload x),
              ap (load t col) found
                  ∙ ap (λ y. load t col (some y)) (sym same)
                  ∙ load-normal t col x normal,
            )
      ]
