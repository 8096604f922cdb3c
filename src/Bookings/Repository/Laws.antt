-- ===== src/Bookings/Repository/Laws.antt =====
-- What `OrderRepository` promises to the code that uses it.
use fly_desk.Prelude.{
  refl, ◌≡◌, sym, ap, ◌∙◌, String, Option, none, some, str_eq, eq_iff, if◌then◌else◌, Option-cases,
  Bool-cases, inl, inr,
}
use mathlib.Core.Path.{subst}
use mathlib.Core.Option.{some-injective}
use fly_desk.Errors.{Outcome, returned}
use fly_desk.Domain.Text.{CharTable}
use fly_desk.Domain.Models.{Order}
use fly_desk.Mongo.{Collection}
use fly_desk.Bookings.Document.{OrderDoc, to_doc, reload}
use fly_desk.Bookings.Document.RoundTrip.{IsNormal, to_order-to_doc}
use fly_desk.Bookings.Repository.{id_of, index_field, loaded, save, load, get, HoldsNormal}

pub returned_some :
    (a b : Order) → ◌≡◌ {A = Outcome (Option Order)} (returned (some a)) (returned (some b)) → a ≡ b
returned_some a b e = cc

module _ (t : CharTable) (col : Collection id_of index_field) where
  pub find_one-by_id :
      (s : col.State) (i : String) → col.find_one s (λ d. str_eq d.doc_id i) ≡ col.by_id s i
  find_one-by_id s i = elim (Option-cases (col.find_one s (λ d. str_eq d.doc_id i))) [
    | inl absent ↦ elim (Option-cases (col.by_id s i)) [
      | inl gone ↦ absent ∙ sym gone
      | inr (d, there) ↦ cc (
        col.find_one-none s (λ d. str_eq d.doc_id i) absent i d there,
        (eq_iff d.doc_id i).1 (col.by_id_lem s i d there),
      )
    ]
    | inr (d, found) ↦
        let (stored, match) = col.find_one-some s (λ d. str_eq d.doc_id i) d found in
        found ∙ sym (subst (λ j. col.by_id s j ≡ some d) ((eq_iff d.doc_id i).0 match) stored)
  ]

  pub load-normal :
      (o : Order) → IsNormal t o → load t col (some (to_doc o)) ≡ returned (some (reload o))
  unfolding load
  load-normal o h = ap loaded (to_order-to_doc t o h)

  pub get-by_id : (s : col.State) (i : String) → get t col s i ≡ load t col (col.by_id s i)
  unfolding get
  get-by_id s i = ap (load t col) (find_one-by_id s i)

  pub by_id-save :
      (s s' : col.State) (o : Order) (j : String)
      → save t col s o ≡ some s'
      → col.by_id s' j ≡ (if str_eq o.id j then some (to_doc o) else col.by_id s j)
  unfolding save to_doc
  by_id-save s s' o j e = col.replace_one-some s s' (to_doc o) e j

  -- After a save, the saved order is read back under its id, rounded to hundredths, and every
  -- other id gives what it gave before.
  pub get-save :
      (s s' : col.State) (o : Order) (j : String)
      → IsNormal t o
      → save t col s o ≡ some s'
      → get t col s' j ≡ (if str_eq o.id j then returned (some (reload o)) else get t col s j)
  get-save s s' o j h e =
      rw (get-by_id s' j, get-by_id s j, by_id-save s s' o j e)
        (elim (Bool-cases (str_eq o.id j)) [
          | inl here ↦ simp here (load-normal o h)
          | inr away ↦ simp away
        ])

  -- A successful save of a well-formed order keeps every stored document well-formed.
  pub save-HoldsNormal :
      (s s' : col.State) (o : Order)
      → HoldsNormal t col s
      → IsNormal t o
      → save t col s o ≡ some s'
      → HoldsNormal t col s'
  save-HoldsNormal s s' o all h e i d there = elim (Bool-cases (str_eq o.id i)) [
    | inl here ↦
        (o, h, some-injective (to_doc o) d (simp here at (sym (by_id-save s s' o i e) ∙ there)))
    | inr away ↦ all i d (simp away at (sym (by_id-save s s' o i e) ∙ there))
  ]

  pub load-nothing : load t col none ≡ returned none
  unfolding load
  load-nothing = refl

  pub load-none : (o : Order) → load t col none ≡ returned (some o) → ⊥
  unfolding load
  load-none o e = cc

  pub load_lem :
      (s : col.State) (i : String) (d : OrderDoc) (o : Order)
      → HoldsNormal t col s
      → col.by_id s i ≡ some d
      → load t col (some d) ≡ returned (some o)
      → (o.idempotency_key ≡ d.idempotency_key) × (o.id ≡ d.doc_id)
  unfolding to_doc reload
  load_lem s i d o all stored e =
      let (x, normal, same) = all i d stored in
      let back : reload x ≡ o =
        returned_some (reload x) o
          (sym (load-normal x normal) ∙ ap (λ y. load t col (some y)) same ∙ e) in
      (
        ap (λ (y : Order). y.idempotency_key) (sym back)
            ∙ ap (λ (y : OrderDoc). y.idempotency_key) same,
        ap (λ (y : Order). y.id) (sym back) ∙ ap (λ (y : OrderDoc). y.doc_id) same,
      )

  pub load-some :
      (s : col.State) (i : String) (d : OrderDoc)
      → HoldsNormal t col s
      → col.by_id s i ≡ some d
      → load t col (some d) ≡ returned none
      → ⊥
  load-some s i d all stored e =
      let (x, normal, same) = all i d stored in
      cc (load-normal x normal, ap (λ y. load t col (some y)) same, e)

  -- What is read back under an id is well-formed.
  pub get-IsNormal :
      (s : col.State) (i : String) (o : Order)
      → HoldsNormal t col s
      → get t col s i ≡ returned (some o)
      → IsNormal t o
  unfolding reload
  get-IsNormal s i o all e = elim (Option-cases (col.by_id s i)) [
    | inl gone ↦ absurd (load-none o (ap (load t col) (sym gone) ∙ sym (get-by_id s i) ∙ e))
    | inr (d, stored) ↦
        let (x, normal, same) = all i d stored in
        subst (IsNormal t)
          (returned_some (reload x) o (
            sym (load-normal x normal)
            ∙ ap (λ y. load t col (some y)) same
            ∙ ap (load t col) (sym stored)
            ∙ sym (get-by_id s i)
            ∙ e))
          (record { currency = normal.currency; slices = normal.slices })
  ]

  -- A stored document is read back.
  pub by_id-get :
      (s : col.State) (i : String) (d : OrderDoc)
      → HoldsNormal t col s
      → col.by_id s i ≡ some d
      → (o : Order) × (get t col s i ≡ returned (some o))
  by_id-get s i d all stored =
      let (x, normal, same) = all i d stored in
      (
        reload x,
        get-by_id s i ∙ ap (load t col) (stored ∙ ap some (sym same)) ∙ load-normal x normal,
      )

  -- The document behind an order that is read back.
  pub stored_doc :
      (s : col.State) (i : String) (o : Order)
      → HoldsNormal t col s
      → get t col s i ≡ returned (some o)
      → (d : OrderDoc) × (col.by_id s i ≡ some d)
        × (o.idempotency_key ≡ d.idempotency_key)
        × (o.id ≡ i)
  stored_doc s i o all e = elim (Option-cases (col.by_id s i)) [
    | inl gone ↦ absurd (load-none o (ap (load t col) (sym gone) ∙ sym (get-by_id s i) ∙ e))
    | inr (d, stored) ↦
        let (same_key, same_id) =
          load_lem s i d o all stored (ap (load t col) (sym stored) ∙ sym (get-by_id s i) ∙ e) in
        (d, stored, same_key, same_id ∙ col.by_id_lem s i d stored)
  ]

  pub id-get :
      (s : col.State) (i : String) (o : Order)
      → HoldsNormal t col s
      → get t col s i ≡ returned (some o)
      → o.id ≡ i
  id-get s i o all e = let (_, _, _, same) = stored_doc s i o all e in same
