-- ===== src/Mongo.antt =====
-- A MongoDB collection as the program uses it through pymongo. The service is a parameter: the
-- record holds its operations, and the laws are its documented behaviour with one unique sparse
-- index. A sparse index leaves out the documents without the field, and keeps those that hold a
-- null in it: `unique_field` is `none` for a missing field and `some none` for a null.
use fly_desk.Prelude.{
  ℕ, ◌≡◌, ◌≢◌, String, Bool, true, false, Option, none, some, List, str_eq, if◌then◌else◌,
}
use fly_desk.Prelude.Lists.{All}

pub record Collection {Doc : Type 0} (id_of : Doc → String)
    (unique_field : Doc → Option (Option String)) : Type 1 where
  pub State : Type 0
  -- the document with this `_id`
  pub by_id : State → String → Option Doc
  pub find_one : State → (Doc → Bool) → Option Doc
  pub find : State → (Doc → Bool) → ℕ → List Doc
  -- `replace_one({"_id": ...}, doc, upsert=True)`; `none` is a `DuplicateKeyError`
  pub replace_one : State → String → Doc → Option State
  pub by_id_lem : (s : State) (i : String) (d : Doc) → by_id s i ≡ some d → id_of d ≡ i
  pub find_one-some :
      (s : State) (q : Doc → Bool) (d : Doc)
      → find_one s q ≡ some d
      → (by_id s (id_of d) ≡ some d) × (q d ≡ true)
  pub find_one-none :
      (s : State) (q : Doc → Bool)
      → find_one s q ≡ none
      → (i : String) (d : Doc) → by_id s i ≡ some d
      → q d ≡ false
  pub find-stored :
      (s : State) (q : Doc → Bool) (n : ℕ)
      → All (λ d. (by_id s (id_of d) ≡ some d) × (q d ≡ true)) (find s q n)
  pub replace_one-some :
      (s s' : State) (d : Doc)
      → replace_one s (id_of d) d ≡ some s'
      → (j : String) → by_id s' j ≡ (if str_eq (id_of d) j then some d else by_id s j)
  pub replace_one-none :
      (s : State) (d : Doc)
      → replace_one s (id_of d) d ≡ none
      → (e : Doc) × (by_id s (id_of e) ≡ some e)
        × (id_of e ≢ id_of d)
        × (unique_field e ≡ unique_field d)
  pub unique :
      (s : State) (i j : String) (d e : Doc) (v : Option String)
      → by_id s i ≡ some d
      → by_id s j ≡ some e
      → unique_field d ≡ some v
      → unique_field e ≡ some v
      → i ≡ j
