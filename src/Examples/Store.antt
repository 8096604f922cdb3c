-- ===== src/Examples/Store.antt =====
-- A collection of order documents with its unique index, kept in a list.
use mathlib.Core.Option.{some-injective}
use fly_desk.Prelude.{
  ◌≡◌, ◌≢◌, refl, sym, ap, ◌∙◌, String, Bool, Option, none, some, List, [], ◌∷◌, str_eq, eq_iff,
  if◌then◌else◌, Bool-cases, inl, inr,
}
use fly_desk.Prelude.Lists.{In}
use fly_desk.Mongo.{Collection}
use fly_desk.Bookings.Document.{OrderDoc}
use fly_desk.Bookings.Repository.{id_of, index_field}
use fly_desk.Examples.Docs.{
  same_key, same_key_sound, same_key_refl, find_doc, find_docs, remove, Apart, AllApart, All-In,
  find_doc-some, find_doc-none, find_doc-In, find_docs-All, find_doc-remove, remove-In,
  AllApart-remove, All-of, docs_key_unique,
}

pub record Stored : Type 0 where
  pub docs : List OrderDoc
  pub apart : AllApart docs

abbrev with_key : OrderDoc → OrderDoc → Bool
with_key d e = same_key e.idempotency_key d.idempotency_key

others : Stored → OrderDoc → List OrderDoc
others s d = remove d.doc_id s.docs

pub put-apart :
    (s : Stored) (d : OrderDoc)
    → find_doc (with_key d) (remove d.doc_id s.docs) ≡ none
    → AllApart (d ∷ remove d.doc_id s.docs)
put-apart s d h = (
  All-of (Apart d) (remove d.doc_id s.docs) (λ e i. (
    λ q. (remove-In d.doc_id s.docs e i).1 (sym q),
    λ q. cc (
      All-In _ (remove d.doc_id s.docs) (find_doc-none (with_key d) (remove d.doc_id s.docs) h) e i,
      ap (λ k. same_key e.idempotency_key k) q,
      same_key_refl e.idempotency_key,
    ),
  )),
  AllApart-remove d.doc_id s.docs s.apart,
)

abbrev pub put :
    (s : Stored) (d : OrderDoc) (clash : Option OrderDoc)
    → find_doc (with_key d) (remove d.doc_id s.docs) ≡ clash
    → Option Stored
put s d (some e) h = none
put s d none h = some (record { docs = d ∷ remove d.doc_id s.docs; apart = put-apart s d h })

pub put-some :
    (s s' : Stored) (d : OrderDoc) (clash : Option OrderDoc)
    (h : find_doc (with_key d) (remove d.doc_id s.docs) ≡ clash)
    → put s d clash h ≡ some s'
    → s'.docs ≡ d ∷ remove d.doc_id s.docs
put-some s s' d (some e) h q = cc
put-some s s' d none h q = ap (λ (x : Stored). x.docs) (sym (some-injective _ _ q))

pub put-none :
    (s : Stored) (d : OrderDoc) (clash : Option OrderDoc)
    (h : find_doc (with_key d) (remove d.doc_id s.docs) ≡ clash)
    → put s d clash h ≡ none
    → (e : OrderDoc) × (find_doc (with_key d) (remove d.doc_id s.docs) ≡ some e)
put-none s d (some e) h q = (e, h)
put-none s d none h q = cc

abbrev pub find_in : Stored → String → Option OrderDoc
find_in s i = find_doc (λ e. str_eq e.doc_id i) s.docs

pub found-In :
    (s : Stored) (i : String) (d : OrderDoc) → find_in s i ≡ some d → In d s.docs × (d.doc_id ≡ i)
found-In s i d h =
    let (there, hit) = find_doc-some (λ e. str_eq e.doc_id i) s.docs d h in
    (there, (eq_iff d.doc_id i).0 hit)

pub replaced-find :
    (s s' : Stored) (d : OrderDoc)
    → s'.docs ≡ d ∷ remove d.doc_id s.docs
    → (j : String) → find_in s' j ≡ (if str_eq d.doc_id j then some d else find_in s j)
replaced-find s s' d h j = rw h (elim (Bool-cases (str_eq d.doc_id j)) [
  | inl hit ↦ simp hit
  | inr miss ↦ simp (miss, find_doc-remove d.doc_id j s.docs miss)
])

pub clash_lem :
    (s : Stored) (d : OrderDoc)
    → (e : OrderDoc) × (find_doc (with_key d) (remove d.doc_id s.docs) ≡ some e)
    → (e : OrderDoc) × (find_in s e.doc_id ≡ some e)
      × (e.doc_id ≢ d.doc_id)
      × (index_field e ≡ index_field d)
clash_lem s d (e, h) =
    let (there, hit) = find_doc-some (with_key d) (remove d.doc_id s.docs) e h in
    let (there, differ) = remove-In d.doc_id s.docs e there in
    (
      e,
      find_doc-In s.docs s.apart e there,
      differ,
      ap some (same_key_sound e.idempotency_key d.idempotency_key hit),
    )

abbrev pub orders : Collection id_of index_field
orders = record {
  State = Stored;
  by_id = find_in;
  find_one = λ s q. find_doc q s.docs;
  find = λ s q n. find_docs q n s.docs;
  replace_one = λ s i d. put s d (find_doc (with_key d) (remove d.doc_id s.docs)) refl;
  by_id_lem = λ s i d h. (found-In s i d h).1;
  find_one-some = λ s q d h.
      let (there, hit) = find_doc-some q s.docs d h in (find_doc-In s.docs s.apart d there, hit);
  find_one-none =
      λ s q h i d there. All-In _ s.docs (find_doc-none q s.docs h) d (found-In s i d there).0;
  find-stored = λ s q n.
      find_docs-All _ q n s.docs (λ d there hit. (find_doc-In s.docs s.apart d there, hit));
  replace_one-some = λ s s' d h j.
      replaced-find s s' d (put-some s s' d (find_doc (with_key d) (remove d.doc_id s.docs)) refl h)
        j;
  replace_one-none =
      λ s d h. clash_lem s d (put-none s d (find_doc (with_key d) (remove d.doc_id s.docs)) refl h);
  unique = λ s i j d e v hi hj ki kj.
      let (di, di') = found-In s i d hi in
      let (dj, dj') = found-In s j e hj in
      sym di' ∙ docs_key_unique s.docs d e s.apart di dj (some-injective _ _ (ki ∙ sym kj)) ∙ dj';
}

abbrev pub no_orders : Stored
no_orders = record { docs = []; apart = tt }
