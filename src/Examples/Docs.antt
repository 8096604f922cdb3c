-- ===== src/Examples/Docs.antt =====
-- Lists of order documents, in which ids and idempotency keys are unique.
use mathlib.Core.Path.{subst}
use fly_desk.Prelude.{
  ℕ, zero, suc, ◌≡◌, ◌≢◌, refl, sym, ap, ◌∙◌, String, Bool, true, false, inl, inr, Option, none,
  some, List, [], ◌∷◌, str_eq, eq_iff, eq_refl, if◌then◌else◌, Bool-cases, arith,
}
use mathlib.Core.Option.{some-injective}
use fly_desk.Prelude.Lists.{In, All}
use fly_desk.Bookings.Document.{OrderDoc}

abbrev pub same_key : Option String → Option String → Bool
same_key none none = true
same_key none (some b) = false
same_key (some a) none = false
same_key (some a) (some b) = str_eq a b

pub same_key_sound : (a b : Option String) → same_key a b ≡ true → a ≡ b
same_key_sound none none h = refl
same_key_sound none (some b) h = cc
same_key_sound (some a) none h = cc
same_key_sound (some a) (some b) h = ap some ((eq_iff a b).0 h)

pub same_key_refl : (a : Option String) → same_key a a ≡ true
same_key_refl none = refl
same_key_refl (some a) = eq_refl a

abbrev pub find_doc : (OrderDoc → Bool) → List OrderDoc → Option OrderDoc
find_doc q [] = none
find_doc q (d ∷ l) = if q d then some d else find_doc q l

abbrev pub find_docs : (OrderDoc → Bool) → ℕ → List OrderDoc → List OrderDoc
find_docs q zero l = []
find_docs q (suc n) [] = []
find_docs q (suc n) (d ∷ l) = if q d then d ∷ find_docs q n l else find_docs q (suc n) l

abbrev pub remove : String → List OrderDoc → List OrderDoc
remove i [] = []
remove i (d ∷ l) = if str_eq d.doc_id i then remove i l else d ∷ remove i l

abbrev pub Apart : OrderDoc → OrderDoc → Type 0
Apart d e = (d.doc_id ≢ e.doc_id) × (d.idempotency_key ≢ e.idempotency_key)

abbrev pub AllApart : List OrderDoc → Type 0
AllApart [] = Unit
AllApart (d ∷ l) = All (Apart d) l × AllApart l

pub All-In : (P : OrderDoc → Type 0) → (l : List OrderDoc) → All P l → (d : OrderDoc) → In d l → P d
All-In P [] h d i = elim i [ ]
All-In P (e ∷ l) h d (inl same) = subst P same h.0
All-In P (e ∷ l) h d (inr later) = All-In P l h.1 d later

pub find_doc-some :
    (q : OrderDoc → Bool) (l : List OrderDoc) (d : OrderDoc)
    → find_doc q l ≡ some d
    → In d l × (q d ≡ true)
find_doc-some q [] d h = cc
find_doc-some q (e ∷ l) d h = elim (Bool-cases (q e)) [
  | inl hit ↦
      let same : e ≡ d = some-injective e d (simp hit at h) in (inl same, ap q (sym same) ∙ hit)
  | inr miss ↦ let (later, t) = find_doc-some q l d (simp miss at h) in (inr later, t)
]

pub find_doc-none :
    (q : OrderDoc → Bool) (l : List OrderDoc) → find_doc q l ≡ none → All (λ d. q d ≡ false) l
find_doc-none q [] h = tt
find_doc-none q (e ∷ l) h = elim (Bool-cases (q e)) [
  | inl hit ↦ let h' : some e ≡ none = simp hit at h in cc
  | inr miss ↦ (miss, find_doc-none q l (simp miss at h))
]

id_is : String → OrderDoc → Bool
id_is i d = str_eq d.doc_id i

pub find_doc-In :
    (l : List OrderDoc)
    → AllApart l
    → (d : OrderDoc) → In d l
    → find_doc (λ e. str_eq e.doc_id d.doc_id) l ≡ some d
find_doc-In [] v d i = elim i [ ]
find_doc-In (e ∷ l) v d (inl same) =
    subst (λ x. find_doc (λ e. str_eq e.doc_id x.doc_id) (e ∷ l) ≡ some x) same
      (simp (eq_refl e.doc_id))
find_doc-In (e ∷ l) v d (inr later) = elim (Bool-cases (str_eq e.doc_id d.doc_id)) [
  | inl hit ↦ absurd ((All-In _ l v.0 d later).0 ((eq_iff e.doc_id d.doc_id).0 hit))
  | inr miss ↦ simp miss (find_doc-In l v.1 d later)
]

pub find_docs-All :
    (P : OrderDoc → Type 0)
    → (q : OrderDoc → Bool) (n : ℕ) (l : List OrderDoc)
    → ((d : OrderDoc) → In d l → q d ≡ true → P d)
    → All P (find_docs q n l)
find_docs-All P q zero l h = tt
find_docs-All P q (suc n) [] h = tt
find_docs-All P q (suc n) (d ∷ l) h = elim (Bool-cases (q d)) [
  | inl hit ↦ rw hit (h d (inl refl) hit, find_docs-All P q n l (λ e i. h e (inr i)))
  | inr miss ↦ rw miss (find_docs-All P q (suc n) l (λ e i. h e (inr i)))
]

pub find_doc-remove :
    (i j : String) (l : List OrderDoc)
    → str_eq i j ≡ false
    → find_doc (λ e. str_eq e.doc_id j) (remove i l) ≡ find_doc (λ e. str_eq e.doc_id j) l
find_doc-remove i j [] h = refl
find_doc-remove i j (e ∷ l) h =
    ground (arith, eq_iff i j, eq_iff e.doc_id i, eq_iff e.doc_id j, find_doc-remove i j l h)

kept-In :
    (i : String) (e : OrderDoc) (l : List OrderDoc) (d : OrderDoc)
    → str_eq e.doc_id i ≡ false
    → (In d (remove i l) → In d l × (d.doc_id ≢ i))
    → In d (e ∷ remove i l)
    → In d (e ∷ l) × (d.doc_id ≢ i)
kept-In i e l d miss rest (inl same) =
    (inl same, λ q. cc (miss, (eq_iff e.doc_id i).1 (ap (λ (x : OrderDoc). x.doc_id) same ∙ q)))
kept-In i e l d miss rest (inr later) = let (there, differ) = rest later in (inr there, differ)

pub remove-In :
    (i : String) (l : List OrderDoc) (d : OrderDoc) → In d (remove i l) → In d l × (d.doc_id ≢ i)
remove-In i [] d h = elim h [ ]
remove-In i (e ∷ l) d h = elim (Bool-cases (str_eq e.doc_id i)) [
  | inl hit ↦ let (there, differ) = remove-In i l d (rw hit at h) in (inr there, differ)
  | inr miss ↦ kept-In i e l d miss (remove-In i l d) (rw miss at h)
]

pub All-remove :
    (P : OrderDoc → Type 0) → (i : String) (l : List OrderDoc) → All P l → All P (remove i l)
All-remove P i [] h = tt
All-remove P i (e ∷ l) h = elim (Bool-cases (str_eq e.doc_id i)) [
  | inl hit ↦ rw hit (All-remove P i l h.1)
  | inr miss ↦ rw miss (h.0, All-remove P i l h.1)
]

pub AllApart-remove : (i : String) (l : List OrderDoc) → AllApart l → AllApart (remove i l)
AllApart-remove i [] h = tt
AllApart-remove i (e ∷ l) h = elim (Bool-cases (str_eq e.doc_id i)) [
  | inl hit ↦ rw hit (AllApart-remove i l h.1)
  | inr miss ↦ rw miss (All-remove _ i l h.0, AllApart-remove i l h.1)
]

pub All-of :
    (P : OrderDoc → Type 0) → (l : List OrderDoc) → ((d : OrderDoc) → In d l → P d) → All P l
All-of P [] h = tt
All-of P (e ∷ l) h = (h e (inl refl), All-of P l (λ d i. h d (inr i)))

pub docs_key_unique :
    (l : List OrderDoc) (d e : OrderDoc)
    → AllApart l
    → In d l
    → In e l
    → d.idempotency_key ≡ e.idempotency_key
    → d.doc_id ≡ e.doc_id
docs_key_unique [] d e v i j h = elim i [ ]
docs_key_unique (x ∷ l) d e v (inl p) (inl q) h = ap (λ (y : OrderDoc). y.doc_id) (sym p ∙ q)
docs_key_unique (x ∷ l) d e v (inl p) (inr q) h =
    absurd ((All-In _ l v.0 e q).1 (ap (λ (y : OrderDoc). y.idempotency_key) p ∙ h))
docs_key_unique (x ∷ l) d e v (inr p) (inl q) h =
    absurd ((All-In _ l v.0 d p).1 (ap (λ (y : OrderDoc). y.idempotency_key) q ∙ sym h))
docs_key_unique (x ∷ l) d e v (inr p) (inr q) h = docs_key_unique l d e v.1 p q h
