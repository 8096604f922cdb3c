-- ===== src/Domain/Criteria/Valid.antt =====
-- What a search request that passes `build_criteria` is known to satisfy.
use fly_desk.Prelude.{
  ℕ, ◌≤◌, ◌≡◌, ◌≢◌, refl, String, true, false, Option, none, some, List, [], ◌∷◌, eq_iff, arith,
  Bool-cases, inl, inr, str_eq, ap, leb→le, le→leb, leb, not,
}
use mathlib.Core.Path.{subst}
use fly_desk.Prelude.Options.{>>=-eq-some, >>-eq-some, traverse}
use mathlib.Core.Option.{some-injective}
use fly_desk.Prelude.Lists.{All}
use fly_desk.Domain.Enums.{PassengerType}
use fly_desk.Domain.Text.{CharTable, IsUnicode}
use fly_desk.Domain.Codes.{airport_code, airport_code_idem}
use fly_desk.Domain.Time.{Date, date_lt}
use fly_desk.Domain.Criteria.{
  PassengerSpec, SearchCriteria, passenger_spec, is_empty, validate_dates_and_route, make_criteria,
  build_criteria, Request, passengers_or_one, returns_before,
}

abbrev pub IsAge : Option ℕ → Type 0
IsAge none = Unit
IsAge (some n) = n ≤ 17

abbrev pub ReturnsLater : Option Date → Date → Type 0
ReturnsLater none d = Unit
ReturnsLater (some r) d = date_lt r d ≡ false

pub record IsValid (t : CharTable) (c : SearchCriteria) : Type 0 where
  pub origin_code : airport_code t c.origin ≡ some c.origin
  pub destination_code : airport_code t c.destination ≡ some c.destination
  pub route : c.origin ≢ c.destination
  pub dates : ReturnsLater c.return_date c.departure_date
  pub someone : c.passengers ≢ []
  pub connections : c.max_connections ≤ 2

returns_before-later : (r : Option Date) (d : Date) → returns_before r d ≡ false → ReturnsLater r d
returns_before-later none d h = tt
returns_before-later (some r) d h = h

validate_lem :
    (c d : SearchCriteria)
    → validate_dates_and_route c ≡ some d
    → (c ≡ d)
      × (str_eq c.origin c.destination ≡ false)
      × (returns_before c.return_date c.departure_date ≡ false)
unfolding validate_dates_and_route
validate_lem c d h = elim (Bool-cases (str_eq c.origin c.destination)) [
  | inl same ↦ cc (simp same at h)
  | inr differ ↦ elim (Bool-cases (returns_before c.return_date c.departure_date)) [
    | inl early ↦ cc (simp (differ, early) at h)
    | inr later ↦ (some-injective c d (simp (differ, later) at h), differ, later)
  ]
]

later-returns_before : (r : Option Date) (d : Date) → ReturnsLater r d → returns_before r d ≡ false
later-returns_before none d h = refl
later-returns_before (some r) d h = h

routes_differ : (a b : String) → a ≢ b → str_eq a b ≡ false
routes_differ a b h = ground (arith, eq_iff a b)

not_empty-true : (ps : List PassengerSpec) → ps ≢ [] → not (is_empty ps) ≡ true
not_empty-true [] h = absurd (h refl)
not_empty-true (p ∷ ps) h = refl

not_empty : (ps : List PassengerSpec) → not (is_empty ps) ≡ true → ps ≢ []
not_empty [] h = cc
not_empty (p ∷ ps) h = λ e. cc

spec-age :
    (q : PassengerType × Option ℕ) (p : PassengerSpec) → passenger_spec q ≡ some p → IsAge p.age
unfolding passenger_spec
spec-age (kind, none) p h = subst (λ x. IsAge x.age) (some-injective _ p h) tt
spec-age (kind, some n) p h = elim (Bool-cases (leb n 17)) [
  | inl young ↦ subst (λ x. IsAge x.age) (some-injective _ p (simp young at h)) (leb→le n 17 young)
  | inr old ↦ cc (simp old at h)
]

specs-ages :
    (qs : List (PassengerType × Option ℕ)) (ps : List PassengerSpec)
    → traverse passenger_spec qs ≡ some ps
    → All (λ p. IsAge p.age) ps
unfolding traverse
specs-ages [] ps h = subst (All (λ p. IsAge p.age)) (some-injective [] ps h) tt
specs-ages (q ∷ qs) ps h =
    let (p, first, h1) = >>=-eq-some (passenger_spec q) _ h in
    let (rest, more, h2) = >>=-eq-some (traverse passenger_spec qs) _ h1 in
    subst (All (λ p. IsAge p.age)) (some-injective (p ∷ rest) ps h2)
      (spec-age q p first, specs-ages qs rest more)

module _ (t : CharTable) (u : IsUnicode t) where
  validate-IsValid :
      (c d : SearchCriteria)
      → airport_code t c.origin ≡ some c.origin
      → airport_code t c.destination ≡ some c.destination
      → c.passengers ≢ []
      → c.max_connections ≤ 2
      → validate_dates_and_route c ≡ some d
      → (c ≡ d) × IsValid t d
  validate-IsValid c d o e p m h =
      let (same, differ, later) = validate_lem c d h in
      (
        same,
        subst (IsValid t) same (record {
          origin_code = o;
          destination_code = e;
          route = λ q. cc (differ, (eq_iff c.origin c.destination).1 q);
          dates = returns_before-later c.return_date c.departure_date later;
          someone = p;
          connections = m;
        }),
      )

  validate-valid : (c : SearchCriteria) → IsValid t c → validate_dates_and_route c ≡ some c
  unfolding validate_dates_and_route
  validate-valid c v = simp (
    routes_differ c.origin c.destination v.route,
    later-returns_before c.return_date c.departure_date v.dates,
  )

  make_criteria_lem :
      (c d : SearchCriteria)
      → make_criteria t c ≡ some d
      → (c.passengers ≡ d.passengers) × IsValid t d
  unfolding make_criteria
  make_criteria_lem c d h =
      let (o, origin, h1) = >>=-eq-some (airport_code t c.origin) _ h in
      let (e, destination, h2) = >>=-eq-some (airport_code t c.destination) _ h1 in
      let (someone, h3) = >>-eq-some _ _ h2 in
      let (few, h4) = >>-eq-some _ _ h3 in
      let (same, valid) =
        validate-IsValid (record c { origin = o; destination = e }) d
          (airport_code_idem t u c.origin o origin).0
          (airport_code_idem t u c.destination e destination).0 (not_empty c.passengers someone)
          (leb→le c.max_connections 2 few) h4 in
      (ap (λ k. k.passengers) same, valid)

  -- Criteria that a request has led to are valid, and every child's age in them is at most 17.
  pub build_criteria-IsValid :
      (r : Request) (c : SearchCriteria)
      → build_criteria t r ≡ some c
      → IsValid t c × All (λ p. IsAge p.age) c.passengers
  unfolding build_criteria
  build_criteria-IsValid r c h =
      let (ps, made, h1) =
        >>=-eq-some (traverse passenger_spec (passengers_or_one r.passengers)) _ h in
      let (same, valid) = make_criteria_lem _ c h1 in
      (
        valid,
        subst (All (λ p. IsAge p.age)) same (specs-ages (passengers_or_one r.passengers) ps made),
      )

  -- Valid criteria are accepted again as they are.
  pub make_criteria-valid : (c : SearchCriteria) → IsValid t c → make_criteria t c ≡ some c
  unfolding make_criteria
  make_criteria-valid c v =
      simp
        (
          v.origin_code,
          v.destination_code,
          not_empty-true c.passengers v.someone,
          le→leb c.max_connections 2 v.connections,
        )
        (validate-valid c v)
