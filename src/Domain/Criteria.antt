-- ===== src/Domain/Criteria.antt =====
-- The search input of flydesk/domain/models.py, and `build_criteria` of flydesk/search/services.py.
pub mod Valid
use fly_desk.Prelude.{
  ℕ, ◌≤◌, ◌≡◌, ◌≢◌, refl, String, Bool, true, false, Option, none, some, List, [], ◌∷◌, leb, str_eq,
  eq_iff, if◌then◌else◌, arith, Option-cases, inl, inr,
}
use fly_desk.Prelude.Lists.{length, All}
use fly_desk.Prelude.{not}
use fly_desk.Prelude.Options.{◌>>=◌, ◌>>◌, require, or_default, traverse}
use fly_desk.Domain.Enums.{CabinClass, economy, PassengerType, adult}
use fly_desk.Domain.Text.{CharTable}
use fly_desk.Domain.Codes.{airport_code}
use fly_desk.Domain.Time.{Date, date_lt}

pub record PassengerSpec : Type 0 where
  pub kind : PassengerType
  pub age : Option ℕ

-- `PassengerSpec(...)`: an age is at most 17.
unfoldable pub make_passenger_spec : PassengerType → Option ℕ → Option PassengerSpec
make_passenger_spec kind none = some (record { kind = kind; age = none })
make_passenger_spec kind (some n) =
    if leb n 17 then some (record { kind = kind; age = some n }) else none

pub record SearchCriteria : Type 0 where
  pub origin : String
  pub destination : String
  pub departure_date : Date
  pub return_date : Option Date
  pub cabin_class : CabinClass
  pub passengers : List PassengerSpec
  pub max_connections : ℕ

-- `SearchCriteria.is_round_trip`
unfoldable pub is_round_trip : SearchCriteria → Bool
is_round_trip c = elim c.return_date [ none ↦ false | some _ ↦ true ]

abbrev pub is_empty : List PassengerSpec → Bool
is_empty [] = true
is_empty (p ∷ ps) = false

abbrev pub returns_before : Option Date → Date → Bool
returns_before none d = false
returns_before (some r) d = date_lt r d

-- `SearchCriteria._validate_dates_and_route`
unfoldable pub validate_dates_and_route : SearchCriteria → Option SearchCriteria
validate_dates_and_route c =
    if str_eq c.origin c.destination
    then none
    else if returns_before c.return_date c.departure_date
    then none
    else some c

-- What an HTTP request holds after its shape has been checked; an absent field is `none`.
pub record Request : Type 0 where
  pub origin : String
  pub destination : String
  pub departure_date : Date
  pub return_date : Option Date
  pub cabin_class : Option CabinClass
  pub passengers : Option (List (PassengerType × Option ℕ))
  pub max_connections : Option ℕ

-- `PassengerSpec(**p)`
unfoldable pub passenger_spec : PassengerType × Option ℕ → Option PassengerSpec
unfolding make_passenger_spec
passenger_spec (kind, age) = make_passenger_spec kind age

-- `data.get("passengers") or [{}]`: an absent or empty list is one adult.
abbrev pub passengers_or_one :
    Option (List (PassengerType × Option ℕ)) → List (PassengerType × Option ℕ)
passengers_or_one none = (adult, none) ∷ []
passengers_or_one (some []) = (adult, none) ∷ []
passengers_or_one (some (p ∷ ps)) = p ∷ ps

module _ (t : CharTable) where
  -- `SearchCriteria(...)`: the fields are checked one by one, then the model as a whole.
  unfoldable pub make_criteria : SearchCriteria → Option SearchCriteria
  unfolding validate_dates_and_route
  make_criteria c = do
    origin ← airport_code t c.origin
    destination ← airport_code t c.destination
    require (not (is_empty c.passengers))
    require (leb c.max_connections 2)
    validate_dates_and_route (record c { origin = origin; destination = destination })

  unfoldable pub build_criteria : Request → Option SearchCriteria
  unfolding make_criteria
  build_criteria r = do
    passengers ← traverse passenger_spec (passengers_or_one r.passengers)
    make_criteria (record {
      origin = r.origin;
      destination = r.destination;
      departure_date = r.departure_date;
      return_date = r.return_date;
      cabin_class = or_default r.cabin_class economy;
      passengers = passengers;
      max_connections = or_default r.max_connections 1;
    })
