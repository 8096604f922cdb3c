-- ===== src/Examples/Domains.antt =====
-- The theorems on the domain models at sample values.
use fly_desk.Prelude.{◌≡◌, refl, false, none, some, [], ◌∷◌, arith}
use fly_desk.Prelude.Lists.{All}
use fly_desk.Prelude.Options.{traverse}
use fly_desk.Errors.{init, offer_expired, FlyDeskError}
use fly_desk.Domain.Enums.{economy, adult, child}
use fly_desk.Domain.Text.{upper, lstrip, rstrip, strip, isalpha, all}
use fly_desk.Domain.Codes.{airport_code}
use fly_desk.Domain.Money.{Decimal, reload_amount, reload_amount_loses, SameValue}
use fly_desk.Domain.Time.{date_lt}
use fly_desk.Domain.Criteria.{
  Request, SearchCriteria, passenger_spec, make_criteria, build_criteria, validate_dates_and_route,
}
use fly_desk.Domain.Criteria.Valid.{IsValid, IsAge, build_criteria-IsValid}
use fly_desk.Examples.Fixtures.{ascii, ascii-IsUnicode, letter}

abbrev third : Decimal
third = record { negative = false; digits = 12345; places = 3 }

abbrev price : Decimal
price = record { negative = false; digits = 995; places = 1 }

reload_amount_loses_example : ¬ SameValue third (reload_amount third)
reload_amount_loses_example = reload_amount_loses third (omega arith) (λ h. omega arith)

abbrev pub trip : Request
trip = record {
  origin = "WaW";
  destination = "LIS";
  departure_date = record { year = 2026; month = 7; day = 1 };
  return_date = some (record { year = 2026; month = 7; day = 8 });
  cabin_class = none;
  passengers = some ((adult, none) ∷ (child, some 9) ∷ []);
  max_connections = none;
}

abbrev pub searched : SearchCriteria
searched = record {
  origin = "WAW";
  destination = "LIS";
  departure_date = record { year = 2026; month = 7; day = 1 };
  return_date = some (record { year = 2026; month = 7; day = 8 });
  cabin_class = economy;
  passengers = record { kind = adult; age = none } ∷ record { kind = child; age = some 9 } ∷ [];
  max_connections = 1;
}

pub trip_built : build_criteria ascii trip ≡ some searched
unfolding build_criteria make_criteria validate_dates_and_route traverse passenger_spec date_lt
    airport_code upper lstrip rstrip strip isalpha all letter
trip_built = refl

build_criteria-IsValid_example : IsValid ascii searched × All (λ p. IsAge p.age) searched.passengers
build_criteria-IsValid_example =
    build_criteria-IsValid ascii ascii-IsUnicode trip searched trip_built

abbrev expired : FlyDeskError
expired = init offer_expired none
