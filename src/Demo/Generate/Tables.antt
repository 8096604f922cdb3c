-- ===== src/Demo/Generate/Tables.antt =====
-- The tables of demo/generate.py.
use fly_desk.Prelude.{String, Option, none, some, List, [], ◌∷◌}
use fly_desk.Prelude.Dicts.{Dict}

abbrev pub carriers : List (String × String)
carriers =
    ("BA", "British Airways")
    ∷ ("AA", "American Airlines")
    ∷ ("LH", "Lufthansa")
    ∷ ("AF", "Air France")
    ∷ ("KL", "KLM")
    ∷ ("IB", "Iberia")
    ∷ ("DL", "Delta Air Lines")
    ∷ ("UA", "United Airlines")
    ∷ ("VS", "Virgin Atlantic")
    ∷ ("EI", "Aer Lingus")
    ∷ ("TP", "TAP Air Portugal")
    ∷ ("LO", "LOT Polish Airlines")
    ∷ []

abbrev pub aircraft : List (Option String)
aircraft =
    some "Airbus A320neo"
    ∷ some "Boeing 737-800"
    ∷ some "Boeing 787-9"
    ∷ some "Airbus A350-900"
    ∷ some "Boeing 777-300ER"
    ∷ none
    ∷ []

abbrev pub hubs : List String
hubs = "AMS" ∷ "CDG" ∷ "FRA" ∷ "IST" ∷ "MAD" ∷ "DUB" ∷ "LHR" ∷ "MUC" ∷ "ZRH" ∷ "CPH" ∷ []

abbrev pub currency_by_airport : Dict String
currency_by_airport =
    ("LHR", "GBP")
    ∷ ("LGW", "GBP")
    ∷ ("MAN", "GBP")
    ∷ ("EDI", "GBP")
    ∷ ("WAW", "PLN")
    ∷ ("KRK", "PLN")
    ∷ ("GDN", "PLN")
    ∷ ("CDG", "EUR")
    ∷ ("FRA", "EUR")
    ∷ ("AMS", "EUR")
    ∷ ("MAD", "EUR")
    ∷ ("MUC", "EUR")
    ∷ ("BCN", "EUR")
    ∷ ("FCO", "EUR")
    ∷ ("LIS", "EUR")
    ∷ ("DUB", "EUR")
    ∷ []
