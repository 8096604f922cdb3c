-- ===== src/Domain/Enums.antt =====
-- flydesk/domain/enums.py: each enum, the text that stands for a member, and the lookup of a member
-- by its text, where `none` is the `ValueError`.
use fly_desk.Prelude.{String, ◌≡◌, refl, Option, none, some, str_eq, if◌then◌else◌}

pub data Provider : Type 0 where
  duffel amadeus : Provider

unfoldable pub provider_value : Provider → String
provider_value duffel = "duffel"
provider_value amadeus = "amadeus"

pub data CabinClass : Type 0 where
  economy premium_economy business first : CabinClass

unfoldable pub cabin_value : CabinClass → String
cabin_value economy = "economy"
cabin_value premium_economy = "premium_economy"
cabin_value business = "business"
cabin_value first = "first"

unfoldable pub cabin_of : String → Option CabinClass
cabin_of s =
    if str_eq s "economy"
    then some economy
    else if str_eq s "premium_economy"
    then some premium_economy
    else if str_eq s "business"
    then some business
    else if str_eq s "first"
    then some first
    else none

pub data PassengerType : Type 0 where
  adult child infant_without_seat : PassengerType

unfoldable pub passenger_value : PassengerType → String
passenger_value adult = "adult"
passenger_value child = "child"
passenger_value infant_without_seat = "infant_without_seat"

unfoldable pub passenger_of : String → Option PassengerType
passenger_of s =
    if str_eq s "adult"
    then some adult
    else if str_eq s "child"
    then some child
    else if str_eq s "infant_without_seat"
    then some infant_without_seat
    else none

pub data PlaceType : Type 0 where
  airport city : PlaceType

unfoldable pub place_value : PlaceType → String
place_value airport = "airport"
place_value city = "city"

unfoldable pub place_of : String → Option PlaceType
place_of s =
    if str_eq s "airport" then some airport else if str_eq s "city" then some city else none

pub data OrderStatus : Type 0 where
  pending confirmed ticketed failed cancelled_order : OrderStatus

unfoldable pub status_value : OrderStatus → String
status_value pending = "pending"
status_value confirmed = "confirmed"
status_value ticketed = "ticketed"
status_value failed = "failed"
status_value cancelled_order = "cancelled"

pub cabin_of-value : (c : CabinClass) → cabin_of (cabin_value c) ≡ some c
unfolding cabin_of cabin_value
cabin_of-value economy = refl
cabin_of-value _ = refl

pub passenger_of-value : (t : PassengerType) → passenger_of (passenger_value t) ≡ some t
unfolding passenger_of passenger_value
passenger_of-value adult = refl
passenger_of-value _ = refl

pub place_of-value : (t : PlaceType) → place_of (place_value t) ≡ some t
unfolding place_of place_value
place_of-value airport = refl
place_of-value city = refl
