-- ===== src/Examples/Stall.antt =====
-- The theorems on the endpoints of the demonstration, over a shop with two flights.
use fly_desk.Prelude.{ℕ, ◌≡◌, refl, eq_iff, true, some, [], ◌∷◌}
use fly_desk.Prelude.Lists.{All}
use fly_desk.Errors.{returned}
use fly_desk.Domain.Models.{Offer}
use fly_desk.Domain.Time.{Date}
use fly_desk.Bookings.Repository.{find_by_idempotency_key, load}
use fly_desk.Bookings.Service.{World, truthy}
use fly_desk.Bookings.Service.Ports.{acquired}
use fly_desk.Search.Document.{dump_offer, dump_offers}
use fly_desk.Demo.Seed.{Shop, seed, load_offers, live_offers, put_bundle, put_each}
use fly_desk.Domain.Criteria.{make_criteria, validate_dates_and_route}
use fly_desk.Domain.Text.{upper, strip, lstrip, rstrip, isalpha, all}
use fly_desk.Domain.Codes.{airport_code}
use fly_desk.Domain.Money.{le_decimal}
use fly_desk.Domain.Sorting.{sort_offers}
use fly_desk.Prelude.Dicts.{insert}
use fly_desk.Demo.Seed.Store.{IsStore}
use fly_desk.Demo.Seed.Normal.{FindsNormal}
use fly_desk.Demo.App.{criteria_of, Newest, injected, search}
use fly_desk.Demo.Cockpit.{Cockpit, Reply, answered, SearchBody, SearchAnswer}
use fly_desk.Demo.App.Sold.{IsCockpit, IsSold}
use fly_desk.Demo.App.Priced.{search_then_book}
use fly_desk.Examples.Fixtures.{ascii, ascii-IsUnicode, letter, digit}
use fly_desk.Examples.Store.{orders, no_orders}
use fly_desk.Examples.Searched as Searched
use fly_desk.Examples.Searched.{Life, priced, loop, whole}
use fly_desk.Examples.Demos.{tomorrow, shop, shop-IsStore}

abbrev other : Offer
other = record (priced 200) { id = "off_2" }

abbrev stall : Shop loop whole
stall = record shop { live_search = λ c w. (returned (priced 300 ∷ other ∷ []), w) }

stall-IsStore : IsStore stall
stall-IsStore = record {
  written = shop-IsStore.written;
  others = shop-IsStore.others;
  noted = shop-IsStore.noted;
  kept = shop-IsStore.kept;
  count_apart = shop-IsStore.count_apart;
  only_read = shop-IsStore.only_read;
}

stall-FindsNormal : FindsNormal ascii stall
stall-FindsNormal c w = (
  Searched.priced-IsNormalOffer 300,
  (
    record {
      owner = (Searched.priced-IsNormalOffer 200).owner;
      currency = (Searched.priced-IsNormalOffer 200).currency;
      slices = (Searched.priced-IsNormalOffer 200).slices;
      nonempty = (Searched.priced-IsNormalOffer 200).nonempty;
    },
    tt,
  ),
)

abbrev born : Date
born = record { year = 1980; month = 7; day = 24 }

abbrev cockpit : Cockpit whole
cockpit = record {
  Seconds = ℕ;
  set_nx = λ k ttl w. (acquired, w);
  scan = λ pattern w. (some [], w);
  ttl = λ k w. (some 60, w);
  event_id = λ w. ("evt_1", w);
  hex = λ w. ("0f", w);
  date_of = λ text. some born;
  describe = λ e. "";
}

cockpit-IsCockpit : IsCockpit stall cockpit
cockpit-IsCockpit = record { reserving = λ k j ttl w ne. refl; load-dump = λ doc. refl }

abbrev newest : Newest orders
newest s n = orders.find s (λ d. true) n

abbrev route : SearchBody
route = record {
  origin = "WAW";
  destination = "LIS";
  departure_date = Searched.trip.departure_date;
}

abbrev opened : World ascii orders (injected ascii loop whole stall cockpit)
opened = record { orders = no_orders; env = Searched.begun.1; bookings = 0 }

abbrev answer : Reply SearchAnswer × Life
answer = search ascii loop whole stall cockpit route opened.env

abbrev dated : Offer → Offer
dated o = record o { expires_at = some tomorrow }

abbrev shown : SearchAnswer
shown = record {
  count = 2;
  cache_key = "offers:WAW";
  ttl_seconds = 300;
  offers = dump_offer (dated other) ∷ dump_offer (dated (priced 300)) ∷ [];
}

search_run : search ascii loop whole stall cockpit route opened.env ≡ (answered shown, answer.1)
unfolding search seed load_offers live_offers put_bundle put_each sort_offers le_decimal insert
    criteria_of make_criteria airport_code validate_dates_and_route upper strip lstrip rstrip
    isalpha all letter digit dump_offers
search_run = refl

search_then_book_example :
    All
      (IsSold ascii loop whole stall cockpit orders newest cockpit-IsCockpit "k1"
        (record opened { env = answer.1 }))
      shown.offers
unfolding truthy find_by_idempotency_key load dump_offer
search_then_book_example =
    search_then_book ascii ascii-IsUnicode loop whole stall cockpit orders newest stall-IsStore
      cockpit-IsCockpit stall-FindsNormal route opened answer.1 shown "k1" born search_run
      (((λ h. cc ((eq_iff "off" "off_2").1 h)), tt), (tt, tt)) refl refl refl refl
