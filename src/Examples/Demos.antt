-- ===== src/Examples/Demos.antt =====
-- The theorems on the demonstration with a die that always falls on the lowest number.
use fly_desk.Prelude.{
  ◌*◌, ◌/◌, ◌≡◌, ◌≢◌, refl, ap, ◌∙◌, String, true, false, Option, none, some, List, [], ◌∷◌, arith,
  eq_iff,
}
use fly_desk.Prelude.Dicts.{Dict, lookup, insert, lookup-insert}
use fly_desk.Errors.{returned}
use fly_desk.Domain.Models.{Offer}
use fly_desk.Domain.Money.{le_decimal}
use fly_desk.Domain.Sorting.{sort_offers}
use fly_desk.Domain.Time.{Datetime, aware}
use fly_desk.Search.Document.{OfferDoc, reload_offers}
use fly_desk.Search.Cache.{read, cached_search}
use fly_desk.Demo.Seed.{Shop, seed, load_offers, live_offers, put_bundle, put_each}
use fly_desk.Demo.Seed.Store.{IsStore}
use fly_desk.Demo.Seed.Normal.{FindsNormal}
use fly_desk.Demo.Seed.Served.{seed_served}
use fly_desk.Examples.Fixtures.{ascii, ascii-IsUnicode}
use fly_desk.Examples.Searched as Searched
use fly_desk.Examples.Searched.{Life, priced}
use fly_desk.Demo.Generate.{Random}

abbrev lowest : Random
lowest = record {
  R = String;
  seeded = λ seed. seed;
  choice = λ n r. (0, r);
  randint = λ lo hi r. (lo, r);
  direct = λ r. (false, r);
  portion = λ n r. (n / 2, r);
  price = λ minutes direct n r. (minutes * 100 * n, r);
  str = λ n. "7";
  isoformat = λ d. "2026-08-15";
  midnight = λ d. 0;
}

abbrev pub tomorrow : Datetime
tomorrow = aware 99 99

abbrev first_doc : List OfferDoc → Option OfferDoc
first_doc [] = none
first_doc (doc ∷ rest) = some doc

-- A shop whose live search has two offers.
abbrev pub shop : Shop Searched.loop Searched.whole
shop = record {
  random = lowest;
  iso_duration = λ text. none;
  dump_one = λ doc. doc ∷ [];
  load_one = first_doc;
  sadd = λ s m w. (true, w);
  expire = λ s ttl w. (true, w);
  offer_ttl = 300;
  live_duffel = true;
  live_search = λ c w. (returned (priced 300 ∷ priced 200 ∷ []), w);
  now = λ w. aware 0 0;
  fresh_expiry = λ w. tomorrow;
  count_search = λ w. w;
  order_suffix = λ w. ("0", w);
  pnr = λ w. ("ABCDEF", w);
}

other_key :
    (k j : String) (v : List OfferDoc) (kept : Dict (List OfferDoc))
    → j ≢ k
    → lookup k (insert j v kept) ≡ lookup k kept
other_key k j v kept ne = lookup-insert j k v kept ∙ ground (arith, eq_iff j k)

pub shop-IsStore : IsStore shop
shop-IsStore = record {
  written = Searched.whole-KeepsWrites;
  others = λ k j v ttl w ne. ap read (other_key k j v w.kept ne);
  noted = λ k s m w. refl;
  kept = λ k s ttl w. refl;
  count_apart = λ k w. refl;
  only_read = λ k w. refl;
}

abbrev expiring_at : Datetime → Offer → Offer
expiring_at at_time o = record o { expires_at = some at_time }

abbrev sold : List Offer
sold = expiring_at tomorrow (priced 200) ∷ expiring_at tomorrow (priced 300) ∷ []

shop-FindsNormal : FindsNormal ascii shop
shop-FindsNormal c w = (Searched.priced-IsNormalOffer 300, (Searched.priced-IsNormalOffer 200, tt))

abbrev seeded : Life
seeded = (seed ascii Searched.loop Searched.whole shop Searched.trip Searched.begun.1).1

seed_run :
    seed ascii Searched.loop Searched.whole shop Searched.trip Searched.begun.1
    ≡ (returned sold, seeded)
unfolding seed load_offers live_offers put_bundle put_each sort_offers le_decimal insert
seed_run = refl

seed_served_example :
    cached_search ascii Searched.loop Searched.whole Searched.trip
      (record Searched.idle { process = ([], seeded) })
    ≡ (
      returned (reload_offers sold, [], true),
      record Searched.idle { process = ([], seeded); searches_cached = 1 },
    )
seed_served_example =
    seed_served ascii ascii-IsUnicode Searched.loop Searched.whole shop shop-IsStore
      shop-FindsNormal Searched.whole-IsJson Searched.trip Searched.begun.1 seeded sold [] 0 0 []
      seed_run
