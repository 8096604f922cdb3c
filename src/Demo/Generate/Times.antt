-- ===== src/Demo/Generate/Times.antt =====
-- The flights of demo/generate.py: where they go, and when.
use Prim.Native.String.{◌++◌}
use fly_desk.Prelude.{
  ℕ, zero, suc, ◌+◌, ◌-◌, ◌*◌, ◌≤◌, ◌≡◌, refl, String, Bool, true, false, none, List, [], ◌∷◌,
  arith,
}
use fly_desk.Prelude.Lists.{length, All}
use fly_desk.Domain.Time.{Date, Datetime, naive, aware}
use fly_desk.Providers.Duffel.{DuffelPlace, DuffelSegment, DuffelOffer}
use fly_desk.Demo.Generate.Tables.{hubs}
use fly_desk.Demo.Generate.{
  Random, minute, airport_at, choose, hubs_between, segment_from, connecting, segments_of,
  passengers_from, offer_from, offers_from, offer_count, generate, at_least,
}

-- The numbers that are drawn lie in their range.
abbrev pub IsFair : Random → Type 0
IsFair g =
    (lo hi : ℕ) (r : g.R) → lo ≤ hi → (lo ≤ (g.randint lo hi r).0) × ((g.randint lo hi r).0 ≤ hi)

abbrev pub reading : Datetime → ℕ
reading (naive w) = w
reading (aware w u) = w

-- The segments lead from one place to the other, with 45 minutes or more at each stop between.
abbrev pub Connected : DuffelPlace → DuffelPlace → List DuffelSegment → Type 0
Connected from to [] = ⊥
Connected from to (s ∷ []) = (s.origin ≡ from) × (s.destination ≡ to)
Connected from to (s ∷ s' ∷ rest) =
    (s.origin ≡ from)
    × (reading s.arriving_at + 45 * minute ≤ reading s'.departing_at)
    × Connected s.destination to (s' ∷ rest)

at_least-le : (g : Random) (n : ℕ) → n ≤ at_least g 60 n
at_least-le g n = ground arith

module _ (g : Random) (fair : IsFair g) where
  connecting-Connected :
      (idx origin destination : String) (dep total : ℕ) (carrier : String × String) (cabin : String)
      (r : g.R)
      → Connected
          (airport_at g origin)
          (airport_at g destination)
          (connecting g idx origin destination dep total carrier cabin r).0
  unfolding connecting segment_from
  connecting-Connected idx origin destination dep total carrier cabin r =
      let (hub, r1) = choose g "" (hubs_between origin destination hubs) r in
      let (leg1, r2) = g.portion total r1 in
      (refl, omega (arith, (fair 45 150 r2 (omega arith)).0), (refl, refl))

  segments_of-Connected :
      (direct : Bool) (idx origin destination : String) (dep total : ℕ) (carrier : String × String)
      (cabin : String) (r : g.R)
      → Connected
          (airport_at g origin)
          (airport_at g destination)
          (segments_of g direct idx origin destination dep total carrier cabin r).0
  unfolding segment_from
  segments_of-Connected true idx origin destination dep total carrier cabin r = (refl, refl)
  segments_of-Connected false idx origin destination dep total carrier cabin r =
      connecting-Connected idx origin destination dep total carrier cabin r

  length-passengers_from : (i n : ℕ) → length (passengers_from g i n) ≡ n
  unfolding passengers_from
  length-passengers_from i zero = refl
  length-passengers_from i (suc n) = omega (arith, length-passengers_from (i + 1) n)

  -- What a generated offer promises.
  abbrev pub IsPlanned : String → String → ℕ → DuffelOffer → Type 0
  IsPlanned origin destination n o =
      (length o.slices ≡ 1)
      × All (λ s. Connected (airport_at g origin) (airport_at g destination) s.segments) o.slices
      × (length o.passengers ≡ n)

  offers_from-IsPlanned :
      (i n : ℕ) (origin destination : String) (d : Date) (cabin : String) (people : ℕ) (r : g.R)
      → let offers = (offers_from g i n origin destination d cabin people r).0 in
        All (IsPlanned origin destination people) offers × (length offers ≡ n)
  unfolding offers_from offer_from
  offers_from-IsPlanned i zero origin destination d cabin people r = (tt, refl)
  offers_from-IsPlanned i (suc n) origin destination d cabin people r =
      let (all, count) =
        offers_from-IsPlanned (i + 1) n origin destination d cabin people
          (offer_from g i origin destination d cabin people r).1 in
      (
        (
          (
            refl,
            (segments_of-Connected _ _ origin destination _ _ _ cabin _, tt),
            length-passengers_from 0 people,
          ),
          all,
        ),
        omega (arith, count),
      )

  offer_count-range : (r : g.R) → (9 ≤ (offer_count g none r).0) × ((offer_count g none r).0 ≤ 14)
  offer_count-range r = fair 9 14 r (omega arith)

  -- A generated search result has nine to fourteen offers. Each has one slice, whose segments lead from
  -- the origin to the destination and leave 45 minutes or more to change, and a slot for each
  -- passenger.
  pub generate-IsPlanned :
      (origin destination : String) (d : Date) (cabin : String) (people : ℕ)
      → let offers = generate g origin destination d cabin people none in
        All (IsPlanned origin destination people) offers
        × (9 ≤ length offers)
        × (length offers ≤ 14)
  unfolding generate
  generate-IsPlanned origin destination d cabin people =
      let (n, r) =
        offer_count g none
          (g.seeded (origin ++ "-" ++ destination ++ "-" ++ g.isoformat d ++ "-" ++ cabin)) in
      let (all, count) = offers_from-IsPlanned 0 n origin destination d cabin people r in
      let (low, high) =
        offer_count-range
          (g.seeded (origin ++ "-" ++ destination ++ "-" ++ g.isoformat d ++ "-" ++ cabin)) in
      (all, omega (arith, count, low), omega (arith, count, high))

-- A flight with a change takes at least 45 minutes longer than the minutes that it is planned for, which
-- are those that its slice shows.
pub connecting-elapsed :
    (g : Random) (fair : IsFair g) (idx origin destination : String) (dep total : ℕ)
    (carrier : String × String) (cabin : String) (r : g.R)
    → (s s' : DuffelSegment) × ((connecting g idx origin destination dep total carrier cabin r).0
        ≡ s ∷ s' ∷ [])
      × (reading s.departing_at ≡ dep)
      × (dep + (total + 45) * minute ≤ reading s'.arriving_at)
unfolding connecting segment_from
connecting-elapsed g fair idx origin destination dep total carrier cabin r =
    let (hub, r1) = choose g "" (hubs_between origin destination hubs) r in
    let (leg1, r2) = g.portion total r1 in
    let (layover, r3) = g.randint 45 150 r2 in
    (
      _,
      _,
      refl,
      refl,
      omega (arith, (fair 45 150 r2 (omega arith)).0, at_least-le g (total - leg1)),
    )
