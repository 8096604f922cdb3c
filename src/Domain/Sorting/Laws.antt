-- ===== src/Domain/Sorting/Laws.antt =====
-- Sorting offers by price gives the same offers, the cheapest first.
use mathlib.Core.List.Perm
use mathlib.Core.List.{Perm}
use fly_desk.Prelude.{◌≡◌, true, false, inl, inr, List, [], ◌∷◌, arith, Bool-cases}
use fly_desk.Prelude.Lists.{All}
use fly_desk.Domain.Money.{le_decimal_total}
use fly_desk.Domain.Models.{Offer}
use fly_desk.Domain.Sorting.{cheaper, place_offer, sort_offers}

-- No offer is followed by a cheaper one.
abbrev pub IsSorted : List Offer → Type 0
IsSorted [] = Unit
IsSorted (o ∷ []) = Unit
IsSorted (o ∷ p ∷ rest) = (cheaper o p ≡ true) × IsSorted (p ∷ rest)

not_cheaper : (o p : Offer) → cheaper o p ≡ false → cheaper p o ≡ true
not_cheaper o p h = ground (arith, le_decimal_total o.total.amount p.total.amount)

place_offer-head :
    (p o : Offer) (l : List Offer)
    → cheaper p o ≡ true
    → IsSorted (p ∷ l)
    → IsSorted (place_offer o l)
    → IsSorted (p ∷ place_offer o l)
unfolding place_offer
place_offer-head p o [] h s t = (h, tt)
place_offer-head p o (q ∷ l) h s t = elim (Bool-cases (cheaper o q)) [
  | inl before ↦ rw before (h, (before, s.1))
  | inr after ↦ rw after (s.0, rw after at t)
]

place_offer-IsSorted : (o : Offer) (l : List Offer) → IsSorted l → IsSorted (place_offer o l)
unfolding place_offer
place_offer-IsSorted o [] s = tt
place_offer-IsSorted o (p ∷ l) s = elim (Bool-cases (cheaper o p)) [
  | inl before ↦ rw before (before, s)
  | inr after ↦ rw after (
      place_offer-head p o l (not_cheaper o p after) s
        (place_offer-IsSorted o l (tail_sorted p l s)))
]
  where
    tail_sorted : (p : Offer) (l : List Offer) → IsSorted (p ∷ l) → IsSorted l
    tail_sorted p [] s = tt
    tail_sorted p (q ∷ l) s = s.1

pub sort_offers-IsSorted : (l : List Offer) → IsSorted (sort_offers l)
unfolding sort_offers
sort_offers-IsSorted [] = tt
sort_offers-IsSorted (o ∷ l) = place_offer-IsSorted o (sort_offers l) (sort_offers-IsSorted l)

place_offer-Perm : (o : Offer) (l : List Offer) → Perm (place_offer o l) (o ∷ l)
unfolding place_offer
place_offer-Perm o [] = Perm.refl (o ∷ [])
place_offer-Perm o (p ∷ l) = elim (Bool-cases (cheaper o p)) [
  | inl before ↦ rw before (Perm.refl (o ∷ p ∷ l))
  | inr after ↦ rw after (Perm.trans (Perm.cons p (place_offer-Perm o l)) (Perm.swap o p l))
]

pub sort_offers-Perm : (l : List Offer) → Perm (sort_offers l) l
unfolding sort_offers
sort_offers-Perm [] = Perm.refl []
sort_offers-Perm (o ∷ l) =
    Perm.trans (place_offer-Perm o (sort_offers l)) (Perm.cons o (sort_offers-Perm l))

-- What holds of each offer of a list holds of each one of the sorted list.
place_offer-All {ℓ} :
    (P : Offer → Type ℓ) (o : Offer) (l : List Offer) → P o → All P l → All P (place_offer o l)
unfolding place_offer
place_offer-All P o [] h hs = (h, tt)
place_offer-All P o (p ∷ l) h hs = elim (Bool-cases (cheaper o p)) [
  | inl first ↦ simp first (h, hs)
  | inr later ↦ simp later (hs.0, place_offer-All P o l h hs.1)
]

pub sort_offers-All {ℓ} : (P : Offer → Type ℓ) (l : List Offer) → All P l → All P (sort_offers l)
unfolding sort_offers
sort_offers-All P [] hs = tt
sort_offers-All P (o ∷ l) hs = place_offer-All P o (sort_offers l) hs.0 (sort_offers-All P l hs.1)
