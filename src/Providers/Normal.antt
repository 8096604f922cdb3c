-- ===== src/Providers/Normal.antt =====
-- The parts that the mappers of the providers make are well-formed.
use fly_desk.Prelude.{◌≡◌, ◌≢◌, ℕ, String, Option, some, List, [], ◌∷◌}
use mathlib.Core.Option.{some-injective}
use mathlib.Core.Path.{subst}
use fly_desk.Prelude.Lists.{All}
use fly_desk.Prelude.Options.{>>=-eq-some, traverse}
use fly_desk.Domain.Enums.{PlaceType}
use fly_desk.Domain.Text.{CharTable, IsUnicode}
use fly_desk.Domain.Codes.{
  airport_code, carrier_code, currency_iso4217, airport_code_idem, carrier_code_idem,
  currency_iso4217_idem,
}
use fly_desk.Domain.Money.{Decimal, Money, make_money}
use fly_desk.Domain.Models.{
  Place, make_place, Carrier, make_carrier, Segment, Slice, make_slice, some_slice,
}
use fly_desk.Bookings.Document.RoundTrip.{IsPlace, IsCarrier, IsSegment, IsSlice}

pub traverse-All :
    {A B : Type 0} (f : A → Option B) (P : B → Type 0)
    → ((a : A) (b : B) → f a ≡ some b → P b)
    → (l : List A) (l' : List B) → traverse f l ≡ some l'
    → All P l'
unfolding traverse
traverse-All f P h [] l' e = subst (All P) (some-injective _ _ e) tt
traverse-All f P h (a ∷ l) l' e =
    let (b, eb, e1) = >>=-eq-some (f a) _ e in
    let (bs, ebs, e2) = >>=-eq-some (traverse f l) _ e1 in
    subst (All P) (some-injective _ _ e2) (h a b eb, traverse-All f P h l bs ebs)

module _ (t : CharTable) (u : IsUnicode t) where
  pub make_place-IsPlace :
      (c : String) (n m : Option String) (k : PlaceType) (q : Place)
      → make_place t c n m k ≡ some q
      → IsPlace t q
  unfolding make_place
  make_place-IsPlace c n m k q e =
      let (code, ec, e1) = >>=-eq-some (airport_code t c) _ e in
      subst (IsPlace t) (some-injective _ _ e1) (airport_code_idem t u c code ec).0

  pub make_carrier-IsCarrier :
      (c : String) (n : Option String) (d : Carrier) → make_carrier t c n ≡ some d → IsCarrier t d
  unfolding make_carrier
  make_carrier-IsCarrier c n d e =
      let (k, ek, e1) = >>=-eq-some (carrier_code t c) _ e in
      subst (IsCarrier t) (some-injective _ _ e1) (carrier_code_idem t u c k ek).0

  pub make_slice-IsSlice :
      (id : String) (o d : Place) (n : Option ℕ) (segments : List Segment) (r : Slice)
      → IsPlace t o
      → IsPlace t d
      → All (IsSegment t) segments
      → make_slice id o d n segments ≡ some r
      → IsSlice t r
  unfolding make_slice
  make_slice-IsSlice id o d n [] r ho hd hs e = cc
  make_slice-IsSlice id o d n (s ∷ rest) r ho hd hs e =
      subst (IsSlice t) (some-injective _ _ e)
        (record { origin = ho; destination = hd; segments = hs; some_segment = λ q. cc })

  pub make_money-code :
      (a : Decimal) (c : String) (m : Money)
      → make_money t a c ≡ some m
      → currency_iso4217 t m.currency ≡ some m.currency
  unfolding make_money
  make_money-code a c m e =
      let (k, ek, e1) = >>=-eq-some (currency_iso4217 t c) _ e in
      subst (λ (x : Money). currency_iso4217 t x.currency ≡ some x.currency) (some-injective _ _ e1)
        (currency_iso4217_idem t u c k ek).0

pub some_slice-eq-some : (l r : List Slice) → some_slice l ≡ some r → (l ≡ r) × (r ≢ [])
some_slice-eq-some [] r e = cc
some_slice-eq-some (s ∷ rest) r e = (some-injective _ _ e, λ h. cc (some-injective _ _ e))
