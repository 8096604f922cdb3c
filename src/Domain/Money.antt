-- ===== src/Domain/Money.antt =====
-- `Money` of flydesk/domain/models.py. A `Decimal` is its sign, its digits and the number of decimal
-- places; the text that `f"{v:.2f}"` makes of one is its sign and a number of hundredths.
use fly_desk.Prelude.{
  ℕ, zero, suc, ◌+◌, ◌-◌, ◌*◌, ◌/◌, ◌%◌, ◌^◌, ◌≤◌, ◌<◌, ◌≡◌, refl, ◌≢◌, ◌⊎◌, ap, ◌∙◌, String, Bool,
  true, ◌&&◌, Option, some, leb, ltb, ◌==◌, arith, if◌then◌else◌,
}
use native.Mathlib.Nat.{pow-suc, mul-mod_left}
use fly_desk.Prelude.Options.{◌>>=◌}
use fly_desk.Domain.Text.{CharTable}
use fly_desk.Domain.Codes.{currency_iso4217}

pub record Decimal : Type 0 where
  pub negative : Bool
  pub digits : ℕ
  pub places : ℕ

-- `a <= b` on the values: the magnitudes are compared over one denominator.
unfoldable pub le_decimal : Decimal → Decimal → Bool
le_decimal a b =
    let x = a.digits * 10 ^ b.places in
    let y = b.digits * 10 ^ a.places in
    if a.negative
    then (if b.negative then leb y x else true)
    else (if b.negative then x == 0 && y == 0 else leb x y)

-- The quotient rounded to the nearest whole number, a half to the even one.
unfoldable pub round_half_even : ℕ → ℕ → ℕ
round_half_even n d =
    let q = n / d in
    let r = n % d in if ltb (2 * r) d then q else if ltb d (2 * r) then q + 1 else q + q % 2

pub record AmountText : Type 0 where
  pub minus : Bool
  pub hundredths : ℕ

-- `Money._amount_as_str`
unfoldable pub amount_as_str : Decimal → AmountText
unfolding round_half_even
amount_as_str v = record {
  minus = v.negative;
  hundredths =
      if leb v.places 2
      then v.digits * 10 ^ (2 - v.places)
      else round_half_even v.digits (10 ^ (v.places - 2));
}

-- `Decimal` of such a text
unfoldable pub decimal_of : AmountText → Decimal
decimal_of s = record { negative = s.minus; digits = s.hundredths; places = 2 }

pub record Money : Type 0 where
  pub amount : Decimal
  pub currency : String

-- `Money(amount=..., currency=...)`
unfoldable pub make_money : CharTable → Decimal → String → Option Money
make_money t amount currency = do
  c ← currency_iso4217 t currency
  some (record { amount = amount; currency = c })

-- `Money.model_dump(mode="json")` and `Money.model_validate`
pub record MoneyDoc : Type 0 where
  pub amount : AmountText
  pub currency : String

unfoldable pub dump_money : Money → MoneyDoc
unfolding amount_as_str
dump_money m = record { amount = amount_as_str m.amount; currency = m.currency }

unfoldable pub load_money : CharTable → MoneyDoc → Option Money
unfolding make_money decimal_of
load_money t d = make_money t (decimal_of d.amount) d.currency

-- What an amount is after one save and load.
unfoldable pub reload_amount : Decimal → Decimal
unfolding amount_as_str decimal_of
reload_amount v = decimal_of (amount_as_str v)

abbrev pub SameValue : Decimal → Decimal → Type 0
SameValue a b = (a.negative ≡ b.negative) × (a.digits * 10 ^ b.places ≡ b.digits * 10 ^ a.places)

-- The order of amounts is total.
pub le_decimal_total : (a b : Decimal) → (le_decimal a b ≡ true) ⊎ (le_decimal b a ≡ true)
unfolding le_decimal
le_decimal_total a b = ground arith

-- A second save and load changes nothing more.
pub reload_amount-reload_amount : (v : Decimal) → reload_amount (reload_amount v) ≡ reload_amount v
unfolding reload_amount
reload_amount-reload_amount v = ground arith

amount_as_str-again : (v : Decimal) → amount_as_str (reload_amount v) ≡ amount_as_str v
unfolding amount_as_str reload_amount
amount_as_str-again v = ground arith

-- An amount that was saved and loaded is saved as the same text.
pub dump_money-reload :
    (m : Money) → dump_money (record m { amount = reload_amount m.amount }) ≡ dump_money m
unfolding dump_money
dump_money-reload m =
    ap (λ (a : AmountText). record { amount = a; currency = m.currency })
      (amount_as_str-again m.amount)

hundred-split : (d p : ℕ) → p ≤ 2 → d * 100 ≡ d * 10 ^ (2 - p) * 10 ^ p
hundred-split d zero h = omega arith
hundred-split d (suc zero) h = omega arith
hundred-split d (suc (suc zero)) h = omega arith
hundred-split d (suc (suc (suc p))) h = absurd (omega arith)

-- An amount with at most two decimal places keeps its value through a save and a load.
pub reload_amount_exact : (v : Decimal) → v.places ≤ 2 → SameValue v (reload_amount v)
unfolding reload_amount
reload_amount_exact v h = (refl, ground (arith, hundred-split v.digits v.places h))

round_half_even_near :
    (n d : ℕ)
    → 0 < d
    → (2 * n ≤ (2 * round_half_even n d + 1) * d) × (2 * round_half_even n d * d ≤ 2 * n + d)
unfolding round_half_even
round_half_even_near n d h = grind arith

ten_pow_pos : (k : ℕ) → 0 < 10 ^ k
ten_pow_pos zero = omega arith
ten_pow_pos (suc k) = rw pow-suc (omega (arith, ten_pow_pos k))

-- An amount with more decimal places is rounded to a nearest whole number of hundredths: the digits
-- that come back are at most half a hundredth away.
pub reload_amount_near :
    (v : Decimal)
    → 2 < v.places
    → let c = (reload_amount v).digits in
      let unit = 10 ^ (v.places - 2) in
      (2 * v.digits ≤ (2 * c + 1) * unit) × (2 * c * unit ≤ 2 * v.digits + unit)
unfolding reload_amount
reload_amount_near v h =
    ground (arith, round_half_even_near v.digits (10 ^ (v.places - 2)) (ten_pow_pos (v.places - 2)))

whole_of_same : (d c k : ℕ) → d * 100 ≡ c * 10 ^ suc (suc k) → d ≡ c * 10 ^ k
whole_of_same d c k e = let e' : d * 100 ≡ c * (10 ^ k * 10 * 10) = simp pow-suc at e in omega arith

reload_places :
    (v : Decimal)
    → v.digits * 10 ^ (reload_amount v).places ≡ (reload_amount v).digits * 10 ^ v.places
    → v.digits * 100 ≡ (reload_amount v).digits * 10 ^ v.places
unfolding reload_amount
reload_places v e = e

-- An amount that is no whole number of hundredths comes back from a save and a load with another
-- value.
pub reload_amount_loses :
    (v : Decimal)
    → 2 < v.places
    → v.digits % 10 ^ (v.places - 2) ≢ 0
    → ¬ SameValue v (reload_amount v)
reload_amount_loses v h part same =
    let c = (reload_amount v).digits in
    let k = v.places - 2 in
    let two_more : v.places ≡ suc (suc k) = omega arith in
    part (
      ap (λ n. n % 10 ^ k)
        (whole_of_same v.digits c k (reload_places v same.1 ∙ ap (λ n. c * 10 ^ n) two_more))
      ∙ mul-mod_left c (10 ^ k))
