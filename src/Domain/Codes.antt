-- ===== src/Domain/Codes.antt =====
-- The validated codes of flydesk/domain/models.py: IATA codes of airports and carriers, and ISO
-- 4217 currencies. `none` is the `ValueError`.
use Prim.Native.String.{String, count}
use fly_desk.Prelude.{
  ◌≡◌, ap, ◌∙◌, sym, true, Option, none, some, ◌||◌, not, ◌==◌, arith, if◌then◌else◌,
}
use fly_desk.Domain.Text.{
  CharTable, IsUnicode, strip, upper, isalpha, isalnum, strip-visible, upper-upper, all-isalpha,
  all-isalnum,
}

module _ (t : CharTable) where
  -- `_airport_code`
  unfoldable pub airport_code : String → Option String
  airport_code value =
      let code = upper t (strip t value) in
      if not (count code == 3) || not (isalpha t code) then none else some code

  -- `_carrier_code`
  unfoldable pub carrier_code : String → Option String
  carrier_code value =
      let code = upper t (strip t value) in
      if not (count code == 2) || not (isalnum t code) then none else some code

  -- `Money._currency_iso4217`
  unfoldable pub currency_iso4217 : String → Option String
  currency_iso4217 value =
      let v = upper t (strip t value) in
      if not (count v == 3) || not (isalpha t v) then none else some v

module _ (t : CharTable) (u : IsUnicode t) where
  -- A letter code that came out of the normalisation is left as it is by it.
  alpha_fixed :
      (v c : String) → upper t (strip t v) ≡ c → isalpha t c ≡ true → upper t (strip t c) ≡ c
  alpha_fixed v c e h =
      ap (upper t) (strip-visible t t.is_alpha u.alpha_visible c (all-isalpha t c h))
      ∙ ap (upper t) (sym e)
      ∙ upper-upper t u (strip t v)
      ∙ e

  alnum_fixed :
      (v c : String) → upper t (strip t v) ≡ c → isalnum t c ≡ true → upper t (strip t c) ≡ c
  alnum_fixed v c e h =
      ap (upper t) (strip-visible t t.is_alnum u.alnum_visible c (all-isalnum t c h))
      ∙ ap (upper t) (sym e)
      ∙ upper-upper t u (strip t v)
      ∙ e

  -- An accepted airport code has three characters, all letters, and is accepted again unchanged.
  pub airport_code_idem :
      (v c : String)
      → airport_code t v ≡ some c
      → (airport_code t c ≡ some c) × (count c ≡ 3) × (isalpha t c ≡ true)
  unfolding airport_code
  airport_code_idem v c e = ground (arith, alpha_fixed v c)

  -- An accepted airline code has two characters, letters or digits, and is accepted again
  -- unchanged.
  pub carrier_code_idem :
      (v c : String)
      → carrier_code t v ≡ some c
      → (carrier_code t c ≡ some c) × (count c ≡ 2) × (isalnum t c ≡ true)
  unfolding carrier_code
  carrier_code_idem v c e = ground (arith, alnum_fixed v c)

  -- An accepted currency has three letters and is accepted again unchanged.
  pub currency_iso4217_idem :
      (v c : String)
      → currency_iso4217 t v ≡ some c
      → (currency_iso4217 t c ≡ some c) × (count c ≡ 3) × (isalpha t c ≡ true)
  unfolding currency_iso4217
  currency_iso4217_idem v c e = ground (arith, alpha_fixed v c)
