-- ===== src/Observability/Clean.antt =====
-- What a report looks like after flydesk/common/observability.py has gone over it.
use mathlib.Core.Path.{ap₂}
use fly_desk.Prelude.{◌≡◌, refl, ap, String, Bool, true, false, if◌then◌else◌, Bool-cases, inl, inr}
use fly_desk.Observability.{
  Report, null, num, text, seq, dict, Elements, none_left, element, Entries, no_more, entry, is_pii,
  redacted, scrub_pii, scrub_elements, scrub_entries,
}

-- Under a personal key stands only the redaction, at every depth.
mutual
  pub IsClean : Report → Type 0
  IsClean (dict fields) = AllClean fields
  IsClean (seq items) = EachClean items
  IsClean null = Unit
  IsClean (num n) = Unit
  IsClean (text s) = Unit

  pub EachClean : Elements → Type 0
  EachClean none_left = Unit
  EachClean (element v rest) = IsClean v × EachClean rest

  pub AllClean : Entries → Type 0
  AllClean no_more = Unit
  AllClean (entry k v rest) = (is_pii k ≡ true → v ≡ redacted) × IsClean v × AllClean rest

entry-Clean :
    (b : Bool) (v : Report)
    → IsClean v
    → (b ≡ true → (if b then redacted else v) ≡ redacted) × IsClean (if b then redacted else v)
unfolding IsClean
entry-Clean true v h = (λ e. refl, tt)
entry-Clean false v h = (λ e. cc, h)

mutual
  unfolding scrub_pii scrub_elements scrub_entries IsClean EachClean AllClean

  scrubbed-IsClean : (r : Report) → IsClean (scrub_pii r)
  scrubbed-IsClean (dict fields) = scrubbed-AllClean fields
  scrubbed-IsClean (seq items) = scrubbed-EachClean items
  scrubbed-IsClean null = tt
  scrubbed-IsClean (num n) = tt
  scrubbed-IsClean (text s) = tt

  scrubbed-EachClean : (l : Elements) → EachClean (scrub_elements l)
  scrubbed-EachClean none_left = tt
  scrubbed-EachClean (element v rest) = (scrubbed-IsClean v, scrubbed-EachClean rest)

  scrubbed-AllClean : (l : Entries) → AllClean (scrub_entries l)
  scrubbed-AllClean no_more = tt
  scrubbed-AllClean (entry k v rest) =
      let (only, clean) = entry-Clean (is_pii k) (scrub_pii v) (scrubbed-IsClean v) in
      (only, clean, scrubbed-AllClean rest)

entry-same :
    (k : String) (v : Report)
    → (is_pii k ≡ true → v ≡ redacted)
    → scrub_pii v ≡ v
    → (if is_pii k then redacted else scrub_pii v) ≡ v
entry-same k v only same = elim (Bool-cases (is_pii k)) [
  | inl yes_pii ↦ cc (yes_pii, only yes_pii)
  | inr no_pii ↦ cc (no_pii, same)
]

mutual
  unfolding scrub_pii scrub_elements scrub_entries IsClean EachClean AllClean

  clean-same : (r : Report) → IsClean r → scrub_pii r ≡ r
  clean-same (dict fields) h = ap dict (clean_entries-same fields h)
  clean-same (seq items) h = ap seq (clean_elements-same items h)
  clean-same null h = refl
  clean-same (num n) h = refl
  clean-same (text s) h = refl

  clean_elements-same : (l : Elements) → EachClean l → scrub_elements l ≡ l
  clean_elements-same none_left h = refl
  clean_elements-same (element v rest) h =
      ap₂ element (clean-same v h.0) (clean_elements-same rest h.1)

  clean_entries-same : (l : Entries) → AllClean l → scrub_entries l ≡ l
  clean_entries-same no_more h = refl
  clean_entries-same (entry k v rest) (only, clean, others) =
      ap₂ (entry k) (entry-same k v only (clean-same v clean)) (clean_entries-same rest others)

-- A scrubbed report holds nothing but the redaction under any personal key, however deep, and
-- scrubbing it again changes nothing.
pub scrub_pii-IsClean :
    (r : Report) → IsClean (scrub_pii r) × (scrub_pii (scrub_pii r) ≡ scrub_pii r)
scrub_pii-IsClean r = (scrubbed-IsClean r, clean-same (scrub_pii r) (scrubbed-IsClean r))
