-- ===== src/Domain/Text.antt =====
-- Python's `str` methods that the domain models use, over the interpreter's Unicode tables, which
-- are a parameter.
use Prim.Native.Char.{Char}
use Prim.Native.String.{String, [], ◌∷◌, ◌++◌}
use Prim.Native.String.append
use text.Mathlib.TextLemmas.{append_assoc}
use mathlib.Core.Bool.{not}
use mathlib.Core.Path.{ap₂}
use fly_desk.Prelude.{◌≡◌, refl, ap, ◌∙◌, Bool, true, false, ◌&&◌, arith, if◌then◌else◌}

-- The tables of the interpreter. A character may have several in upper case.
pub record CharTable : Type 0 where
  pub is_space : Char → Bool
  pub is_alpha : Char → Bool
  pub is_alnum : Char → Bool
  pub upper : Char → String

abbrev pub is_empty : String → Bool
is_empty [] = true
is_empty (c ∷ s) = false

-- `all(p(c) for c in s)`
unfoldable pub all : (Char → Bool) → String → Bool
all p [] = true
all p (c ∷ s) = p c && all p s

module _ (t : CharTable) where
  unfoldable pub lstrip : String → String
  lstrip [] = []
  lstrip (c ∷ s) = if t.is_space c then lstrip s else c ∷ s

  unfoldable pub rstrip : String → String
  rstrip [] = []
  rstrip (c ∷ s) = let rest = rstrip s in if t.is_space c && is_empty rest then [] else c ∷ rest

  unfoldable pub strip : String → String
  unfolding lstrip rstrip
  strip s = rstrip (lstrip s)

  unfoldable pub upper : String → String
  upper [] = []
  upper (c ∷ s) = t.upper c ++ upper s

  -- The empty text is neither alphabetic nor alphanumeric.
  unfoldable pub isalpha : String → Bool
  unfolding all
  isalpha s = not (is_empty s) && all t.is_alpha s

  unfoldable pub isalnum : String → Bool
  unfolding all
  isalnum s = not (is_empty s) && all t.is_alnum s

-- What Unicode documents of its tables: a letter or a digit is no white space, and upper case is
-- its own upper case.
pub record IsUnicode (t : CharTable) : Type 0 where
  pub alpha_visible : (c : Char) → t.is_alpha c ≡ true → t.is_space c ≡ false
  pub alnum_visible : (c : Char) → t.is_alnum c ≡ true → t.is_space c ≡ false
  pub upper_stable : (c : Char) → upper t (t.upper c) ≡ t.upper c

module _ (t : CharTable) where
  upper-append : (r s : String) → upper t (r ++ s) ≡ upper t r ++ upper t s
  unfolding upper
  upper-append [] s = simp append.nil
  upper-append (c ∷ r) s = simp (append.cons, upper-append r s, append_assoc)

  lstrip-visible :
      (p : Char → Bool)
      → ((c : Char) → p c ≡ true → t.is_space c ≡ false)
      → (s : String) → all p s ≡ true
      → lstrip t s ≡ s
  unfolding lstrip all
  lstrip-visible p h [] e = refl
  lstrip-visible p h (c ∷ s) e = ground (arith, h c)

  rstrip-visible :
      (p : Char → Bool)
      → ((c : Char) → p c ≡ true → t.is_space c ≡ false)
      → (s : String) → all p s ≡ true
      → rstrip t s ≡ s
  unfolding rstrip all
  rstrip-visible p h [] e = refl
  rstrip-visible p h (c ∷ s) e = ground (arith, h c, rstrip-visible p h s)

  pub strip-visible :
      (p : Char → Bool)
      → ((c : Char) → p c ≡ true → t.is_space c ≡ false)
      → (s : String) → all p s ≡ true
      → strip t s ≡ s
  unfolding strip
  strip-visible p h s e = ap (rstrip t) (lstrip-visible p h s e) ∙ rstrip-visible p h s e

  pub all-isalpha : (s : String) → isalpha t s ≡ true → all t.is_alpha s ≡ true
  unfolding isalpha
  all-isalpha s e = ground arith

  pub all-isalnum : (s : String) → isalnum t s ≡ true → all t.is_alnum s ≡ true
  unfolding isalnum
  all-isalnum s e = ground arith

  pub upper-upper : IsUnicode t → (s : String) → upper t (upper t s) ≡ upper t s
  unfolding upper
  upper-upper u [] = refl
  upper-upper u (c ∷ s) =
      upper-append (t.upper c) (upper t s) ∙ ap₂ ◌++◌ (u.upper_stable c) (upper-upper u s)
