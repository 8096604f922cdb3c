-- ===== src/Settings/Hosts.antt =====
-- The hosts that flydesk/common/config.py reads.
use Prim.Native.String.{String, [], ◌∷◌}
use fly_desk.Prelude.{◌≡◌, refl, ap, ◌∙◌, false, ◌&&◌, Bool-cases, inl, inr, List}
use fly_desk.Prelude.{[] as []l, ◌∷◌ as ◌∷l◌}
use fly_desk.Prelude.Lists.{All}
use fly_desk.Domain.Text.{CharTable, is_empty, lstrip, rstrip, strip}
use fly_desk.Settings.{Settings, hosts, split, allowed_hosts_list}

module _ (t : CharTable) where
  rstrip_idem : (s : String) → rstrip t (rstrip t s) ≡ rstrip t s
  unfolding rstrip
  rstrip_idem [] = refl
  rstrip_idem (c ∷ s) = elim (Bool-cases (t.is_space c && is_empty (rstrip t s))) [
    | inl blank ↦ simp blank
    | inr full ↦ simp (full, rstrip_idem s)
  ]

  -- What is left of a text on the left is nothing, or starts with a visible character.
  lstrip-rstrip-lstrip : (s : String) → lstrip t (rstrip t (lstrip t s)) ≡ rstrip t (lstrip t s)
  unfolding lstrip rstrip
  lstrip-rstrip-lstrip [] = refl
  lstrip-rstrip-lstrip (c ∷ s) = elim (Bool-cases (t.is_space c)) [
    | inl blank ↦ simp (blank, lstrip-rstrip-lstrip s)
    | inr seen ↦ simp seen
  ]

  strip_idem : (s : String) → strip t (strip t s) ≡ strip t s
  unfolding strip
  strip_idem s = ap (rstrip t) (lstrip-rstrip-lstrip s) ∙ rstrip_idem (lstrip t s)

  -- A host is not empty and has no white space around it.
  abbrev pub IsHost : String → Type 0
  IsHost h = (is_empty h ≡ false) × (strip t h ≡ h)

  hosts-All : (l : List String) → All IsHost (hosts t l)
  unfolding hosts
  hosts-All []l = tt
  hosts-All (h ∷l l) = elim (Bool-cases (is_empty (strip t h))) [
    | inl blank ↦ rw blank (hosts-All l)
    | inr full ↦ rw full ((full, strip_idem h), hosts-All l)
  ]

  -- However the setting is written, every allowed host is non-empty and has no white space around it.
  pub allowed_hosts_lem : (s : Settings) → All IsHost (allowed_hosts_list t s)
  unfolding allowed_hosts_list
  allowed_hosts_lem s = hosts-All (split s.django_allowed_hosts)
