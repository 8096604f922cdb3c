-- ===== src/Demo/Seed/Store.antt =====
-- The Redis of flydesk/demo: the keys that it uses, and what it is taken to keep.
use Prim.Native.String.{◌++◌}
use Prim.Native.Char.{Char, code}
use text.Mathlib.TextLemmas.{cons-append, head-eq_of_cons-eq, append_cancel_left}
use fly_desk.Prelude.{ℕ, ◌≡◌, ◌≢◌, sym, ap, ◌∙◌, String, List, [], ◌∷◌, arith}
use fly_desk.Prelude.Lists.{All}
use fly_desk.Search.FanOut.{Loop}
use fly_desk.Search.Cache.{Platform}
use fly_desk.Search.Cache.Laws.{KeepsWrites}
use fly_desk.Demo.Seed.{Shop, offer_key}

-- A key of an offer is no key of a search.
pub offer_key-ne : (a b : String) → offer_key a ≢ "offers:" ++ b
offer_key-ne a b h =
    let d : Char = "d" in
    let o : Char = "o" in
    let same : d ≡ o =
      head-eq_of_cons-eq (sym (cons-append d "emo:offer:" a) ∙ h ∙ cons-append o "ffers:" b) in
    absurd (omega (arith, ap code same))

pub offer_key-apart : (a b : String) → a ≢ b → offer_key a ≢ offer_key b
offer_key-apart a b ne h = ne (append_cancel_left "demo:offer:" a b h)

-- No two items of the list have the same id.
abbrev pub HaveOwnIds {ℓ} : {A : Type ℓ} → (A → String) → List A → Type ℓ
HaveOwnIds id [] = Unit
HaveOwnIds id (o ∷ rest) = All (λ p. id p ≢ id o) rest × HaveOwnIds id rest

-- Redis keeps a value until the same key is written, and reading changes nothing.
pub record IsStore {l : Loop} {r : Platform l} (d : Shop l r) : Type 0 where
  pub written : KeepsWrites r
  pub others :
      (k j : String) (v : r.Text) (ttl : ℕ) (w : l.W)
      → j ≢ k
      → (r.get k (r.set j v ttl w).1).0 ≡ (r.get k w).0
  pub noted : (k s m : String) (w : l.W) → (r.get k (d.sadd s m w).1).0 ≡ (r.get k w).0
  pub kept : (k s : String) (ttl : ℕ) (w : l.W) → (r.get k (d.expire s ttl w).1).0 ≡ (r.get k w).0
  pub count_apart : (k : String) (w : l.W) → (r.get k (d.count_search w)).0 ≡ (r.get k w).0
  pub only_read : (k : String) (w : l.W) → (r.get k w).1 ≡ w
