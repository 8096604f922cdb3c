-- ===== src/Demo/App/Keyed.antt =====
-- A booking of demo/app.py whose key is given.
use mathlib.Core.Option.{some-injective}
use fly_desk.Prelude.{◌≡◌, sym, ap, ◌∙◌, Bool-cases, inl, inr, str_eq, String, Option, none, some}
use fly_desk.Domain.Text.{CharTable}
use fly_desk.Mongo.{Collection}
use fly_desk.Bookings.Repository.{id_of, index_field}
use fly_desk.Bookings.Service.{World, truthy, create_booking}
use fly_desk.Search.FanOut.{Loop}
use fly_desk.Search.Cache.{Platform}
use fly_desk.Demo.Seed.{Shop}
use fly_desk.Demo.App.{Newest, injected, request_of, key_or_new, booked, book}
use fly_desk.Demo.Cockpit.{Cockpit, BookBody}

pub truthy_again :
    (key : Option String) (k : String) → truthy key ≡ some k → truthy (some k) ≡ some k
unfolding truthy
truthy_again none k e = cc
truthy_again (some j) k e = elim (Bool-cases (str_eq j "")) [
  | inl empty ↦ cc (simp empty at e)
  | inr full ↦ ap (λ i. truthy (some i)) (sym (some-injective j k (simp full at e))) ∙ e
]

module _ (t : CharTable) (l : Loop) (r : Platform l) (d : Shop l r) (a : Cockpit r)
    (col : Collection id_of index_field) (newest : Newest col) where
  -- With a key no other is made.
  pub as_keyed :
      (body : BookBody) (w : World t col (injected t l r d a)) (k : String)
      → truthy body.idempotency_key ≡ some k
      → book t l r d a col newest body w
        ≡ booked t l r d a k
            (create_booking t col (injected t l r d a) (request_of t l r d a body k) w)
  unfolding book
  as_keyed body w k keyed =
      ap
        (λ m.
          let (key, env) = key_or_new t l r d a m w.env in
          booked t l r d a key (
            create_booking t col (injected t l r d a) (request_of t l r d a body key)
              (record w { env = env })))
        keyed
