-- ===== src/Bookings/Service/Phases/Alone.antt =====
-- A request that runs alone does what `create_booking` does.
use Prim.Native.String.{◌++◌}
use fly_desk.Prelude.{ℕ, zero, suc, ◌≡◌, refl, Bool, true, false, String, Option, none, some}
use fly_desk.Errors.{Outcome, returned, raised}
use fly_desk.Domain.Text.{CharTable}
use fly_desk.Domain.Models.{Order}
use fly_desk.Mongo.{Collection}
use fly_desk.Bookings.Repository
use fly_desk.Bookings.Repository.{id_of, index_field}
use fly_desk.Bookings.Service.Ports.{Platform}
use fly_desk.Bookings.Service.{
  World, Request, truthy, continue, find_key, reserve, place_order, resolve, persist, saved, book,
  create_with, create_booking, existing_or_in_progress, book_or_recheck, replay_or_reserve,
  winner_or_raise, granted_reply, reservation_ttl,
}
use fly_desk.Bookings.Service.Phases.{
  Phase, looking, reserving, rechecking, ordering, saving, resolving, done, step, start_with,
  after_looking, after_reserving, after_rechecking, after_ordering, after_saving, after_resolving,
}

module _ (t : CharTable) (col : Collection id_of index_field) (p : Platform) (r : Request p) where
  -- `n` steps of the request, one after another.
  pub steps : ℕ → Phase → World t col p → Phase × World t col p
  steps zero ph w = (ph, w)
  steps (suc n) ph w = let (ph', w') = step t col p r ph w in steps n ph' w'

  abbrev finished : Outcome Order × World t col p → Phase × World t col p
  finished (res, w) = (done res, w)

  steps-done :
      (n : ℕ) (res : Outcome Order) (w : World t col p) → steps n (done res) w ≡ (done res, w)
  unfolding steps step
  steps-done zero res w = refl
  steps-done (suc n) res w = steps-done n res w

  steps-resolving :
      (n : ℕ) (key : String) (w : World t col p)
      → steps (suc n) (resolving key) w ≡ finished (resolve t col p (some key) w)
  unfolding steps step resolve find_key
  steps-resolving n key w = go (Repository.find_by_idempotency_key t col w.orders key)
    where
      go :
          (found : Outcome (Option Order))
          → steps n (after_resolving found) w
            ≡ finished (continue (winner_or_raise t col p) found w)
      go (returned none) = steps-done n _ w
      go (returned (some o)) = steps-done n _ w
      go (raised e) = steps-done n _ w

  steps-saving :
      (n : ℕ) (key : Option String) (o : Order) (w : World t col p)
      → steps (suc (suc n)) (saving key o) w ≡ finished (persist t col p key o w)
  unfolding steps step persist resolve
  steps-saving n key o w = go key (Repository.save t col w.orders o)
    where
      go :
          (k : Option String) (s : Option col.State)
          → (let (ph, v) = after_saving t col p k o s w in steps (suc n) ph v)
            ≡ finished (saved t col p k o s w)
      go none none = steps-done (suc n) _ w
      go (some k) none = steps-resolving n k w
      go k (some s) = steps-done (suc n) _ _

  steps-ordering :
      (n : ℕ) (key : Option String) (w : World t col p)
      → steps (suc (suc (suc n))) (ordering key) w ≡ finished (book t col p r key w)
  unfolding steps step book
  steps-ordering n key w = go (place_order t col p r key w).0 (place_order t col p r key w).1
    where
      go :
          (res : Outcome Order) (v : World t col p)
          → steps (suc (suc n)) (after_ordering key res) v
            ≡ finished (continue (persist t col p key) res v)
      go (returned o) v = steps-saving n key o v
      go (raised e) v = steps-done (suc (suc n)) _ v

  steps-rechecking :
      (n : ℕ) (key : String) (w : World t col p)
      → steps (suc n) (rechecking key) w ≡ finished (book_or_recheck t col p r key false w)
  unfolding steps step find_key
  steps-rechecking n key w = go (Repository.find_by_idempotency_key t col w.orders key)
    where
      go :
          (found : Outcome (Option Order))
          → steps n (after_rechecking found) w
            ≡ finished (continue (existing_or_in_progress t col p) found w)
      go (returned none) = steps-done n _ w
      go (returned (some o)) = steps-done n _ w
      go (raised e) = steps-done n _ w

  steps-reserving :
      (n : ℕ) (key : String) (w : World t col p)
      → steps (suc (suc (suc (suc n)))) (reserving key) w
        ≡ finished (replay_or_reserve t col p r key none w)
  unfolding steps step reserve
  steps-reserving n key w =
      let (reply, env) = p.set_nx ("idem:" ++ key) reservation_ttl w.env in
      go (granted_reply t col p reply) (record w { env = env })
    where
      go :
          (free : Bool) (v : World t col p)
          → steps (suc (suc (suc n))) (after_reserving key (returned free)) v
            ≡ finished (book_or_recheck t col p r key free v)
      go true v = steps-ordering n (some key) v
      go false v = steps-rechecking (suc (suc n)) key v

  -- Six steps from the start are enough for a request that runs alone, and then it has ended with
  -- the outcome of `create_booking`, in the same world.
  pub steps-create_booking :
      (w : World t col p)
      → steps 6 looking w ≡ (let (res, w') = create_booking t col p r w in (done res, w'))
  unfolding steps step create_booking find_key
  steps-create_booking w = go (truthy r.idempotency_key)
    where
      looked :
          (key : String) (found : Outcome (Option Order))
          → steps 5 (after_looking key found) w
            ≡ finished (continue (replay_or_reserve t col p r key) found w)
      looked key (returned none) = steps-reserving 1 key w
      looked key (returned (some o)) = steps-done 5 _ w
      looked key (raised e) = steps-done 5 _ w

      go :
          (key : Option String)
          → (let (ph, v) = start_with t col p key w in steps 5 ph v)
            ≡ finished (create_with t col p r key w)
      go none = steps-ordering 2 none w
      go (some key) = looked key (Repository.find_by_idempotency_key t col w.orders key)
