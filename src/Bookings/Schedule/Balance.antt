-- ===== src/Bookings/Schedule/Balance.antt =====
-- One step of a request of flydesk/bookings/services.py: it gets to the provider only by taking the
-- reservation of its key.
use Prim.Native.String.{◌++◌}
use text.Mathlib.TextLemmas.{append_cancel_left}
use fly_desk.Prelude.{
  ℕ, ◌+◌, ◌≤◌, ◌≡◌, refl, sym, ap, ◌∙◌, Bool, true, false, String, Option, none, some, [], ◌∷◌,
  str_eq, eq_iff, arith, inl, inr, Bool-cases,
}
use fly_desk.Errors.{Outcome, returned, raised}
use fly_desk.Domain.Text.{CharTable}
use fly_desk.Domain.Models.{Order}
use fly_desk.Mongo.{Collection}
use fly_desk.Bookings.Repository
use fly_desk.Bookings.Repository.{id_of, index_field}
use fly_desk.Bookings.Service.Ports.{
  Platform, IsReliable, RedisReply, acquired, refused, redis_error,
}
use fly_desk.Bookings.Service.{
  World, Request, truthy, find_key, reserve, place_order, granted_reply, reservation_ttl,
}
use fly_desk.Bookings.Service.Blocked.{place_order-held}
use fly_desk.Bookings.Service.Phases.{
  Phase, looking, reserving, rechecking, ordering, saving, resolving, done, step, start_with, clash,
  after_looking, after_reserving, after_rechecking, after_ordering, after_saving, after_resolving,
}
use fly_desk.Bookings.Schedule.{placing, times}

abbrev pub bit : Bool → ℕ
bit true = 1
bit false = 0

looking-quiet :
    (k key : String) (r : Outcome (Option Order)) → times k (placing (after_looking key r)) ≡ 0
unfolding times
looking-quiet k key (returned none) = refl
looking-quiet k key (returned (some o)) = refl
looking-quiet k key (raised e) = refl

rechecking-quiet :
    (k : String) (r : Outcome (Option Order)) → times k (placing (after_rechecking r)) ≡ 0
unfolding times
rechecking-quiet k (returned none) = refl
rechecking-quiet k (returned (some o)) = refl
rechecking-quiet k (raised e) = refl

resolving-quiet :
    (k : String) (r : Outcome (Option Order)) → times k (placing (after_resolving r)) ≡ 0
unfolding times
resolving-quiet k (returned none) = refl
resolving-quiet k (returned (some o)) = refl
resolving-quiet k (raised e) = refl

ordering-quiet :
    (k : String) (key : Option String) (r : Outcome Order)
    → times k (placing (after_ordering key r)) ≡ 0
unfolding times
ordering-quiet k key (returned o) = refl
ordering-quiet k key (raised e) = refl

clash-quiet : (k : String) (key : Option String) → times k (placing (clash key)) ≡ 0
unfolding times
clash-quiet k none = refl
clash-quiet k (some key) = refl

module _ (t : CharTable) (col : Collection id_of index_field) (p : Platform) (redis : IsReliable p)
    (k : String) where
  abbrev pub held : World t col p → Bool
  held w = redis.held ("idem:" ++ k) w.env

  -- The reservation of `k` is kept, and a request that is about to order under `k` has just taken it.
  abbrev pub Balanced : World t col p → Phase × World t col p → Type 0
  Balanced w (ph, w') = times k (placing ph) + bit (held w) ≤ bit (held w')

  quiet-Balanced :
      (ph : Phase) (w w' : World t col p)
      → times k (placing ph) ≡ 0
      → held w' ≡ held w
      → Balanced w (ph, w')
  quiet-Balanced ph w w' quiet same = omega (arith, quiet, ap bit same)

  acquired-Balanced :
      (key : String) (w : World t col p)
      → (p.set_nx ("idem:" ++ key) reservation_ttl w.env).0 ≡ acquired
      → times k (key ∷ []) + bit (held w)
        ≤ bit (redis.held ("idem:" ++ k) (p.set_nx ("idem:" ++ key) reservation_ttl w.env).1)
  unfolding times
  acquired-Balanced key w e = elim (Bool-cases (str_eq key k)) [
    | inl mine ↦
        let (before, then_held) = redis.granted ("idem:" ++ key) reservation_ttl w.env e in
        let same : "idem:" ++ key ≡ "idem:" ++ k = ap (λ j. "idem:" ++ j) ((eq_iff key k).0 mine) in
        let env' : p.Env = (p.set_nx ("idem:" ++ key) reservation_ttl w.env).1 in
        let a : bit (held w) ≡ 0 = ap (λ j. bit (redis.held j w.env)) (sym same) ∙ ap bit before in
        let b : bit (redis.held ("idem:" ++ k) env') ≡ 1 =
          ap (λ j. bit (redis.held j env')) (sym same) ∙ ap bit then_held in
        rw mine (omega (arith, a, b))
    | inr other_key ↦
        rw
          (
            other_key,
            redis.others ("idem:" ++ key) ("idem:" ++ k) reservation_ttl w.env
                (λ q. cc (other_key, (eq_iff key k).1 (append_cancel_left "idem:" key k q))),
          )
          (omega arith)
  ]

  kept-Balanced :
      (key : String) (w : World t col p)
      → bit (held w)
        ≤ bit (redis.held ("idem:" ++ k) (p.set_nx ("idem:" ++ key) reservation_ttl w.env).1)
  kept-Balanced key w = elim (Bool-cases (held w)) [
    | inl yes_held ↦
        rw (yes_held, redis.kept ("idem:" ++ key) ("idem:" ++ k) reservation_ttl w.env yes_held)
          (omega arith)
    | inr free ↦ rw free (omega arith)
  ]

  reserving-Balanced :
      (key : String) (w : World t col p) (reply : RedisReply)
      → (p.set_nx ("idem:" ++ key) reservation_ttl w.env).0 ≡ reply
      → Balanced w (
        after_reserving key (returned (granted_reply t col p reply)),
        record w { env = (p.set_nx ("idem:" ++ key) reservation_ttl w.env).1 },
      )
  unfolding times
  reserving-Balanced key w acquired e = acquired-Balanced key w e
  reserving-Balanced key w refused e = omega (arith, kept-Balanced key w)
  reserving-Balanced key w redis_error e =
      absurd (redis.never_down ("idem:" ++ key) reservation_ttl w.env e)

  start-Balanced : (key : Option String) (w : World t col p) → Balanced w (start_with t col p key w)
  unfolding find_key times
  start-Balanced none w = omega arith
  start-Balanced (some key) w =
      quiet-Balanced (after_looking key (Repository.find_by_idempotency_key t col w.orders key)) w w
        (looking-quiet k key (Repository.find_by_idempotency_key t col w.orders key)) refl

  saving-Balanced :
      (key : Option String) (o : Order) (s : Option col.State) (w : World t col p)
      → Balanced w (after_saving t col p key o s w)
  unfolding times
  saving-Balanced key o none w = quiet-Balanced (clash key) w w (clash-quiet k key) refl
  saving-Balanced key o (some s) w = omega arith

  pub step-Balanced :
      (r : Request p) (ph : Phase) (w : World t col p) → Balanced w (step t col p r ph w)
  unfolding step find_key reserve
  step-Balanced r looking w = start-Balanced (truthy r.idempotency_key) w
  step-Balanced r (reserving key) w =
      reserving-Balanced key w (p.set_nx ("idem:" ++ key) reservation_ttl w.env).0 refl
  step-Balanced r (rechecking key) w =
      quiet-Balanced (after_rechecking (Repository.find_by_idempotency_key t col w.orders key)) w w
        (rechecking-quiet k (Repository.find_by_idempotency_key t col w.orders key)) refl
  step-Balanced r (ordering key) w =
      quiet-Balanced (after_ordering key (place_order t col p r key w).0) w
        (place_order t col p r key w).1 (ordering-quiet k key (place_order t col p r key w).0)
        (place_order-held t col p redis r key ("idem:" ++ k) w)
  step-Balanced r (saving key o) w = saving-Balanced key o (Repository.save t col w.orders o) w
  step-Balanced r (resolving key) w =
      quiet-Balanced (after_resolving (Repository.find_by_idempotency_key t col w.orders key)) w w
        (resolving-quiet k (Repository.find_by_idempotency_key t col w.orders key)) refl
  step-Balanced r (done res) w = quiet-Balanced (done res) w w (unfold times in refl) refl
