-- ===== src/Bookings/Schedule/Same.antt =====
-- Interleaved requests of flydesk/bookings/services.py that all carry one key, by a measure of the
-- world that only the provider raises.
use mathlib.Core.Path.{subst}
use fly_desk.Prelude.{
  ℕ, zero, suc, ◌+◌, ◌≤◌, ◌≡◌, refl, sym, Bool, true, false, String, Option, none, some, List, [],
  ◌∷◌, arith, eq_refl,
}
use Prim.Native.String.{◌++◌ as ◌+++◌}
use fly_desk.Prelude.Lists.{All}
use fly_desk.Errors.{Outcome, returned, raised}
use fly_desk.Domain.Text.{CharTable}
use fly_desk.Domain.Models.{Order}
use fly_desk.Mongo.{Collection}
use fly_desk.Bookings.Repository
use fly_desk.Bookings.Repository.{id_of, index_field}
use fly_desk.Bookings.Service.Ports.{Platform, IsReliable}
use fly_desk.Bookings.Service.{
  World, Request, truthy, find_key, reserve, place_order, granted_reply, reservation_ttl,
}
use fly_desk.Bookings.Service.Calls.{CountsOrders, place_order-count}
use fly_desk.Bookings.Service.Phases.{
  Phase, looking, reserving, rechecking, ordering, saving, resolving, done, step, start_with, clash,
  after_looking, after_reserving, after_rechecking, after_ordering, after_saving, after_resolving,
}
use fly_desk.Bookings.Schedule.{placing, times, Thread, System, move, advance, run, IsStart}
use fly_desk.Bookings.Schedule.Once.{times-append, run_orders_once}

-- A request that will order, orders under `k`.
abbrev IsUnder : String → Phase → Type 0
IsUnder k (reserving key) = key ≡ k
IsUnder k (ordering (some key)) = key ≡ k
IsUnder k (ordering none) = ⊥
IsUnder k _ = Unit

looking-IsUnder :
    (k key : String) (r : Outcome (Option Order)) → key ≡ k → IsUnder k (after_looking key r)
looking-IsUnder k key (returned none) h = h
looking-IsUnder k key (returned (some o)) h = tt
looking-IsUnder k key (raised e) h = tt

reserving-IsUnder :
    (k key : String) (free : Bool) → key ≡ k → IsUnder k (after_reserving key (returned free))
reserving-IsUnder k key true h = h
reserving-IsUnder k key false h = tt

rechecking-IsUnder : (k : String) (r : Outcome (Option Order)) → IsUnder k (after_rechecking r)
rechecking-IsUnder k (returned none) = tt
rechecking-IsUnder k (returned (some o)) = tt
rechecking-IsUnder k (raised e) = tt

resolving-IsUnder : (k : String) (r : Outcome (Option Order)) → IsUnder k (after_resolving r)
resolving-IsUnder k (returned none) = tt
resolving-IsUnder k (returned (some o)) = tt
resolving-IsUnder k (raised e) = tt

ordering-IsUnder :
    (k : String) (key : Option String) (r : Outcome Order) → IsUnder k (after_ordering key r)
ordering-IsUnder k key (returned o) = tt
ordering-IsUnder k key (raised e) = tt

clash-IsUnder : (k : String) (key : Option String) → IsUnder k (clash key)
clash-IsUnder k none = tt
clash-IsUnder k (some key) = tt

module _ (t : CharTable) (col : Collection id_of index_field) (p : Platform) (count : p.Env → ℕ)
    (counts : CountsOrders p count) (k : String) where
  -- A step under `k` raises the measure only if it orders.
  abbrev Charged : Phase → World t col p → Phase × World t col p → Type 0
  Charged ph w (ph', w') = IsUnder k ph' × (count w'.env ≤ count w.env + times k (placing ph))

  start-Charged :
      (key : Option String) (w : World t col p)
      → key ≡ some k
      → Charged looking w (start_with t col p key w)
  unfolding find_key times
  start-Charged none w h = cc
  start-Charged (some key) w h = (
    looking-IsUnder k key (Repository.find_by_idempotency_key t col w.orders key) cc,
    omega arith,
  )

  saving-Charged :
      (key : Option String) (o : Order) (s : Option col.State) (w : World t col p)
      → Charged (saving key o) w (after_saving t col p key o s w)
  unfolding times
  saving-Charged key o none w = (clash-IsUnder k key, omega arith)
  saving-Charged key o (some s) w = (tt, omega arith)

  times_self : (key : String) → key ≡ k → times k (key ∷ []) ≡ 1
  unfolding times
  times_self key h = rw (h, eq_refl k) refl

  step-Charged :
      (r : Request p) (ph : Phase) (w : World t col p)
      → truthy r.idempotency_key ≡ some k
      → IsUnder k ph
      → Charged ph w (step t col p r ph w)
  unfolding step find_key reserve times
  step-Charged r looking w same h = start-Charged (truthy r.idempotency_key) w same
  step-Charged r (reserving key) w same h = (
    reserving-IsUnder k key
        (granted_reply t col p (p.set_nx ("idem:" +++ key) reservation_ttl w.env).0) h,
    omega (arith, counts.redis_apart ("idem:" +++ key) reservation_ttl w.env),
  )
  step-Charged r (rechecking key) w same h =
      (rechecking-IsUnder k (Repository.find_by_idempotency_key t col w.orders key), omega arith)
  step-Charged r (ordering none) w same h = absurd h
  step-Charged r (ordering (some key)) w same h = (
    ordering-IsUnder k (some key) (place_order t col p r (some key) w).0,
    omega (arith, place_order-count t col p count counts r (some key) w, times_self key h),
  )
  step-Charged r (saving key o) w same h = saving-Charged key o (Repository.save t col w.orders o) w
  step-Charged r (resolving key) w same h =
      (resolving-IsUnder k (Repository.find_by_idempotency_key t col w.orders key), omega arith)
  step-Charged r (done res) w same h = (tt, omega arith)

  -- A thread that carries `k`.
  pub record Carries (th : Thread t col p) : Type 0 where
    pub key : truthy th.request.idempotency_key ≡ some k
    pub under : IsUnder k th.phase

  -- What threads that carry `k` do to the world.
  abbrev Moved : World t col p → List (Thread t col p) × World t col p × List String → Type 0
  Moved w (threads, w', keys) = All Carries threads × (count w'.env ≤ count w.env + times k keys)

  move-Moved :
      (threads : List (Thread t col p)) (i : ℕ) (w : World t col p)
      → All Carries threads
      → Moved w (move t col p threads i w)
  unfolding move
  move-Moved [] i w h = (tt, omega arith)
  move-Moved (th ∷ rest) zero w (first, others) =
      let (under, charged) = step-Charged th.request th.phase w first.key first.under in
      ((record { key = first.key; under = under }, others), charged)
  move-Moved (th ∷ rest) (suc i) w (first, others) =
      let (kept, charged) = move-Moved rest i w others in ((first, kept), charged)

  run-charged :
      (schedule : List ℕ) (s : System t col p)
      → All Carries s.threads
      → count (run t col p schedule s).world.env + times k s.placed
        ≤ count s.world.env + times k (run t col p schedule s).placed
  unfolding run advance
  run-charged [] s h = omega arith
  run-charged (i ∷ schedule) s h =
      let (kept, charged) = move-Moved s.threads i s.world h in
      omega (
        arith,
        run-charged schedule (advance t col p i s) kept,
        charged,
        times-append k (move t col p s.threads i s.world).2 s.placed,
      )

  starting :
      (threads : List (Thread t col p))
      → All (λ th. th.phase ≡ looking) threads
      → All (λ th. truthy th.request.idempotency_key ≡ some k) threads
      → All Carries threads
  starting [] fresh keys = tt
  starting (th ∷ rest) (first, others) (key, keys) =
      (record { key = key; under = subst (IsUnder k) (sym first) tt }, starting rest others keys)

  pub same_key_orders_once :
      IsReliable p
      → (schedule : List ℕ) (s : System t col p) → IsStart t col p s
      → All (λ th. truthy th.request.idempotency_key ≡ some k) s.threads
      → count (run t col p schedule s).world.env ≤ count s.world.env + 1
  same_key_orders_once redis schedule s (fresh, nothing) keys = omega (
    arith,
    run-charged schedule s (starting s.threads fresh keys),
    run_orders_once t col p redis k schedule s (fresh, nothing),
  )
