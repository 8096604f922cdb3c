-- ===== src/Bookings/Schedule/Once.antt =====
-- Interleaved requests of flydesk/bookings/services.py with one key reach the provider once.
use fly_desk.Prelude.{ℕ, zero, suc, ◌+◌, ◌≤◌, ◌≡◌, refl, String, List, [], ◌∷◌, ◌++◌, arith}
use fly_desk.Prelude.Lists.{All}
use fly_desk.Domain.Text.{CharTable}
use fly_desk.Mongo.{Collection}
use fly_desk.Bookings.Repository.{id_of, index_field}
use fly_desk.Bookings.Service.Ports.{Platform, IsReliable}
use fly_desk.Bookings.Service.{World}
use fly_desk.Bookings.Service.Phases.{looking}
use fly_desk.Bookings.Schedule.{placing, times, Thread, System, move, advance, run, IsStart}
use fly_desk.Bookings.Schedule.Balance.{bit, held, step-Balanced}

pub times-append : (k : String) (a b : List String) → times k (a ++ b) ≡ times k a + times k b
unfolding times
times-append k [] b = omega arith
times-append k (j ∷ a) b = omega (arith, times-append k a b)

module _ (t : CharTable) (col : Collection id_of index_field) (p : Platform) (redis : IsReliable p)
    (k : String) where
  -- How many threads are about to ask for an order under `k`.
  waiting : List (Thread t col p) → ℕ
  waiting [] = 0
  waiting (th ∷ rest) = times k (placing th.phase) + waiting rest

  taken : World t col p → ℕ
  taken w = bit (held t col p redis k w)

  move-counted :
      (threads : List (Thread t col p)) (i : ℕ) (w : World t col p)
      → let (threads', w', keys) = move t col p threads i w in
        waiting threads' + times k keys + taken w ≤ waiting threads + taken w'
  unfolding move waiting taken
  move-counted [] i w = unfold times in omega arith
  move-counted (th ∷ rest) zero w =
      omega (arith, step-Balanced t col p redis k th.request th.phase w)
  move-counted (th ∷ rest) (suc i) w = omega (arith, move-counted rest i w)

  -- Threads about to order and orders asked for are no more than reservations taken.
  abbrev IsCovered : System t col p → Type 0
  IsCovered s = waiting s.threads + times k s.placed ≤ taken s.world

  advance-IsCovered : (i : ℕ) (s : System t col p) → IsCovered s → IsCovered (advance t col p i s)
  unfolding advance
  advance-IsCovered i s h = omega (
    arith,
    move-counted s.threads i s.world,
    times-append k (move t col p s.threads i s.world).2 s.placed,
  )

  run-IsCovered :
      (schedule : List ℕ) (s : System t col p) → IsCovered s → IsCovered (run t col p schedule s)
  unfolding run
  run-IsCovered [] s h = h
  run-IsCovered (i ∷ schedule) s h =
      run-IsCovered schedule (advance t col p i s) (advance-IsCovered i s h)

  start-waiting :
      (threads : List (Thread t col p))
      → All (λ th. th.phase ≡ looking) threads
      → waiting threads ≡ 0
  unfolding waiting times
  start-waiting [] h = refl
  start-waiting (th ∷ rest) (first, others) = rw (first, start-waiting rest others) refl

  taken-le-one : (w : World t col p) → taken w ≤ 1
  unfolding taken
  taken-le-one w = ground arith

  -- While Redis answers and keeps its keys, requests that start together reach the provider at most
  -- once under a key, however many they are and however their steps interleave.
  pub run_orders_once :
      (schedule : List ℕ) (s : System t col p)
      → IsStart t col p s
      → times k (run t col p schedule s).placed ≤ 1
  run_orders_once schedule s (fresh, nothing) = omega (
    arith,
    run-IsCovered schedule s
        (rw (start-waiting s.threads fresh, nothing) (unfold times in omega arith)),
    taken-le-one (run t col p schedule s).world,
  )
