-- ===== src/Bookings/Schedule.antt =====
-- Many requests to flydesk/bookings/services.py whose steps interleave in any order.
pub mod Balance
pub mod Once
pub mod Same
use fly_desk.Prelude.{
  ℕ, zero, suc, ◌+◌, ◌≡◌, Bool, true, false, String, Option, none, some, List, [], ◌∷◌, ◌++◌,
  str_eq, if◌then◌else◌,
}
use fly_desk.Prelude.Lists.{All}
use fly_desk.Domain.Text.{CharTable}
use fly_desk.Mongo.{Collection}
use fly_desk.Bookings.Repository.{id_of, index_field}
use fly_desk.Bookings.Service.Ports.{Platform}
use fly_desk.Bookings.Service.{World, Request}
use fly_desk.Bookings.Service.Phases.{Phase, looking, ordering, step}

-- The key under which a step in this phase asks the provider for an order.
abbrev pub placing : Phase → List String
placing (ordering (some key)) = key ∷ []
placing (ordering none) = []
placing _ = []

-- How often a key stands in a list.
pub times : String → List String → ℕ
times k [] = 0
times k (j ∷ l) = (if str_eq j k then 1 else 0) + times k l

module _ (t : CharTable) (col : Collection id_of index_field) (p : Platform) where
  pub record Thread : Type 0 where
    pub request : Request p
    pub phase : Phase

  -- `placed` notes each key under which the provider was asked for an order.
  pub record System : Type 0 where
    pub world : World t col p
    pub threads : List Thread
    pub placed : List String

  -- A step of one thread: the phase that it leaves is noted.
  abbrev pub stepped : Thread → World t col p → Thread × World t col p × List String
  stepped th w =
      let (ph, w') = step t col p th.request th.phase w in
      (record th { phase = ph }, w', placing th.phase)

  pub move : List Thread → ℕ → World t col p → List Thread × World t col p × List String
  move [] i w = ([], w, [])
  move (th ∷ rest) zero w = let (th', w', keys) = stepped th w in (th' ∷ rest, w', keys)
  move (th ∷ rest) (suc i) w = let (rest', w', keys) = move rest i w in (th ∷ rest', w', keys)

  -- The thread at the index makes a step; nothing happens if there is none.
  pub advance : ℕ → System → System
  advance i s =
      let (threads, world, keys) = move s.threads i s.world in
      record { world = world; threads = threads; placed = keys ++ s.placed }

  pub run : List ℕ → System → System
  run [] s = s
  run (i ∷ schedule) s = run schedule (advance i s)

  -- No thread has begun, and nothing is noted yet.
  abbrev pub IsStart : System → Type 0
  IsStart s = All (λ th. th.phase ≡ looking) s.threads × (s.placed ≡ [])
