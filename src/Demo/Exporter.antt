-- ===== src/Demo/Exporter.antt =====
-- demo/stats_exporter.py: the gauges of the containers. What Docker answers in a round, and the
-- floating-point numbers, are parameters; the waiting between the rounds is not modelled.
pub mod Shown
pub mod Phantoms
use fly_desk.Prelude.{
  ℕ, ◌+◌, ◌-◌, String, Bool, true, false, ◌&&◌, ◌||◌, not, Option, none, some, List, [], ◌∷◌, ltb,
  ◌==◌, str_eq, if◌then◌else◌,
}
use fly_desk.Prelude.Options.{or_default}
use fly_desk.Prelude.Dicts.{Dict, lookup, insert}

-- The numbers that are shown.
pub record Numbers : Type 1 where
  pub Value : Type 0
  pub Time : Type 0
  pub of_int : ℕ → Value
  -- `(cpu_delta / sys_delta) * ncpu * 100.0`
  pub percent : ℕ → ℕ → ℕ → Value
  -- `now - pr[2]`, if it is positive
  pub elapsed : Time → Time → Option Value
  -- `max(0.0, (new - old) / dt)`
  pub rate : ℕ → ℕ → Value → Value

-- What `_cpu_percent`, `_net` and the loop read of an answer; a key that is missing is `none`.
pub record Stats : Type 0 where
  pub cpu_total : Option ℕ
  pub precpu_total : Option ℕ
  pub system : Option ℕ
  pub presystem : Option ℕ
  pub online_cpus : Option ℕ
  -- the length of `percpu_usage`
  pub percpu : Option ℕ
  pub memory_usage : Option ℕ
  pub memory_limit : Option ℕ
  -- `rx_bytes` and `tx_bytes` of each network
  pub networks : List (Option ℕ × Option ℕ)

pub record Container : Type 0 where
  pub name : String
  pub service : Option String
  pub restart_count : Option ℕ
  pub running : Bool
  -- `none` is an exception of `stats`
  pub stats : Option Stats

abbrev pub Label : Type 0
Label = String × String

abbrev pub same_label : Label → Label → Bool
same_label (a, b) (c, d) = str_eq a c && str_eq b d

abbrev pub has : Label → List Label → Bool
has k [] = false
has k (j ∷ l) = same_label k j || has k l

-- A number that is absent or 0 gives way to the other.
abbrev pub non_zero : Option ℕ → ℕ → ℕ
non_zero none d = d
non_zero (some n) d = if n == 0 then d else n

-- `_net`
unfoldable pub net : List (Option ℕ × Option ℕ) → ℕ × ℕ
net [] = (0, 0)
net ((rx, tx) ∷ rest) = let (r, t) = net rest in (or_default rx 0 + r, or_default tx 0 + t)

abbrev pub label_of : Container → Label
label_of c = (c.name, or_default c.service c.name)

abbrev pub labels_of : List Container → List Label
labels_of [] = []
labels_of (c ∷ cs) = label_of c ∷ labels_of cs

-- `previous - active`
unfoldable pub stale : List Label → List Label → List Label
stale active [] = []
stale active (k ∷ l) = let rest = stale active l in if has k active then rest else k ∷ rest

module _ (v : Numbers) where
  -- The series of a gauge by their labels.
  abbrev pub Gauge : Type 0
  Gauge = List (Label × v.Value)

  unfoldable pub set : Label → v.Value → Gauge → Gauge
  set k x [] = (k, x) ∷ []
  set k x ((j, y) ∷ g) =
      let rest = set k x g in if same_label j k then (j, x) ∷ g else (j, y) ∷ rest

  -- `g.remove(...)`; a label that is missing is passed over.
  unfoldable pub remove : Label → Gauge → Gauge
  remove k [] = []
  remove k ((j, y) ∷ g) = let rest = remove k g in if same_label j k then rest else (j, y) ∷ rest

  -- The two deltas; integers may be negative, and only a positive one counts.
  abbrev pub ratio : ℕ → ℕ → ℕ → ℕ → ℕ → v.Value
  ratio cpu precpu sys presys ncpu =
      if ltb precpu cpu && ltb presys sys
      then v.percent (cpu - precpu) (sys - presys) ncpu
      else v.of_int 0

  -- `_cpu_percent`
  unfoldable pub cpu_percent : Stats → v.Value
  cpu_percent s = elim s.cpu_total [
    | none ↦ v.of_int 0
    | some cpu ↦ elim s.precpu_total [
      | none ↦ v.of_int 0
      | some precpu ↦
          ratio cpu precpu (or_default s.system 0) (or_default s.presystem 0)
            (non_zero s.online_cpus (non_zero s.percpu 1))
    ]
  ]

  pub record Exporter : Type 0 where
    pub cpu : Gauge
    pub mem : Gauge
    pub mem_limit : Gauge
    pub rx : Gauge
    pub tx : Gauge
    pub restarts : Gauge
    pub up : Gauge
    pub prev : Dict (ℕ × ℕ × v.Time)
    pub prev_active : List Label

  abbrev pub started : Exporter
  started = record {
    cpu = [];
    mem = [];
    mem_limit = [];
    rx = [];
    tx = [];
    restarts = [];
    up = [];
    prev = [];
    prev_active = [];
  }

  abbrev pub shown_up : Bool → v.Value
  shown_up true = v.of_int 1
  shown_up false = v.of_int 0

  abbrev pub with_rates : Label → ℕ × ℕ → ℕ × ℕ → Option v.Value → Exporter → Exporter
  with_rates k new old none e = e
  with_rates k (rx, tx) (rx0, tx0) (some dt) e = record e {
    rx = set k (v.rate rx rx0 dt) e.rx;
    tx = set k (v.rate tx tx0 dt) e.tx;
  }

  abbrev pub rated : Label → ℕ × ℕ → v.Time → Option (ℕ × ℕ × v.Time) → Exporter → Exporter
  rated k new now none e = e
  rated k new now (some (rx0, tx0, before)) e = with_rates k new (rx0, tx0) (v.elapsed now before) e

  abbrev pub measured : v.Time → Container → Label → Option Stats → Exporter → Exporter
  measured now c k none e = e
  measured now c k (some s) e =
      let e1 = record e {
        cpu = set k (cpu_percent s) e.cpu;
        mem = set k (v.of_int (or_default s.memory_usage 0)) e.mem;
        mem_limit = set k (v.of_int (or_default s.memory_limit 0)) e.mem_limit;
      } in
      let (rx, tx) = net s.networks in
      let e2 = rated k (rx, tx) now (lookup c.name e1.prev) e1 in
      record e2 { prev = insert c.name (rx, tx, now) e2.prev }

  -- The body of the loop over the containers.
  unfoldable pub observe : v.Time → Container → Exporter → Exporter
  unfolding set cpu_percent
  observe now c e =
      let k = label_of c in
      let e1 = record e {
        restarts = set k (v.of_int (or_default c.restart_count 0)) e.restarts;
        up = set k (shown_up c.running) e.up;
      } in
      measured now c k c.stats e1

  unfoldable pub observe_all : v.Time → List Container → Exporter → Exporter
  unfolding observe
  observe_all now [] e = e
  observe_all now (c ∷ cs) e = observe_all now cs (observe now c e)

  unfoldable pub remove_all : List Label → Gauge → Gauge
  unfolding remove
  remove_all [] g = g
  remove_all (k ∷ l) g = remove_all l (remove k g)

  -- `_drop_stale`
  unfoldable pub drop_stale : List Label → List Label → Exporter → Exporter
  unfolding remove_all stale
  drop_stale active previous e =
      let gone = stale active previous in
      record e {
        cpu = remove_all gone e.cpu;
        mem = remove_all gone e.mem;
        mem_limit = remove_all gone e.mem_limit;
        rx = remove_all gone e.rx;
        tx = remove_all gone e.tx;
        restarts = remove_all gone e.restarts;
        up = remove_all gone e.up;
      }

  -- A round: the containers at a time, or `none` if Docker has not answered.
  unfoldable pub round : Option (v.Time × List Container) → Exporter → Exporter
  unfolding observe_all drop_stale
  round none e = e
  round (some (now, cs)) e =
      let active = labels_of cs in
      record (drop_stale active e.prev_active (observe_all now cs e)) { prev_active = active }

  unfoldable pub rounds : List (Option (v.Time × List Container)) → Exporter → Exporter
  unfolding round
  rounds [] e = e
  rounds (r ∷ rest) e = rounds rest (round r e)
