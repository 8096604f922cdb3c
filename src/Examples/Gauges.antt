-- ===== src/Examples/Gauges.antt =====
-- The theorem on the exporter at two rounds, of which the second misses a container.
use fly_desk.Prelude.{ℕ, ◌*◌, ◌-◌, true, Option, none, some, List, [], ◌∷◌}
use fly_desk.Demo.Exporter.{Numbers, Stats, Container, labels_of, started, round, rounds}
use fly_desk.Demo.Exporter.Shown.{Among, Within}
use fly_desk.Demo.Exporter.Phantoms.{no_phantoms}

abbrev whole_numbers : Numbers
whole_numbers = record {
  Value = ℕ;
  Time = ℕ;
  of_int = λ n. n;
  percent = λ cpu system n. cpu * n;
  elapsed = λ now before. some (now - before);
  rate = λ new old dt. new - old;
}

abbrev busy : Stats
busy = record {
  cpu_total = some 20;
  precpu_total = some 10;
  system = some 50;
  presystem = some 40;
  online_cpus = some 2;
  percpu = none;
  memory_usage = some 7;
  memory_limit = some 9;
  networks = (some 3, some 4) ∷ [];
}

abbrev api : Container
api = record {
  name = "api";
  service = some "web";
  restart_count = none;
  running = true;
  stats = some busy;
}

abbrev worker : Container
worker = record {
  name = "worker";
  service = none;
  restart_count = some 1;
  running = true;
  stats = some busy;
}

abbrev history : List (Option (ℕ × List Container))
history = some (1, api ∷ worker ∷ []) ∷ none ∷ []

no_phantoms_example : Within whole_numbers (Among (labels_of (api ∷ []))) (
    round whole_numbers (some (6, api ∷ [])) (rounds whole_numbers history (started whole_numbers)))
no_phantoms_example = no_phantoms whole_numbers history 6 (api ∷ [])
