-- ===== src/Demo/Exporter/Phantoms.antt =====
-- The exporter of demo/stats_exporter.py shows no container that has gone.
use fly_desk.Prelude.{
  ◌≡◌, Bool, true, false, ◌⊎◌, inl, inr, Option, none, some, List, [], ◌∷◌, Bool-cases, ◌||◌, arith,
}
use fly_desk.Prelude.Lists.{All}
use fly_desk.Demo.Exporter.{
  Numbers, Container, Label, same_label, has, Gauge, Exporter, started, observe_all, stale,
  remove_all, drop_stale, label_of, labels_of, round, rounds,
}
use fly_desk.Demo.Exporter.Shown.{
  Among, AllLabels, Within, stale_lem, weaken, remove_all-AllLabels, observe_all-Within,
  same_label_refl,
}

-- A label that was shown before, or is active.
abbrev Known : List Label → List Label → Label → Type 0
Known active previous k = Among previous k ⊎ Among active k

kept-Among :
    (active previous : List Label) (k : Label)
    → Known active previous k × (has k (stale active previous) ≡ false)
    → Among active k
kept-Among active previous k (inr here, _) = here
kept-Among active previous k (inl before, kept) = elim (Bool-cases (has k active)) [
  | inl here ↦ here
  | inr gone ↦ cc (stale_lem active previous k before gone, kept)
]

own-Among : (c : Container) (cs : List Container) → Among (labels_of (c ∷ cs)) (label_of c)
own-Among c cs = simp (same_label_refl (label_of c))

-- The labels of containers are among those of more containers.
all-Among : (l : List Label) (P : Label → Type 0) → ((k : Label) → Among l k → P k) → All P l
all-Among [] P f = tt
all-Among (k ∷ l) P f = (
  f k (simp (same_label_refl k)),
  all-Among l P (λ j h. f j (or_later (same_label j k) (has j l) h)),
)
  where
    or_later : (x y : Bool) → y ≡ true → x || y ≡ true
    or_later x y h = ground arith

module _ (v : Numbers) where
  dropped-AllLabels :
      (active previous : List Label) (g : Gauge v)
      → AllLabels v (Known active previous) g
      → AllLabels v (Among active) (remove_all v (stale active previous) g)
  dropped-AllLabels active previous g h =
      let gone = stale active previous in
      weaken v (λ j. Known active previous j × (has j gone ≡ false)) (Among active)
        (remove_all v gone g) (kept-Among active previous)
        (remove_all-AllLabels v (Known active previous) gone g h)

  drop_stale-Within :
      (active previous : List Label) (e : Exporter v)
      → Within v (Known active previous) e
      → Within v (Among active) (record (drop_stale v active previous e) { prev_active = active })
  unfolding drop_stale
  drop_stale-Within active previous e h = record {
    cpu = dropped-AllLabels active previous e.cpu h.cpu;
    mem = dropped-AllLabels active previous e.mem h.mem;
    mem_limit = dropped-AllLabels active previous e.mem_limit h.mem_limit;
    rx = dropped-AllLabels active previous e.rx h.rx;
    tx = dropped-AllLabels active previous e.tx h.tx;
    restarts = dropped-AllLabels active previous e.restarts h.restarts;
    up = dropped-AllLabels active previous e.up h.up;
  }

  all-Known :
      (active previous : List Label) (e : Exporter v)
      → Within v (Among previous) e
      → Within v (Known active previous) e
  all-Known active previous e h =
      let w = λ (g : Gauge v). weaken v (Among previous) (Known active previous) g (λ k x. inl x) in
      record {
        cpu = w e.cpu h.cpu;
        mem = w e.mem h.mem;
        mem_limit = w e.mem_limit h.mem_limit;
        rx = w e.rx h.rx;
        tx = w e.tx h.tx;
        restarts = w e.restarts h.restarts;
        up = w e.up h.up;
      }

  -- What the exporter shows belongs to the containers of its last round.
  round-Within :
      (now : v.Time) (cs : List Container) (e : Exporter v)
      → Within v (Among e.prev_active) e
      → Within v (Among (labels_of cs)) (round v (some (now, cs)) e)
  unfolding round
  round-Within now cs e h =
      let active = labels_of cs in
      drop_stale-Within active e.prev_active (observe_all v now cs e) (
        observe_all-Within v (Known active e.prev_active) now cs e
          (all-Among active (Known active e.prev_active) (λ k x. inr x))
          (all-Known active e.prev_active e h))

  rounds-Within :
      (history : List (Option (v.Time × List Container))) (e : Exporter v)
      → Within v (Among e.prev_active) e
      → let e' = rounds v history e in Within v (Among e'.prev_active) e'
  unfolding rounds round
  rounds-Within [] e h = h
  rounds-Within (none ∷ rest) e h = rounds-Within rest e h
  rounds-Within (some (now, cs) ∷ rest) e h =
      rounds-Within rest (round v (some (now, cs)) e) (round-Within now cs e h)

  -- After a round in which Docker has answered, whatever rounds came before, each series of each gauge
  -- belongs to a container of that answer: no container that has gone is shown.
  pub no_phantoms :
      (history : List (Option (v.Time × List Container))) (now : v.Time) (cs : List Container)
      → Within v (Among (labels_of cs)) (round v (some (now, cs)) (rounds v history (started v)))
  no_phantoms history now cs = round-Within now cs (rounds v history (started v)) (
      rounds-Within history (started v)
        (record { cpu = tt; mem = tt; mem_limit = tt; rx = tt; tx = tt; restarts = tt; up = tt }))
