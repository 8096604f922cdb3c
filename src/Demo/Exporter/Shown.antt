-- ===== src/Demo/Exporter/Shown.antt =====
-- Which series the exporter of demo/stats_exporter.py shows.
use fly_desk.Prelude.{
  ℕ, ◌≡◌, refl, sym, ap, ◌∙◌, arith, Bool, true, false, ◌&&◌, Option, none, some, List, [], ◌∷◌,
  Bool-cases, inl, inr, str_eq, eq_iff, eq_refl,
}
use fly_desk.Prelude.Lists.{All}
use fly_desk.Prelude.Options.{or_default}
use fly_desk.Prelude.Dicts.{lookup}
use fly_desk.Demo.Exporter.{
  Numbers, Stats, Container, Label, same_label, has, Gauge, set, remove, Exporter, label_of,
  with_rates, rated, measured, net, cpu_percent, observe, observe_all, stale, remove_all, labels_of,
}

same_label-eq : (j k : Label) → same_label j k ≡ true → j ≡ k
same_label-eq (a, b) (c, d) h =
    let (ha, hb) = both (str_eq a c) (str_eq b d) h in
    ap (λ x. (x, b)) ((eq_iff a c).0 ha) ∙ ap (λ y. (c, y)) ((eq_iff b d).0 hb)
  where
    both : (x y : Bool) → x && y ≡ true → (x ≡ true) × (y ≡ true)
    both x y h = ground arith

pub same_label_refl : (k : Label) → same_label k k ≡ true
same_label_refl (a, b) = simp (eq_refl a, eq_refl b)

-- The label is one of those.
abbrev pub Among : List Label → Label → Type 0
Among l k = has k l ≡ true

-- What was shown before and is not among the active ones is stale.
pub stale_lem :
    (active previous : List Label) (k : Label)
    → has k previous ≡ true
    → has k active ≡ false
    → has k (stale active previous) ≡ true
unfolding stale
stale_lem active [] k h gone = cc
stale_lem active (j ∷ l) k h gone = elim (Bool-cases (same_label k j)) [
  | inl same ↦
      let is : has j active ≡ false =
        ap (λ x. has x active) (sym (same_label-eq k j same)) ∙ gone in
      rw is (simp same)
  | inr differ ↦
      let later = stale_lem active l k (simp differ at h) gone in
      elim (Bool-cases (has j active)) [
        | inl kept ↦ rw kept later
        | inr left ↦ rw left (simp (differ, later))
      ]
]

module _ (v : Numbers) where
  -- All labels of a gauge fulfil `P`.
  abbrev pub AllLabels : (Label → Type 0) → Gauge v → Type 0
  AllLabels P g = All (λ (x : Label × v.Value). P x.0) g

  set-AllLabels :
      (P : Label → Type 0) (k : Label) (x : v.Value) (g : Gauge v)
      → P k
      → AllLabels P g
      → AllLabels P (set v k x g)
  unfolding set
  set-AllLabels P k x [] hk h = (hk, tt)
  set-AllLabels P k x ((j, y) ∷ g) hk h = elim (Bool-cases (same_label j k)) [
    | inl same ↦ rw same h
    | inr differ ↦ rw differ (h.0, set-AllLabels P k x g hk h.1)
  ]

  -- After a removal the label is gone.
  remove-AllLabels :
      (P : Label → Type 0) (k : Label) (g : Gauge v)
      → AllLabels P g
      → AllLabels (λ j. P j × (same_label j k ≡ false)) (remove v k g)
  unfolding remove
  remove-AllLabels P k [] h = tt
  remove-AllLabels P k ((j, y) ∷ g) h = elim (Bool-cases (same_label j k)) [
    | inl same ↦ rw same (remove-AllLabels P k g h.1)
    | inr differ ↦ rw differ ((h.0, differ), remove-AllLabels P k g h.1)
  ]

  pub weaken :
      (P Q : Label → Type 0) (g : Gauge v)
      → ((k : Label) → P k → Q k)
      → AllLabels P g
      → AllLabels Q g
  weaken P Q [] f h = tt
  weaken P Q ((j, y) ∷ g) f h = (f j h.0, weaken P Q g f h.1)

  pub remove_all-AllLabels :
      (P : Label → Type 0) (l : List Label) (g : Gauge v)
      → AllLabels P g
      → AllLabels (λ j. P j × (has j l ≡ false)) (remove_all v l g)
  unfolding remove_all
  remove_all-AllLabels P [] g h = weaken P (λ j. P j × (false ≡ false)) g (λ k p. (p, refl)) h
  remove_all-AllLabels P (k ∷ l) g h =
      weaken (λ j. (P j × (same_label j k ≡ false)) × (has j l ≡ false))
        (λ j. P j × (has j (k ∷ l) ≡ false)) (remove_all v l (remove v k g))
        (λ j p. (p.0.0, simp (p.0.1, p.1)))
        (remove_all-AllLabels (λ j. P j × (same_label j k ≡ false)) l (remove v k g)
          (remove-AllLabels P k g h))

  -- All labels of all gauges fulfil `P`.
  pub record Within (P : Label → Type 0) (e : Exporter v) : Type 0 where
    pub cpu : AllLabels P e.cpu
    pub mem : AllLabels P e.mem
    pub mem_limit : AllLabels P e.mem_limit
    pub rx : AllLabels P e.rx
    pub tx : AllLabels P e.tx
    pub restarts : AllLabels P e.restarts
    pub up : AllLabels P e.up

  rates-Within :
      (P : Label → Type 0) (k : Label) (new old : ℕ × ℕ) (dt : Option v.Value) (e : Exporter v)
      → P k
      → Within P e
      → Within P (with_rates v k new old dt e)
  rates-Within P k new old none e hk h = h
  rates-Within P k (rx, tx) (rx0, tx0) (some dt) e hk h = record {
    cpu = h.cpu;
    mem = h.mem;
    mem_limit = h.mem_limit;
    rx = set-AllLabels P k (v.rate rx rx0 dt) e.rx hk h.rx;
    tx = set-AllLabels P k (v.rate tx tx0 dt) e.tx hk h.tx;
    restarts = h.restarts;
    up = h.up;
  }

  rated-Within :
      (P : Label → Type 0) (k : Label) (new : ℕ × ℕ) (now : v.Time) (old : Option (ℕ × ℕ × v.Time))
      (e : Exporter v)
      → P k
      → Within P e
      → Within P (rated v k new now old e)
  rated-Within P k new now none e hk h = h
  rated-Within P k new now (some (rx0, tx0, before)) e hk h =
      rates-Within P k new (rx0, tx0) (v.elapsed now before) e hk h

  measured-Within :
      (P : Label → Type 0) (now : v.Time) (c : Container) (k : Label) (s : Option Stats)
      (e : Exporter v)
      → P k
      → Within P e
      → Within P (measured v now c k s e)
  measured-Within P now c k none e hk h = h
  measured-Within P now c k (some s) e hk h =
      let e1 = record e {
        cpu = set v k (cpu_percent v s) e.cpu;
        mem = set v k (v.of_int (or_default s.memory_usage 0)) e.mem;
        mem_limit = set v k (v.of_int (or_default s.memory_limit 0)) e.mem_limit;
      } in
      let h2 = rated-Within P k (net s.networks) now (lookup c.name e1.prev) e1 hk (record {
        cpu = set-AllLabels P k _ e.cpu hk h.cpu;
        mem = set-AllLabels P k _ e.mem hk h.mem;
        mem_limit = set-AllLabels P k _ e.mem_limit hk h.mem_limit;
        rx = h.rx;
        tx = h.tx;
        restarts = h.restarts;
        up = h.up;
      }) in
      record {
        cpu = h2.cpu;
        mem = h2.mem;
        mem_limit = h2.mem_limit;
        rx = h2.rx;
        tx = h2.tx;
        restarts = h2.restarts;
        up = h2.up;
      }

  observe-Within :
      (P : Label → Type 0) (now : v.Time) (c : Container) (e : Exporter v)
      → P (label_of c)
      → Within P e
      → Within P (observe v now c e)
  unfolding observe
  observe-Within P now c e hk h = measured-Within P now c (label_of c) c.stats _ hk (record {
    cpu = h.cpu;
    mem = h.mem;
    mem_limit = h.mem_limit;
    rx = h.rx;
    tx = h.tx;
    restarts = set-AllLabels P (label_of c) _ e.restarts hk h.restarts;
    up = set-AllLabels P (label_of c) _ e.up hk h.up;
  })

  pub observe_all-Within :
      (P : Label → Type 0) (now : v.Time) (cs : List Container) (e : Exporter v)
      → All P (labels_of cs)
      → Within P e
      → Within P (observe_all v now cs e)
  unfolding observe_all
  observe_all-Within P now [] e hs h = h
  observe_all-Within P now (c ∷ cs) e hs h =
      observe_all-Within P now cs (observe v now c e) hs.1 (observe-Within P now c e hs.0 h)
