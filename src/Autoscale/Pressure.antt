-- ===== src/Autoscale/Pressure.antt =====
-- How long a stage must stay under pressure before `_autoscaler_thread` adds a worker to it.
use gpupipe.Prelude.{
  ℕ, zero, suc, ◌+◌, ◌*◌, ◌≤◌, ◌<◌, ◌≡◌, refl, ap, Bool, true, false, Option, none, some, List, [],
  ◌∷◌, arith, ltb, if◌then◌else◌, length, get_elem?, All,
}
use gpupipe.Autoscale.{
  Settings, Load, Stage, Cpu, Sample, active_workers, max_of, cooling, out_blocked, watch,
  watch_stages, read_cpu, autoscaler_thread, press, weigh, look, spawn_additional_worker,
  note_scaling,
}

-- What a stage sees of a sample: the time, the verdict on the CPU, and its own load.
abbrev pub View : Type 0
View = ℕ × Bool × Option Load

abbrev pub views : Settings → ℕ → List Sample → Cpu → List View
views cfg i [] cpu = []
views cfg i (s ∷ samples) cpu =
    let cpu' = read_cpu cfg s.cpu cpu in
    (s.now, cpu'.saturated, get_elem? s.loads i) ∷ views cfg i samples cpu'

watch_view : Settings → View → Stage → Stage
watch_view cfg (now, sat, none) st = st
watch_view cfg (now, sat, some load) st = watch cfg now sat load st

watch_views : Settings → List View → Stage → Stage
watch_views cfg [] st = st
watch_views cfg (v ∷ vs) st = watch_views cfg vs (watch_view cfg v st)

get_elem?-watch_stages :
    (cfg : Settings) (now : ℕ) (sat : Bool) (loads : List Load) (sts : List Stage) (i : ℕ)
    (st : Stage)
    → get_elem? sts i ≡ some st
    → get_elem? (watch_stages cfg now sat loads sts) i
      ≡ some (watch_view cfg (now, sat, get_elem? loads i) st)
unfolding watch_stages watch_view
get_elem?-watch_stages cfg now sat loads [] i st at = cc
get_elem?-watch_stages cfg now sat [] (s ∷ sts) i st at = at
get_elem?-watch_stages cfg now sat (load ∷ loads) (s ∷ sts) zero st at = cc
get_elem?-watch_stages cfg now sat (load ∷ loads) (s ∷ sts) (suc i) st at =
    get_elem?-watch_stages cfg now sat loads sts i st at

-- The stages do not disturb each other.
get_elem?-thread :
    (cfg : Settings) (i : ℕ) (samples : List Sample) (cpu : Cpu) (sts : List Stage) (st : Stage)
    → get_elem? sts i ≡ some st
    → get_elem? (autoscaler_thread cfg samples cpu sts) i
      ≡ some (watch_views cfg (views cfg i samples cpu) st)
unfolding autoscaler_thread watch_views
get_elem?-thread cfg i [] cpu sts st at = at
get_elem?-thread cfg i (s ∷ samples) cpu sts st at =
    let cpu' = read_cpu cfg s.cpu cpu in
    get_elem?-thread cfg i samples cpu' (watch_stages cfg s.now cpu'.saturated s.loads sts) _
      (get_elem?-watch_stages cfg s.now cpu'.saturated s.loads sts i st at)

-- A load that finds the stage able to grow and its input queue full enough.
pub record HotLoad (cfg : Settings) (st : Stage) (now : ℕ) (load : Load) : Type 0 where
  pub size : ℕ
  pub capacity : ℕ
  pub autoscales : st.job.autoscale ≡ true
  pub rested : cooling cfg now st.last_scale ≡ false
  pub alive : 0 < active_workers load st
  pub below_max : active_workers load st < max_of load st
  pub queue : load.in_queue ≡ some (size, capacity)
  pub bounded : 0 < capacity
  pub full : cfg.scale_up_threshold * capacity ≤ 100 * size
  pub room : out_blocked load.out_queue ≡ false

abbrev pub IsHot : Settings → Stage → View → Type 0
IsHot cfg st (now, true, load) = ⊥
IsHot cfg st (now, false, none) = ⊥
IsHot cfg st (now, false, some load) = HotLoad cfg st now load

weigh-press :
    (cfg : Settings) (st : Stage) (now : ℕ) (load : Load) (h : HotLoad cfg st now load)
    → weigh cfg now false load h.size h.capacity st ≡ press cfg now st
unfolding weigh
weigh-press cfg st now load h = ground (arith, h.below_max, h.full, h.room)

watch_view-press :
    (cfg : Settings) (st : Stage) (v : View)
    → IsHot cfg st v
    → watch_view cfg v st ≡ press cfg v.0 st
unfolding watch look watch_view
watch_view-press cfg st (now, true, load) h = absurd h
watch_view-press cfg st (now, false, none) h = absurd h
watch_view-press cfg st (now, false, some load) h =
    ground
      (arith, h.autoscales, h.rested, h.alive, h.queue, h.bounded, weigh-press cfg st now load h)

counted : Stage → Stage
counted st = record st { high_pressure = st.high_pressure + 1; low_pressure = 0 }

counted-IsHot :
    (cfg : Settings) (st : Stage) (vs : List View)
    → All (IsHot cfg st) vs
    → All (IsHot cfg (counted st)) vs
unfolding counted max_of active_workers
counted-IsHot cfg st [] all = tt
counted-IsHot cfg st ((now, true, load) ∷ vs) all = absurd all.0
counted-IsHot cfg st ((now, false, none) ∷ vs) all = absurd all.0
counted-IsHot cfg st ((now, false, some load) ∷ vs) all = (
  record {
    size = all.0.size;
    capacity = all.0.capacity;
    autoscales = all.0.autoscales;
    rested = all.0.rested;
    alive = all.0.alive;
    below_max = all.0.below_max;
    queue = all.0.queue;
    bounded = all.0.bounded;
    full = all.0.full;
    room = all.0.room;
  },
  counted-IsHot cfg st vs all.1,
)

watch_view-counted :
    (cfg : Settings) (st : Stage) (v : View)
    → IsHot cfg st v
    → st.high_pressure + 1 < cfg.scale_up_samples
    → watch_view cfg v st ≡ counted st
unfolding press counted
watch_view-counted cfg st v h few = ground (arith, watch_view-press cfg st v h)

-- Samples under pressure, for a stage whose count stands below the samples needed.
watch_views-hot :
    (cfg : Settings) (vs : List View) (st : Stage)
    → All (IsHot cfg st) vs
    → length vs + st.high_pressure ≤ cfg.scale_up_samples
    → 0 < length vs
    → (watch_views cfg vs st).worker_count
      ≡ st.worker_count + (if ltb (length vs + st.high_pressure) cfg.scale_up_samples then 0 else 1)
unfolding watch_views press spawn_additional_worker note_scaling counted
watch_views-hot cfg [] st all few some_view = absurd (omega arith)
watch_views-hot cfg (v ∷ []) st all few some_view = ground (arith, watch_view-press cfg st v all.0)
watch_views-hot cfg (v ∷ w ∷ vs) st all few some_view =
    let e : watch_view cfg v st ≡ counted st = watch_view-counted cfg st v all.0 (omega arith) in
    let ih =
      watch_views-hot cfg (w ∷ vs) (counted st) (counted-IsHot cfg st (w ∷ vs) all.1) (omega arith)
        (omega arith) in
    ground (arith, ap (watch_views cfg (w ∷ vs)) e, ih)

length-views :
    (cfg : Settings) (i : ℕ) (samples : List Sample) (cpu : Cpu)
    → length (views cfg i samples cpu) ≡ length samples
length-views cfg i [] cpu = refl
length-views cfg i (s ∷ samples) cpu = ap suc (length-views cfg i samples (read_cpu cfg s.cpu cpu))

-- A stage that is rested, and that every sample finds under pressure and able to grow, gets a worker
-- at the `scale_up_samples`-th sample and none before, whatever the other stages do.
pub autoscaler_thread-sustained :
    (cfg : Settings) (i : ℕ) (samples : List Sample) (cpu : Cpu) (sts : List Stage) (st : Stage)
    → get_elem? sts i ≡ some st
    → st.high_pressure ≡ 0
    → 0 < length samples
    → length samples ≤ cfg.scale_up_samples
    → All (IsHot cfg st) (views cfg i samples cpu)
    → (st' : Stage) × (get_elem? (autoscaler_thread cfg samples cpu sts) i ≡ some st')
      × (st'.worker_count
          ≡ st.worker_count + (if ltb (length samples) cfg.scale_up_samples then 0 else 1))
autoscaler_thread-sustained cfg i samples cpu sts st at fresh some_sample few all =
    let n = length-views cfg i samples cpu in
    (
      watch_views cfg (views cfg i samples cpu) st,
      get_elem?-thread cfg i samples cpu sts st at,
      ground (
        arith,
        n,
        watch_views-hot cfg (views cfg i samples cpu) st all (omega arith) (omega arith),
      ),
    )
