-- ===== src/Autoscale.antt =====
-- The autoscaler: `_autoscaler_thread` and `_signal_worker_to_stop` of
-- src/pipe/_planned/autoscale.py, with the counters that `_spawn_additional_worker` changes. Times
-- are in milliseconds and ratios in percent; a ratio is compared exactly, without the rounding of
-- floating-point numbers.
pub mod Decisions
pub mod Cooldown
pub mod Pressure
mod Tests
use gpupipe.Prelude.{
  ℤ, pos, negsuc, String, str_eq, eq_iff, ℕ, zero, suc, ◌+◌, ◌-◌, ◌*◌, ◌/◌, ◌%◌, ◌≤◌, ◌<◌, min, max,
  ◌≡◌, refl, sym, ap, ◌∙◌, subst, ◌≢◌, ◌↔◌, ◌⊎◌, inl, inr, Bool, true, false, not, ◌&&◌, ◌||◌,
  Option, none, some, List, [], ◌∷◌, ◌++◌, map, append-nil, append_assoc, arith, ltb, leb, ◌==◌,
  if◌then◌else◌, ltb→lt, lt→ltb, leb→le, le→leb, Bool-cases, Option-cases, if_rule, length,
  is_empty, get_elem?, set, take, drop, replicate, length-append, length-nil, is_empty-nil,
  is_empty-length, take-append-drop, length-take, length-drop, length-replicate, length-set, All,
  All-append, drop-drop, drop-append, length-map, sum,
}

-- The thresholds with which the thread is started.
pub record Settings : Type 0 where
  pub scale_up_threshold : ℕ
  pub scale_down_threshold : ℕ
  pub scale_up_samples : ℕ
  pub scale_down_samples : ℕ
  pub cooldown : ℕ
  pub cpu_limit : ℕ

abbrev pub defaults : Settings
defaults = record {
  scale_up_threshold = 80;
  scale_down_threshold = 20;
  scale_up_samples = 3;
  scale_down_samples = 5;
  cooldown = 3000;
  cpu_limit = 85;
}

pub record Job : Type 0 where
  pub autoscale : Bool
  pub max_workers : Option ℕ
  pub min_workers : Option ℕ

-- What a sample of a stage finds: how many workers have finished, the size and capacity of its
-- queues (none: there is no such queue), and whether a WorkerStop put on its input queue lands.
pub record Load : Type 0 where
  pub finished_workers : ℕ
  pub in_queue : Option (ℕ × ℕ)
  pub out_queue : Option (ℕ × ℕ)
  pub stop_lands : Bool

pub data Action : Type 0 where
  up down : Action

-- A stage of the pipe: its job, its entries in the three dicts of the thread, where a missing count
-- is zero, its two counters in the pipe, and the scalings logged for it, the last one first.
pub record Stage : Type 0 where
  pub job : Job
  pub high_pressure : ℕ
  pub low_pressure : ℕ
  pub last_scale : Option ℕ
  pub worker_count : ℕ
  pub spawn_count : ℕ
  pub log : List (ℕ × Action)

or_default : Option ℕ → ℕ → ℕ
or_default none d = d
or_default (some n) d = n

unfoldable pub active_workers : Load → Stage → ℕ
active_workers load st = st.worker_count - load.finished_workers

unfoldable pub max_of : Load → Stage → ℕ
unfolding or_default active_workers
max_of load st = or_default st.job.max_workers (active_workers load st * 4)

unfoldable pub min_of : Stage → ℕ
unfolding or_default
min_of st = or_default st.job.min_workers 1

unfoldable pub cooling : Settings → ℕ → Option ℕ → Bool
cooling cfg now none = false
cooling cfg now (some t) = ltb now (t + cfg.cooldown)

unfoldable pub out_blocked : Option (ℕ × ℕ) → Bool
out_blocked none = false
out_blocked (some (size, capacity)) = ltb 0 capacity && leb (90 * capacity) (100 * size)

-- `_signal_worker_to_stop`; a put that raises Full leaves the count as it is.
unfoldable pub signal_worker_to_stop : Load → Stage → Stage
signal_worker_to_stop load st =
    if load.stop_lands then record st { worker_count = st.worker_count - 1 } else st

unfoldable pub spawn_additional_worker : Stage → Stage
spawn_additional_worker st = record st {
  worker_count = st.worker_count + 1;
  spawn_count = st.spawn_count + 1;
}

-- The counts start again, and the scaling is logged.
unfoldable pub note_scaling : ℕ → Action → Stage → Stage
note_scaling now a st = record st {
  high_pressure = 0;
  low_pressure = 0;
  last_scale = some now;
  log = (now, a) ∷ st.log;
}

-- One more sample under high pressure.
unfoldable pub press : Settings → ℕ → Stage → Stage
unfolding spawn_additional_worker note_scaling
press cfg now st =
    if leb cfg.scale_up_samples (st.high_pressure + 1)
    then spawn_additional_worker (note_scaling now up st)
    else record st { high_pressure = st.high_pressure + 1; low_pressure = 0 }

-- One more sample under low pressure.
unfoldable pub relax : Settings → ℕ → Load → Stage → Stage
unfolding signal_worker_to_stop note_scaling
relax cfg now load st =
    if leb cfg.scale_down_samples (st.low_pressure + 1)
    then signal_worker_to_stop load (note_scaling now down st)
    else record st { high_pressure = 0; low_pressure = st.low_pressure + 1 }

-- What the fill of the input queue asks for.
unfoldable pub weigh : Settings → ℕ → Bool → Load → ℕ → ℕ → Stage → Stage
unfolding press relax active_workers max_of min_of out_blocked
weigh cfg now cpu_saturated load size capacity st =
    if ltb (active_workers load st) (max_of load st)
      && leb (cfg.scale_up_threshold * capacity) (100 * size)
    then (if cpu_saturated || out_blocked load.out_queue
        then record st { high_pressure = 0 }
        else press cfg now st)
    else if ltb (min_of st) (active_workers load st)
        && leb (100 * size) (cfg.scale_down_threshold * capacity)
    then relax cfg now load st
    else record st { high_pressure = 0; low_pressure = 0 }

unfoldable pub look : Settings → ℕ → Bool → Load → Option (ℕ × ℕ) → Stage → Stage
unfolding weigh active_workers
look cfg now cpu_saturated load none st = st
look cfg now cpu_saturated load (some (size, capacity)) st =
    if active_workers load st == 0
    then st
    else if capacity == 0
    then st
    else weigh cfg now cpu_saturated load size capacity st

-- The body of the loop over the stages, for a stage that is not the root.
unfoldable pub watch : Settings → ℕ → Bool → Load → Stage → Stage
unfolding look cooling
watch cfg now cpu_saturated load st =
    if not st.job.autoscale
    then st
    else if cooling cfg now st.last_scale
    then st
    else look cfg now cpu_saturated load load.in_queue st

-- The loop over the stages behind the root, each with its load.
unfoldable pub watch_stages : Settings → ℕ → Bool → List Load → List Stage → List Stage
unfolding watch
watch_stages cfg now cpu_saturated loads [] = []
watch_stages cfg now cpu_saturated [] (st ∷ sts) = st ∷ sts
watch_stages cfg now cpu_saturated (load ∷ loads) (st ∷ sts) =
    watch cfg now cpu_saturated load st ∷ watch_stages cfg now cpu_saturated loads sts

-- The counters of /proc/stat, idle and total, as last read, and the verdict drawn from them.
pub record Cpu : Type 0 where
  pub prev : Option (ℕ × ℕ)
  pub saturated : Bool

-- `cpu_usage > cpu_limit`, with both sides multiplied by the time that has passed.
over_limit : ℕ → ℕ × ℕ → ℕ × ℕ → Bool
over_limit limit (idle, total) (idle', total') =
    ltb (100 * idle' + (100 - limit) * total) ((100 - limit) * total' + 100 * idle)

unfoldable pub read_cpu : Settings → Option (ℕ × ℕ) → Cpu → Cpu
unfolding over_limit
read_cpu cfg none cpu = cpu
read_cpu cfg (some now) cpu = elim cpu.prev [
  | none ↦ cpu
  | some prev ↦ record {
    prev = some now;
    saturated = if ltb prev.1 now.1 then over_limit cfg.cpu_limit prev now else cpu.saturated;
  }
]

-- One sample of the thread: the time, what /proc/stat says, and the load of each stage.
pub record Sample : Type 0 where
  pub now : ℕ
  pub cpu : Option (ℕ × ℕ)
  pub loads : List Load

-- The loop of the thread, with the samples it takes before it is stopped.
unfoldable pub autoscaler_thread : Settings → List Sample → Cpu → List Stage → List Stage
unfolding read_cpu watch_stages
autoscaler_thread cfg [] cpu sts = sts
autoscaler_thread cfg (s ∷ samples) cpu sts =
    let cpu = read_cpu cfg s.cpu cpu in
    autoscaler_thread cfg samples cpu (watch_stages cfg s.now cpu.saturated s.loads sts)
