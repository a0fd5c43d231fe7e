-- ===== src/Autoscale/Decisions.antt =====
-- What one sample of `_autoscaler_thread` may do to a stage.
use gpupipe.Prelude.{
  ℕ, ◌+◌, ◌*◌, ◌≤◌, ◌<◌, min, max, ◌≡◌, Bool, false, not, ◌&&◌, ◌||◌, Option, none, some, arith,
  ltb, leb, ◌==◌, if◌then◌else◌, if_rule,
}
use gpupipe.Autoscale.{
  Settings, Load, Stage, up, down, active_workers, max_of, min_of, cooling, out_blocked,
  signal_worker_to_stop, spawn_additional_worker, note_scaling, press, relax, weigh, look, watch,
}

abbrev pub with_counts : ℕ → ℕ → Stage → Stage
with_counts high low st = record st { high_pressure = high; low_pressure = low }

-- When a worker is added, and when one is told to stop.
pub record Raises (cfg : Settings) (now : ℕ) (sat : Bool) (load : Load) (st : Stage) : Type 0 where
  pub rested : cooling cfg now st.last_scale ≡ false
  pub below_max : active_workers load st < max_of load st
  pub cpu_free : sat ≡ false
  pub room : out_blocked load.out_queue ≡ false
  pub pressed : cfg.scale_up_samples ≤ st.high_pressure + 1

pub record Lowers (cfg : Settings) (now : ℕ) (load : Load) (st : Stage) : Type 0 where
  pub rested : cooling cfg now st.last_scale ≡ false
  pub above_min : min_of st < active_workers load st
  pub slack : cfg.scale_down_samples ≤ st.low_pressure + 1

-- The three things that a sample does to a stage: it changes the counts only, it adds a worker, or
-- it tells one to stop.
module _ (P : Stage → Type 0) (cfg : Settings) (now : ℕ) (sat : Bool) (load : Load) (st : Stage)
    (counts : (high low : ℕ) → P (with_counts high low st))
    (raised : Raises cfg now sat load st → P (spawn_additional_worker (note_scaling now up st)))
    (lowered : Lowers cfg now load st
      → P (signal_worker_to_stop load (note_scaling now down st))) where
  weigh-rule :
      (size capacity : ℕ)
      → cooling cfg now st.last_scale ≡ false
      → P (weigh cfg now sat load size capacity st)
  unfolding weigh press relax
  weigh-rule size capacity rested =
      if_rule P
        (ltb (active_workers load st) (max_of load st)
          && leb (cfg.scale_up_threshold * capacity) (100 * size))
        (if sat || out_blocked load.out_queue
          then with_counts 0 st.low_pressure st
          else press cfg now st)
        (if ltb (min_of st) (active_workers load st)
            && leb (100 * size) (cfg.scale_down_threshold * capacity)
          then relax cfg now load st
          else with_counts 0 0 st)
        (λ hot.
          if_rule P (sat || out_blocked load.out_queue) (with_counts 0 st.low_pressure st)
            (press cfg now st) (λ _. counts 0 st.low_pressure)
            (λ free.
              if_rule P (leb cfg.scale_up_samples (st.high_pressure + 1))
                (spawn_additional_worker (note_scaling now up st))
                (with_counts (st.high_pressure + 1) 0 st) (λ often. raised (ground arith))
                (λ _. counts (st.high_pressure + 1) 0)))
        (λ _.
          if_rule P
            (ltb (min_of st) (active_workers load st)
              && leb (100 * size) (cfg.scale_down_threshold * capacity))
            (relax cfg now load st) (with_counts 0 0 st)
            (λ cold.
              if_rule P (leb cfg.scale_down_samples (st.low_pressure + 1))
                (signal_worker_to_stop load (note_scaling now down st))
                (with_counts 0 (st.low_pressure + 1) st) (λ often. lowered (ground arith))
                (λ _. counts 0 (st.low_pressure + 1)))
            (λ _. counts 0 0))

  look-rule :
      (queue : Option (ℕ × ℕ))
      → cooling cfg now st.last_scale ≡ false
      → P (look cfg now sat load queue st)
  unfolding look
  look-rule none rested = counts st.high_pressure st.low_pressure
  look-rule (some (size, capacity)) rested =
      if_rule P (active_workers load st == 0) st _ (λ _. counts st.high_pressure st.low_pressure)
        (λ _.
          if_rule P (capacity == 0) st (weigh cfg now sat load size capacity st)
            (λ _. counts st.high_pressure st.low_pressure) (λ _. weigh-rule size capacity rested))

  pub watch-rule : P (watch cfg now sat load st)
  unfolding watch
  watch-rule =
      if_rule P (not st.job.autoscale) st _ (λ _. counts st.high_pressure st.low_pressure)
        (λ _.
          if_rule P (cooling cfg now st.last_scale) st (look cfg now sat load load.in_queue st)
            (λ _. counts st.high_pressure st.low_pressure)
            (λ rested. look-rule load.in_queue rested))

-- The workers of a stage after a sample, against those before it.
pub record IsBounded (load : Load) (st st' : Stage) : Type 0 where
  pub same_job : st'.job ≡ st.job
  pub at_most : active_workers load st' ≤ max (active_workers load st) (max_of load st)
  pub at_least : min (active_workers load st) (min_of st) ≤ active_workers load st'
  pub not_below : min st.worker_count (min_of st) ≤ st'.worker_count

pub watch-IsBounded :
    (cfg : Settings) (now : ℕ) (sat : Bool) (load : Load) (st : Stage)
    → IsBounded load st (watch cfg now sat load st)
watch-IsBounded cfg now sat load st =
    watch-rule (IsBounded load st) cfg now sat load st
      (λ high low. unfold active_workers in ground arith)
      (λ h.
        unfold active_workers spawn_additional_worker note_scaling in ground (arith, h.below_max))
      (λ h. unfold active_workers signal_worker_to_stop note_scaling in ground (arith, h.above_min))
