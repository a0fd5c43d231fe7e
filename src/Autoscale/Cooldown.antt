-- ===== src/Autoscale/Cooldown.antt =====
-- The loop of `_autoscaler_thread` over its samples: what holds of every stage at every time.
use gpupipe.Prelude.{
  ℕ, ◌+◌, ◌-◌, min, ◌≤◌, ◌≡◌, refl, subst, Bool, false, Option, none, some, List, [], ◌∷◌, arith,
  if_rule, All,
}
use gpupipe.Autoscale.{
  Settings, Load, Stage, Action, up, down, Cpu, Sample, active_workers, min_of, cooling, watch,
  watch_stages, read_cpu, autoscaler_thread, signal_worker_to_stop, spawn_additional_worker,
  note_scaling,
}
use gpupipe.Autoscale.Decisions.{Raises, Lowers, watch-rule, watch-IsBounded}

module _ (P : Stage → Type 0) (cfg : Settings)
    (keeps : (now : ℕ) (sat : Bool) (load : Load) (st : Stage)
      → P st
      → P (watch cfg now sat load st)) where
  watch_stages-All :
      (now : ℕ) (sat : Bool) (loads : List Load) (sts : List Stage)
      → All P sts
      → All P (watch_stages cfg now sat loads sts)
  unfolding watch_stages
  watch_stages-All now sat loads [] all = tt
  watch_stages-All now sat [] (st ∷ sts) all = all
  watch_stages-All now sat (load ∷ loads) (st ∷ sts) all =
      (keeps now sat load st all.0, watch_stages-All now sat loads sts all.1)

  thread-All :
      (samples : List Sample) (cpu : Cpu) (sts : List Stage)
      → All P sts
      → All P (autoscaler_thread cfg samples cpu sts)
  unfolding autoscaler_thread
  thread-All [] cpu sts all = all
  thread-All (s ∷ samples) cpu sts all =
      let cpu' = read_cpu cfg s.cpu cpu in
      thread-All samples cpu' (watch_stages cfg s.now cpu'.saturated s.loads sts)
        (watch_stages-All s.now cpu'.saturated s.loads sts all)

abbrev pub newest : List (ℕ × Action) → Option ℕ
newest [] = none
newest ((t, a) ∷ log) = some t

abbrev pub cooled_at : ℕ → Option ℕ → ℕ
cooled_at c none = 0
cooled_at c (some t) = t + c

-- Each scaling comes at least the cooldown after the one before it.
abbrev pub Spaced : ℕ → List (ℕ × Action) → Type 0
Spaced c [] = Unit
Spaced c ((t, a) ∷ log) = (cooled_at c (newest log) ≤ t) × Spaced c log

pub record IsPaced (cfg : Settings) (st : Stage) : Type 0 where
  pub marked : st.last_scale ≡ newest st.log
  pub spaced : Spaced cfg.cooldown st.log

cooled_at-le :
    (cfg : Settings) (now : ℕ) (last : Option ℕ)
    → cooling cfg now last ≡ false
    → cooled_at cfg.cooldown last ≤ now
unfolding cooling
cooled_at-le cfg now none rested = omega arith
cooled_at-le cfg now (some t) rested = ground arith

rested_at :
    (cfg : Settings) (now : ℕ) (last : Option ℕ) (log : List (ℕ × Action))
    → last ≡ newest log
    → cooling cfg now last ≡ false
    → cooled_at cfg.cooldown (newest log) ≤ now
rested_at cfg now last log e rested =
    subst (λ o. cooled_at cfg.cooldown o ≤ now) e (cooled_at-le cfg now last rested)

module _ (cfg : Settings) (now : ℕ) (sat : Bool) (load : Load) (st : Stage) where
  raised-IsPaced :
      IsPaced cfg st
      → Raises cfg now sat load st
      → IsPaced cfg (spawn_additional_worker (note_scaling now up st))
  unfolding spawn_additional_worker note_scaling
  raised-IsPaced v h = record {
    marked = refl;
    spaced = (rested_at cfg now st.last_scale st.log v.marked h.rested, v.spaced);
  }

  lowered-IsPaced :
      IsPaced cfg st
      → Lowers cfg now load st
      → IsPaced cfg (signal_worker_to_stop load (note_scaling now down st))
  unfolding signal_worker_to_stop note_scaling
  lowered-IsPaced v h =
      let spaced : Spaced cfg.cooldown ((now, down) ∷ st.log) =
        (rested_at cfg now st.last_scale st.log v.marked h.rested, v.spaced) in
      let noted = note_scaling now down st in
      if_rule (IsPaced cfg) load.stop_lands (record noted { worker_count = noted.worker_count - 1 })
        noted (λ _. record { marked = refl; spaced = spaced })
        (λ _. record { marked = refl; spaced = spaced })

  watch-IsPaced : IsPaced cfg st → IsPaced cfg (watch cfg now sat load st)
  watch-IsPaced v =
      watch-rule (IsPaced cfg) cfg now sat load st
        (λ high low. record { marked = v.marked; spaced = v.spaced }) (raised-IsPaced v)
        (lowered-IsPaced v)

-- No stage has fewer active workers after a sample than before it, unless it still has its least
-- number.
abbrev pub Spared : List Load → List Stage → List Stage → Type 0
Spared [] sts sts' = Unit
Spared (load ∷ loads) [] sts' = Unit
Spared (load ∷ loads) (st ∷ sts) [] = ⊥
Spared (load ∷ loads) (st ∷ sts) (st' ∷ sts') =
    (min (active_workers load st) (min_of st) ≤ active_workers load st') × Spared loads sts sts'

watch_stages-Spared :
    (cfg : Settings) (now : ℕ) (sat : Bool) (loads : List Load) (sts : List Stage)
    → Spared loads sts (watch_stages cfg now sat loads sts)
unfolding watch_stages
watch_stages-Spared cfg now sat [] sts = tt
watch_stages-Spared cfg now sat (load ∷ loads) [] = tt
watch_stages-Spared cfg now sat (load ∷ loads) (st ∷ sts) =
    ((watch-IsBounded cfg now sat load st).at_least, watch_stages-Spared cfg now sat loads sts)

-- At every sample of the thread.
abbrev pub AlwaysSpared : Settings → List Sample → Cpu → List Stage → Type 0
AlwaysSpared cfg [] cpu sts = Unit
AlwaysSpared cfg (s ∷ samples) cpu sts =
    let cpu' = read_cpu cfg s.cpu cpu in
    let sts' = watch_stages cfg s.now cpu'.saturated s.loads sts in
    Spared s.loads sts sts' × AlwaysSpared cfg samples cpu' sts'

thread-AlwaysSpared :
    (cfg : Settings) (samples : List Sample) (cpu : Cpu) (sts : List Stage)
    → AlwaysSpared cfg samples cpu sts
thread-AlwaysSpared cfg [] cpu sts = tt
thread-AlwaysSpared cfg (s ∷ samples) cpu sts =
    let cpu' = read_cpu cfg s.cpu cpu in
    (
      watch_stages-Spared cfg s.now cpu'.saturated s.loads sts,
      thread-AlwaysSpared cfg samples cpu' (watch_stages cfg s.now cpu'.saturated s.loads sts),
    )

-- If the scalings logged at first are a cooldown apart, then after any samples those of every stage
-- still are, and no sample takes the active workers of a stage, those that have not finished, below
-- its least number, or lower where they are fewer already.
pub autoscaler_thread-IsPaced :
    (cfg : Settings) (samples : List Sample) (cpu : Cpu) (sts : List Stage)
    → All (IsPaced cfg) sts
    → All (IsPaced cfg) (autoscaler_thread cfg samples cpu sts) × AlwaysSpared cfg samples cpu sts
autoscaler_thread-IsPaced cfg samples cpu sts paced = (
  thread-All (IsPaced cfg) cfg (watch-IsPaced cfg) samples cpu sts paced,
  thread-AlwaysSpared cfg samples cpu sts,
)
