-- ===== src/Lifecycle/Restart.antt =====
-- `restart` of src/pipe/lifecycle.py.
use gpupipe.Prelude.{ℕ, ◌≡◌, refl, Bool, true, false, List, [], ◌∷◌, map, arith, length, is_empty}
use gpupipe.Lifecycle.{
  Job, drain_root, breaks_prefix, Spawn, spawn_stage, worker_count, StageState, stage_state,
  stage_states, PipeState, up, launch, start, stop, restart, resume_drain,
}
use gpupipe.Lifecycle.Config.{spawn_stage-count}

-- Each job has its stage state, with its counter and event reset, one queue of that state's size,
-- and as many processes as the worker count that they share.
pub data Matches : List Job → List StageState → List ℕ → List (List Spawn) → Type 0 where
  none_left : Matches [] [] [] []
  one_each :
      {j : Job} {jobs : List Job} {s : StageState} {ss : List StageState} {qs : List ℕ}
      {p : List Spawn} {ps : List (List Spawn)}
      → s.count ≡ worker_count j
      → length p ≡ worker_count j
      → s.end_counter ≡ 0
      → s.done ≡ false
      → Matches jobs ss qs ps
      → Matches (j ∷ jobs) (s ∷ ss) (s.maxsize ∷ qs) (p ∷ ps)

abbrev pub sizes : List StageState → List ℕ
sizes ss = map (λ (s : StageState). s.maxsize) ss

Matches-launch :
    (jobs : List Job)
    → Matches jobs (stage_states jobs) (sizes (stage_states jobs)) (map spawn_stage jobs)
unfolding stage_states stage_state
Matches-launch [] = none_left
Matches-launch (j ∷ jobs) = one_each refl (spawn_stage-count j).0 refl refl (Matches-launch jobs)

-- A fresh pipeline for these jobs.
pub record IsFresh (jobs : List Job) (p : PipeState) : Type 0 where
  pub same_jobs : p.jobs ≡ jobs
  pub matching : Matches jobs p.stages p.queues p.processes
  pub not_stopping : p.should_stop ≡ 0

abbrev relaunched : PipeState → PipeState
relaunched p = launch (record (stop p) { started = true; jobs = drain_root p.jobs })

start-stop :
    (p : PipeState)
    → is_empty p.jobs ≡ false
    → breaks_prefix false (drain_root p.jobs) ≡ false
    → start (stop p) ≡ up (relaunched p)
unfolding start stop
start-stop p some_job accepted = ground arith

relaunched-IsFresh : (p : PipeState) → IsFresh (drain_root p.jobs) (relaunched p)
unfolding launch stop
relaunched-IsFresh p = record {
  same_jobs = refl;
  matching = Matches-launch (drain_root p.jobs);
  not_stopping = refl;
}

resumed :
    (draining : Bool) (jobs : List Job) (p : PipeState)
    → p.drain_event ≡ false
    → IsFresh jobs p
    → (p' : PipeState) × (resume_drain draining (up p) ≡ up p')
      × IsFresh jobs p'
      × (p'.drain_event ≡ draining)
unfolding resume_drain
resumed true jobs p e f = (
  record p { drain_event = true },
  refl,
  record { same_jobs = f.same_jobs; matching = f.matching; not_stopping = f.not_stopping },
  refl,
)
resumed false jobs p e f = (p, refl, f, e)

-- A restart of a pipeline in any state whose jobs are accepted comes up with the same jobs, the first
-- not draining, and for each of them in order exactly one stage state with its counter and event
-- reset, one queue and as many processes as that stage counts, nothing of the old run left; it goes
-- on draining exactly if it was draining.
pub restart-IsFresh :
    (p : PipeState)
    → is_empty p.jobs ≡ false
    → breaks_prefix false (drain_root p.jobs) ≡ false
    → (p' : PipeState) × (restart p ≡ up p')
      × IsFresh (drain_root p.jobs) p'
      × (p'.drain_event ≡ p.drain_event)
unfolding restart
restart-IsFresh p some_job accepted = rw (start-stop p some_job accepted) (
    resumed p.drain_event (drain_root p.jobs) (relaunched p) (unfold launch stop in refl)
      (relaunched-IsFresh p))
