-- ===== src/Lifecycle.antt =====
-- `start`, `restart` and `_stop` of src/pipe/lifecycle.py: the configuration of the stages, and the
-- objects that a start in multiprocessing mode creates.
pub mod Config
pub mod Restart
mod Tests
use gpupipe.Prelude.{
  ℕ, zero, suc, ◌+◌, ◌/◌, ◌%◌, max, Bool, true, false, not, ◌&&◌, ◌||◌, Option, none, some, List,
  [], ◌∷◌, ◌++◌, ltb, ◌==◌, if◌then◌else◌, length, get_elem?, is_empty, ℤ, pos, negsuc, sum, map,
}

-- What `add` has recorded of a stage. An empty `gpus` is a stage without a GPU pool.
pub record Job : Type 0 where
  pub drain : Bool
  pub chunk : Option ℤ
  pub batch : ℕ
  pub outqn : Option ℕ
  pub thread : Bool
  pub gpus : List ℕ
  pub num_workers : ℕ

-- Stage 0 has no input queue, so it always stops on drain.
unfoldable pub drain_root : List Job → List Job
drain_root [] = []
drain_root (j ∷ jobs) = record j { drain = false } ∷ jobs

-- Whether the loop over the jobs raises ValueError, for the flag `seen_drain`.
unfoldable pub breaks_prefix : Bool → List Job → Bool
breaks_prefix seen_drain [] = false
breaks_prefix seen_drain (j ∷ jobs) =
    let more = breaks_prefix true jobs in
    let rest = breaks_prefix seen_drain jobs in
    if j.drain then more else if seen_drain then true else rest

-- The batch size of the next stage, if it has one that asks for chunks.
adopted : List Job → ℕ
adopted [] = 0
adopted (j ∷ jobs) = if ltb 1 j.batch then j.batch else 0

explicit : ℤ → ℕ
explicit (pos n) = n
explicit (negsuc n) = 0

-- The chunk size of the output edge of a stage: explicit, or that of the stages after it.
chunk_of : Option ℤ → List Job → ℕ
unfolding adopted explicit
chunk_of (some c) later = explicit c
chunk_of none later = adopted later

unfoldable pub chunk_eff : Job → List Job → ℕ
unfolding chunk_of
chunk_eff j later = chunk_of j.chunk later

or_zero : Option ℕ → ℕ
or_zero none = 0
or_zero (some n) = n

unfoldable pub outq_size : Option ℕ → ℕ → ℕ
unfolding or_zero
outq_size outqn chunk =
    if ltb 0 (or_zero outqn) && ltb 1 chunk then max 1 (or_zero outqn / chunk) else or_zero outqn

unfoldable pub worker_count : Job → ℕ
worker_count j = if j.thread && is_empty j.gpus then 1 else j.num_workers

-- The processes that a start spawns: the GPU of each and the number of its threads.
pub record Spawn : Type 0 where
  pub gpu_id : Option ℕ
  pub num_threads : ℕ

pick_gpu : List ℕ → ℕ → Option ℕ
pick_gpu [] k = none
pick_gpu (g ∷ gs) k = get_elem? (g ∷ gs) (k % length (g ∷ gs))

-- The loop over `range(num_workers)`, from worker `k`.
spawn_from : List ℕ → ℕ → ℕ → List Spawn
unfolding pick_gpu
spawn_from gpus k zero = []
spawn_from gpus k (suc n) =
    record { gpu_id = pick_gpu gpus k; num_threads = 1 } ∷ spawn_from gpus (k + 1) n

unfoldable pub spawn_stage : Job → List Spawn
unfolding spawn_from
spawn_stage j =
    if j.thread && is_empty j.gpus
    then record { gpu_id = none; num_threads = j.num_workers } ∷ []
    else spawn_from j.gpus 0 j.num_workers

-- What a start makes for a stage: its output queue, its counters and its event.
pub record StageState : Type 0 where
  pub out_chunk : ℕ
  pub maxsize : ℕ
  pub end_counter : ℕ
  pub count : ℕ
  pub done : Bool

stage_state : Job → List Job → StageState
stage_state j later = record {
  out_chunk = chunk_eff j later;
  maxsize = outq_size j.outqn (chunk_eff j later);
  end_counter = 0;
  count = worker_count j;
  done = false;
}

unfoldable pub stage_states : List Job → List StageState
unfolding stage_state
stage_states [] = []
stage_states (j ∷ jobs) = stage_state j jobs ∷ stage_states jobs

-- The state of a pipeline that the lifecycle touches. `queues` and `processes` grow with a start.
pub record PipeState : Type 0 where
  pub jobs : List Job
  pub started : Bool
  pub should_stop : ℕ
  pub drain_event : Bool
  pub stages : List StageState
  pub queues : List ℕ
  pub processes : List (List Spawn)

-- `raised` is a ValueError; the flag `started` and the drain of stage 0 are set before it.
pub data Started : Type 0 where
  up raised : PipeState → Started

launch : PipeState → PipeState
launch p = record p {
  stages = stage_states p.jobs;
  queues = p.queues ++ map (λ (s : StageState). s.maxsize) (stage_states p.jobs);
  processes = p.processes ++ map spawn_stage p.jobs;
}

unfoldable pub start : PipeState → Started
unfolding launch
start p =
    let p' = record p { started = true; jobs = drain_root p.jobs } in
    if is_empty p.jobs || breaks_prefix false (drain_root p.jobs) then raised p' else up (launch p')

clear_stage : StageState → StageState
clear_stage s = record s { end_counter = 0; done = false }

-- `_stop`: the processes are ended and the queues closed; the flags are reset.
unfoldable pub stop : PipeState → PipeState
unfolding clear_stage
stop p = record p {
  should_stop = 0;
  drain_event = false;
  stages = map clear_stage p.stages;
  queues = [];
  processes = [];
}

resume_drain : Bool → Started → Started
resume_drain draining (raised p) = raised p
resume_drain draining (up p) = up (if draining then record p { drain_event = true } else p)

unfoldable pub restart : PipeState → Started
unfolding resume_drain
restart p = resume_drain p.drain_event (start (stop p))
