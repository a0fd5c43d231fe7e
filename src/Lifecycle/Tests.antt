-- ===== src/Lifecycle/Tests.antt =====
-- The lifecycle at concrete inputs: a root stage, a batching stage on two GPUs, a threaded stage.
use gpupipe.Prelude.{◌≡◌, refl, List, [], ◌∷◌, true, false, none, some, pos}
use gpupipe.Lifecycle.{Job, drain_root, breaks_prefix, PipeState, up, restart}
use gpupipe.Lifecycle.Restart.{IsFresh, restart-IsFresh}

abbrev root : Job
root = record {
  drain = false;
  chunk = none;
  batch = 0;
  outqn = some 10;
  thread = false;
  gpus = [];
  num_workers = 1;
}

abbrev embed : Job
embed = record {
  drain = true;
  chunk = some (pos 4);
  batch = 8;
  outqn = none;
  thread = false;
  gpus = 5 ∷ 6 ∷ [];
  num_workers = 3;
}

abbrev upload : Job
upload = record {
  drain = true;
  chunk = none;
  batch = 0;
  outqn = some 4;
  thread = true;
  gpus = [];
  num_workers = 6;
}

abbrev three_jobs : List Job
three_jobs = root ∷ embed ∷ upload ∷ []

abbrev draining : PipeState
draining = record {
  jobs = three_jobs;
  started = true;
  should_stop = 0;
  drain_event = true;
  stages = [];
  queues = 3 ∷ [];
  processes = [];
}

restart-IsFresh_example :
    (p' : PipeState) × (restart draining ≡ up p') × IsFresh three_jobs p' × (p'.drain_event ≡ true)
unfolding breaks_prefix drain_root
restart-IsFresh_example = restart-IsFresh draining refl refl
