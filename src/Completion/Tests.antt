-- ===== src/Completion/Tests.antt =====
-- The coordination of a stage's workers at concrete inputs.
use gpupipe.Prelude.{ℕ, ◌≡◌, ◌<◌, ◌≤◌, refl, List, [], ◌∷◌, false, some, arith}
use gpupipe.Types.{Msg, item}
use gpupipe.Queue.{ShmQueue}
use gpupipe.Completion.{Stage}
use gpupipe.Completion.Interleaving.{
  finished, weight, is_working, step, run, start, ended-once, ended-finished,
}

abbrev last_queue : ShmQueue (Msg ℕ)
last_queue = record { maxsize = 0; items = item 3 ∷ [] }

abbrev three_workers : Stage ℕ
three_workers = record {
  end_counter = some 1;
  worker_count = some 3;
  out_queue = some last_queue;
  done = some false;
}

-- Both workers count themselves before either reads the worker count.
abbrev both_count : List ℕ
both_count = 0 ∷ 1 ∷ 1 ∷ 0 ∷ []

ended-once_example :
    ((run both_count (start 2)).ended ≤ 1)
    × (0 < (run both_count (start 2)).ended → weight is_working (run both_count (start 2)).pcs ≡ 0)
ended-once_example = ended-once 2 both_count (omega arith)

both_finished : (run both_count (start 2)).pcs ≡ finished ∷ finished ∷ []
unfolding run step start
both_finished = refl

ended-finished_example : (run both_count (start 2)).ended ≡ 1
unfolding run step start
ended-finished_example = ended-finished 2 both_count (omega arith) (tt, (tt, tt))
