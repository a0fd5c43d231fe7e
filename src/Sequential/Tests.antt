-- ===== src/Sequential/Tests.antt =====
-- A sequential run at concrete inputs: a root that ends at once, a stage that sends its first item
-- back to itself, and a flush.
use gpupipe.Prelude.{
  ℕ, ◌≡◌, refl, List, [], ◌∷◌, ◌++◌, false, if◌then◌else◌, length, leb, String, pos, ◌<◌, ◌⊎◌, ◌↔◌,
}
use gpupipe.Push.{index, ok, target_index}
use gpupipe.Push.Resolve.{Means}
use gpupipe.Sequential.Target.{seq_target, seq_target-target_index}
use gpupipe.Worker.{Yield, value, end_value, listed}
use gpupipe.Worker.Exit.{returning}
use gpupipe.Sequential.{yields, pushes, Reply, Step, Stages, at, sequential_run}
use gpupipe.Sequential.Pending.{taken, addressed}
use gpupipe.Sequential.Order.{sequential_run-Served}

abbrev answers : List (Step ℕ) → List (Yield ℕ) → Reply ℕ
answers tr ys =
    if leb (length tr) 1
    then record { emissions = pushes 1 (value 50) ∷ []; fails = false }
    else record { emissions = yields (value 7) ∷ []; fails = false }

abbrev two_stages : Stages ℕ
two_stages = record {
  count = 2;
  raise_errors = false;
  batch = λ i. 0;
  has_run = λ i. false;
  root = λ tr. listed (value 1 ∷ value 2 ∷ end_value ∷ value 3 ∷ []);
  call = λ i tr ys. answers tr ys;
  run = λ i tr ys. answers tr ys;
  flush = λ i tr. returning (value 9 ∷ []);
}

-- The items of stage 1, in order: the second of the root, and then the one sent back.
served : taken 1 (sequential_run 9 9 two_stages).trace ≡ value 1 ∷ value 2 ∷ value 50 ∷ []
unfolding sequential_run
served = refl

sequential_run-Served_example :
    taken 2 (sequential_run 9 9 two_stages).trace ++ at 2 (sequential_run 9 9 two_stages).pending
    ≡ addressed 2 (sequential_run 9 9 two_stages).trace
sequential_run-Served_example = sequential_run-Served 9 9 2 two_stages

abbrev stage_names : List String
stage_names = "Source" ∷ "Ocr" ∷ []

seq_target-target_index_example : (target_index 2 stage_names (index (pos 2)) ≡ ok 2) ↔ (
    (seq_target 2 stage_names (index (pos 2)) ≡ ok 2)
    ⊎ (Means stage_names (index (pos 2)) 2 × (◌≡◌ {A = ℕ} 2 2) × (0 < 2)))
seq_target-target_index_example = seq_target-target_index 2 stage_names (index (pos 2)) 2
