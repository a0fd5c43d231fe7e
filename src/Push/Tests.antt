-- ===== src/Push/Tests.antt =====
-- `Worker.push` at concrete inputs.
use gpupipe.Prelude.{
  ℕ, ◌-◌, ◌≡◌, ◌<◌, ◌≤◌, ◌≢◌, ◌↔◌, refl, List, [], ◌∷◌, Bool, true, false, none, some, get_elem?,
  set, arith, String,
}
use gpupipe.Queue.{ShmQueue, put}
use gpupipe.Push.{boolean, name, type_error, ok, raised, target_index, Round, push_loop, push}
use gpupipe.Push.Resolve.{Means, target_index-Means}
use gpupipe.Push.Delivery.{Leaves, push_loop-returns, push-lands}

abbrev stage_names : List String
stage_names = "Source" ∷ "Ocr" ∷ "Ocr" ∷ []

target_index-Means_example :
    ((target_index 3 stage_names (name "Ocr") ≡ ok 1)
      ↔ (Means stage_names (name "Ocr") 1 × (0 < 1) × (1 ≤ 3)))
    × ((target_index 3 stage_names (name "Ocr") ≡ raised type_error)
        ↔ ((b : Bool) × (name "Ocr" ≡ boolean b)))
target_index-Means_example = target_index-Means 3 stage_names (name "Ocr") 1

abbrev one_full : ShmQueue ℕ
one_full = record { maxsize = 1; items = 4 ∷ [] }

abbrev room : ShmQueue ℕ
room = record { maxsize = 0; items = [] }

-- One attempt meets a full queue; before the next the consumer takes a message.
abbrev two_rounds : List Round
two_rounds =
    record { stop = false; taken = 0; now = 10 } ∷ record { stop = false; taken = 1; now = 11 } ∷ []

abbrev pushed_queues : List (ShmQueue ℕ)
pushed_queues = record { maxsize = 1; items = 9 ∷ [] } ∷ room ∷ room ∷ []

pushed :
    push (one_full ∷ room ∷ room ∷ []) stage_names (name "Ocr") (some 9) true none 0 two_rounds
    ≡ ok (some (true, pushed_queues))
unfolding push put
pushed = refl

push-lands_example :
    (i : ℕ) × (q : ShmQueue ℕ) × (q' : ShmQueue ℕ) × (target_index 3 stage_names (name "Ocr")
      ≡ ok i)
    × (get_elem? (one_full ∷ room ∷ room ∷ []) (i - 1) ≡ some q)
    × (pushed_queues ≡ set (one_full ∷ room ∷ room ∷ []) (i - 1) q')
    × Leaves two_rounds q true 9 q'
push-lands_example =
    push-lands (one_full ∷ room ∷ room ∷ []) stage_names (name "Ocr") 9 true none 0 two_rounds true
      pushed_queues pushed

abbrev early_round : Round
early_round = record { stop = false; taken = 0; now = 10 }

abbrev late_round : Round
late_round = record { stop = false; taken = 0; now = 25 }

push_loop-returns_example : push_loop 9 (some 20) (early_round ∷ late_round ∷ []) one_full ≢ none
push_loop-returns_example =
    push_loop-returns 9 20 (early_round ∷ []) late_round [] one_full (omega arith)
