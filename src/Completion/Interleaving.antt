-- ===== src/Completion/Interleaving.antt =====
-- The workers of a stage finish concurrently: each increments the counter under its lock, and reads
-- the worker count and acts on it afterwards. A schedule lists which worker takes the next step.
use gpupipe.Prelude.{
  ℕ, zero, suc, ◌+◌, ◌*◌, ◌≤◌, ◌<◌, ◌≡◌, refl, ◌∙◌, Option, none, some, List, [], ◌∷◌, arith, ltb,
  if◌then◌else◌, get_elem?, set, replicate, All,
}

pub data Pc : Type 0 where
  working finished : Pc
  counted : ℕ → Pc

-- `ended` counts how often some worker went on to put the Ends and to set the event.
pub record Group : Type 0 where
  pub end_counter : ℕ
  pub worker_count : ℕ
  pub ended : ℕ
  pub pcs : List Pc

advance : ℕ → Option Pc → Group → Group
advance i none g = g
advance i (some working) g = record g {
  end_counter = g.end_counter + 1;
  pcs = set g.pcs i (counted (g.end_counter + 1));
}
advance i (some (counted v)) g =
    if ltb v g.worker_count
    then record g { pcs = set g.pcs i finished }
    else record g { ended = g.ended + 1; pcs = set g.pcs i finished }
advance i (some finished) g = g

-- One step of worker `i`.
unfoldable pub step : ℕ → Group → Group
unfolding advance
step i g = advance i (get_elem? g.pcs i) g

unfoldable pub run : List ℕ → Group → Group
run [] g = g
run (i ∷ schedule) g = run schedule (step i g)

unfoldable pub start : ℕ → Group
start n = record { end_counter = 0; worker_count = n; ended = 0; pcs = replicate n working }

unfoldable pub weight : (Pc → ℕ) → List Pc → ℕ
weight w [] = 0
weight w (p ∷ ps) = w p + weight w ps

weight-set :
    (w : Pc → ℕ) (ps : List Pc) (i : ℕ) (p p' : Pc)
    → get_elem? ps i ≡ some p
    → weight w (set ps i p') + w p ≡ weight w ps + w p'
unfolding weight
weight-set w [] i p p' h = cc
weight-set w (x ∷ ps) zero p p' h = ground arith
weight-set w (x ∷ ps) (suc i) p p' h = omega (arith, weight-set w ps i p p' h)

-- Workers that have not incremented the counter.
abbrev pub is_working : Pc → ℕ
is_working working = 1
is_working (counted v) = 0
is_working finished = 0

-- Workers that have read a full counter and not yet acted on it.
abbrev pub is_due : ℕ → Pc → ℕ
is_due n working = 0
is_due n (counted v) = if ltb v n then 0 else 1
is_due n finished = 0

pub record Inv (g : Group) : Type 0 where
  pub all_counted : g.end_counter + weight is_working g.pcs ≡ g.worker_count
  pub one_due :
      weight (is_due g.worker_count) g.pcs + g.ended
      ≡ (if ltb g.end_counter g.worker_count then 0 else 1)

advance-Inv :
    (i : ℕ) (p : Option Pc) (g : Group) → get_elem? g.pcs i ≡ p → Inv g → Inv (advance i p g)
unfolding advance
advance-Inv i none g at v = v
advance-Inv i (some finished) g at v = v
advance-Inv i (some working) g at v = ground (
  arith,
  weight-set is_working g.pcs i working (counted (g.end_counter + 1)) at,
  weight-set (is_due g.worker_count) g.pcs i working (counted (g.end_counter + 1)) at,
)
advance-Inv i (some (counted k)) g at v = ground (
  arith,
  weight-set is_working g.pcs i (counted k) finished at,
  weight-set (is_due g.worker_count) g.pcs i (counted k) finished at,
)

pub step-Inv : (i : ℕ) (g : Group) → Inv g → Inv (step i g)
unfolding step
step-Inv i g v = advance-Inv i (get_elem? g.pcs i) g refl v

run-Inv : (schedule : List ℕ) (g : Group) → Inv g → Inv (run schedule g)
unfolding run
run-Inv [] g v = v
run-Inv (i ∷ schedule) g v = run-Inv schedule (step i g) (step-Inv i g v)

worker_count-step : (i : ℕ) (g : Group) → (step i g).worker_count ≡ g.worker_count
unfolding step
worker_count-step i g = by_pc (get_elem? g.pcs i)
  where
    by_pc : (p : Option Pc) → (advance i p g).worker_count ≡ g.worker_count
    by_pc none = unfold advance in refl
    by_pc (some working) = unfold advance in refl
    by_pc (some finished) = unfold advance in refl
    by_pc (some (counted k)) = unfold advance in ground arith

worker_count-run : (schedule : List ℕ) (g : Group) → (run schedule g).worker_count ≡ g.worker_count
unfolding run
worker_count-run [] g = refl
worker_count-run (i ∷ schedule) g = worker_count-run schedule (step i g) ∙ worker_count-step i g

weight-replicate : (w : Pc → ℕ) (n : ℕ) → weight w (replicate n working) ≡ n * w working
unfolding weight
weight-replicate w zero = omega arith
weight-replicate w (suc n) = omega (arith, weight-replicate w n)

start-Inv : (n : ℕ) → 0 < n → Inv (start n)
unfolding start
start-Inv n some_worker =
    ground (arith, weight-replicate is_working n, weight-replicate (is_due n) n)

abbrev pub IsFinished : Pc → Type 0
IsFinished working = ⊥
IsFinished (counted v) = ⊥
IsFinished finished = Unit {0}

weights-finished :
    (n : ℕ) (ps : List Pc)
    → All IsFinished ps
    → (weight is_working ps ≡ 0) × (weight (is_due n) ps ≡ 0)
unfolding weight
weights-finished n [] all = (refl, refl)
weights-finished n (working ∷ ps) all = absurd all.0
weights-finished n (counted v ∷ ps) all = absurd all.0
weights-finished n (finished ∷ ps) all = omega (arith, weights-finished n ps all.1)

final-Inv :
    (n : ℕ) (schedule : List ℕ)
    → 0 < n
    → Inv (run schedule (start n)) × ((run schedule (start n)).worker_count ≡ n)
final-Inv n schedule some_worker = (
  run-Inv schedule (start n) (start-Inv n some_worker),
  worker_count-run schedule (start n) ∙ unfold start in refl,
)

-- However the steps of the workers interleave, the stage is ended at most once, and only after
-- every one of its workers has counted itself out.
pub ended-once :
    (n : ℕ) (schedule : List ℕ)
    → 0 < n
    → ((run schedule (start n)).ended ≤ 1)
      × (0 < (run schedule (start n)).ended → weight is_working (run schedule (start n)).pcs ≡ 0)
ended-once n schedule some_worker =
    let (v, e) = final-Inv n schedule some_worker in
    (ground (arith, v.one_due), λ h. ground (arith, v.one_due, v.all_counted))

-- And once every worker has finished, the stage has been ended, exactly once.
pub ended-finished :
    (n : ℕ) (schedule : List ℕ)
    → 0 < n
    → All IsFinished (run schedule (start n)).pcs
    → (run schedule (start n)).ended ≡ 1
ended-finished n schedule some_worker all =
    let (v, e) = final-Inv n schedule some_worker in
    let none_left = weights-finished (run schedule (start n)).worker_count _ all in
    ground (arith, v.one_due, v.all_counted)
