-- ===== src/Sequential.antt =====
-- `_sequential_run` of src/pipe/sequential.py: the whole pipeline in one process, over one list of
-- pending items.
pub mod Pending
pub mod Order
pub mod Target
mod Tests
use gpupipe.Prelude.{
  ℕ, zero, suc, ◌+◌, ◌-◌, Bool, true, false, not, ◌&&◌, ◌||◌, Option, none, some, List, [], ◌∷◌,
  ◌++◌, ltb, leb, ◌==◌, if◌then◌else◌, length, is_empty,
}
use gpupipe.Worker.{
  Yield, value, none_value, end_value, Error, Outcome, nothing, single, listed, generator, raises,
}
use gpupipe.Worker.Exit.{Hook, missing, raising, returning}

-- What a call of a stage does, in order: it yields (or returns, or lists) something, it pushes to a
-- stage that `_seq_push` accepts, or, as a run worker, it puts something.
pub data Emission {ℓ} (A : Type ℓ) : Type ℓ where
  yields puts : Yield A → Emission A
  pushes : ℕ → Yield A → Emission A

-- The emissions of a call, and whether an exception ended it.
pub record Reply {ℓ} (A : Type ℓ) : Type ℓ where
  pub emissions : List (Emission A)
  pub fails : Bool

-- What has happened: the root emitted, a stage was called or run with items, an item was yielded to
-- the caller, or a stage was flushed.
pub data Step {ℓ} (A : Type ℓ) : Type ℓ where
  rooted : List (Yield A) → Step A
  called : ℕ → List (Yield A) → List (Emission A) → Step A
  out : ℕ → Yield A → Step A
  flushed : ℕ → List (Yield A) → Step A

-- `pending_items` holds each item with the index of its stage.
pub record Seq {ℓ} (A : Type ℓ) : Type ℓ where
  pub pending : List (ℕ × Yield A)
  pub root_ended : Bool
  pub failed : Bool
  pub trace : List (Step A)

-- The pipeline: what its stages do may depend on all that went before.
pub record Stages {ℓ} (A : Type ℓ) : Type ℓ where
  pub count : ℕ
  pub raise_errors : Bool
  pub batch : ℕ → ℕ
  pub has_run : ℕ → Bool
  pub root : List (Step A) → Outcome A
  pub call : ℕ → List (Step A) → List (Yield A) → Reply A
  pub run : ℕ → List (Step A) → List (Yield A) → Reply A
  pub flush : ℕ → List (Step A) → Hook A

module _ {ℓ} {A : Type ℓ} where
  -- `res_item is not None and not _is_end(res_item)`.
  unfoldable pub payload_entry : ℕ → Yield A → List (ℕ × Yield A)
  payload_entry next (value a) = (next, value a) ∷ []
  payload_entry next none_value = []
  payload_entry next end_value = []

  -- `item is not None`.
  unfoldable pub item_entry : ℕ → Yield A → List (ℕ × Yield A)
  item_entry next (value a) = (next, value a) ∷ []
  item_entry next none_value = []
  item_entry next end_value = (next, end_value) ∷ []

  emission_entry : ℕ → Emission A → List (ℕ × Yield A)
  unfolding payload_entry item_entry
  emission_entry next (yields y) = payload_entry next y
  emission_entry next (puts y) = item_entry next y
  emission_entry next (pushes i y) = item_entry i y

  -- What `_add_result`, `_seq_push` and `put` append to the pending items.
  unfoldable pub entries : ℕ → List (Emission A) → List (ℕ × Yield A)
  unfolding emission_entry
  entries next [] = []
  entries next (e ∷ es) = emission_entry next e ++ entries next es

  unfoldable pub root_entries : List (Yield A) → List (ℕ × Yield A)
  unfolding payload_entry
  root_entries [] = []
  root_entries (y ∷ ys) = payload_entry 1 y ++ root_entries ys

  unfoldable pub flush_entries : ℕ → List (Yield A) → List (ℕ × Yield A)
  unfolding item_entry
  flush_entries next [] = []
  flush_entries next (y ∷ ys) = item_entry next y ++ flush_entries next ys

  -- A list that the root returns is read up to its first End.
  before_end : List (Yield A) → List (Yield A)
  before_end [] = []
  before_end (end_value ∷ ys) = []
  before_end (value a ∷ ys) = value a ∷ before_end ys
  before_end (none_value ∷ ys) = none_value ∷ before_end ys

  has_end : List (Yield A) → Bool
  has_end [] = false
  has_end (end_value ∷ ys) = true
  has_end (value a ∷ ys) = has_end ys
  has_end (none_value ∷ ys) = has_end ys

  is_end : Yield A → Bool
  is_end (value a) = false
  is_end none_value = false
  is_end end_value = true

  root_emits : List (Yield A) → Bool → Bool → Seq A → Seq A
  unfolding root_entries
  root_emits ys ends raises_out s = record {
    pending = s.pending ++ root_entries ys;
    root_ended = ends;
    failed = raises_out;
    trace = s.trace ++ rooted ys ∷ [];
  }

  -- An exception of the root is not caught.
  on_root : Outcome A → Seq A → Seq A
  unfolding root_emits before_end has_end is_end
  on_root nothing s = s
  on_root (single y) s = root_emits (y ∷ []) (is_end y) false s
  on_root (listed ys) s = root_emits (before_end ys) (has_end ys) false s
  on_root (generator ys none) s = root_emits ys true false s
  on_root (generator ys (some e)) s = root_emits ys false true s
  on_root (raises e) s = root_emits [] false true s

  unfoldable pub root_step : Stages A → Seq A → Seq A
  unfolding on_root
  root_step p s = if s.root_ended then s else on_root (p.root s.trace) s

  -- The items of a batch: those behind it, as long as they are for the same stage.
  unfoldable pub gather :
      ℕ → ℕ → List (Yield A) → List (ℕ × Yield A) → List (Yield A) × List (ℕ × Yield A)
  gather i size batch [] = (batch, [])
  gather i size batch ((j, y) ∷ q) =
      let more = gather i size (batch ++ y ∷ []) q in
      if ltb (length batch) size && j == i then more else (batch, (j, y) ∷ q)

  -- The stage answers; an exception is printed, or leaves the run.
  answer : Stages A → ℕ → List (Yield A) → List (ℕ × Yield A) → Reply A → Seq A → Seq A
  unfolding entries
  answer p i items q r s = record s {
    pending = q ++ entries (i + 1) r.emissions;
    failed = r.fails && p.raise_errors;
    trace = s.trace ++ called i items r.emissions ∷ [];
  }

  -- `_process_callable`.
  process_callable : Stages A → ℕ → Yield A → List (ℕ × Yield A) → Seq A → Seq A
  unfolding gather answer
  process_callable p i y q s =
      if ltb 0 (p.batch i)
      then answer p i (gather i (p.batch i) (y ∷ []) q).0 (gather i (p.batch i) (y ∷ []) q).1
          (p.call i s.trace (gather i (p.batch i) (y ∷ []) q).0) s
      else answer p i (y ∷ []) q (p.call i s.trace (y ∷ [])) s

  -- The pending items of stage `i`, and the others.
  unfoldable pub at : ℕ → List (ℕ × Yield A) → List (Yield A)
  at i [] = []
  at i ((j, y) ∷ q) = let rest = at i q in if j == i then y ∷ rest else rest

  unfoldable pub others : ℕ → List (ℕ × Yield A) → List (ℕ × Yield A)
  others i [] = []
  others i ((j, y) ∷ q) = let rest = others i q in if j == i then rest else (j, y) ∷ rest

  -- A run worker is given all that is pending for it; `put` appends behind the others.
  run_worker : Stages A → ℕ → Yield A → List (ℕ × Yield A) → Seq A → Seq A
  unfolding at others answer
  run_worker p i y q s = answer p i (y ∷ at i q) (others i q) (p.run i s.trace (y ∷ at i q)) s

  yield_out : ℕ → Yield A → List (ℕ × Yield A) → Seq A → Seq A
  yield_out i y q s = record s { pending = q; trace = s.trace ++ out i y ∷ [] }

  -- What the loop does with the first pending item; `main` tells the main loop from the loop after
  -- the flushes, which calls every stage.
  take_first : Bool → Stages A → List (ℕ × Yield A) → Seq A → Seq A
  unfolding process_callable run_worker yield_out
  take_first main p [] s = s
  take_first main p ((i, y) ∷ q) s =
      if leb p.count i
      then yield_out i y q s
      else if main && p.has_run i
      then run_worker p i y q s
      else process_callable p i y q s

  unfoldable pub take_step : Bool → Stages A → Seq A → Seq A
  unfolding take_first
  take_step main p s = take_first main p s.pending s

  -- One pass of the main loop; an exception of the root leaves it at once.
  unfoldable pub iterate : Stages A → Seq A → Seq A
  unfolding root_step take_step
  iterate p s = if (root_step p s).failed then root_step p s else take_step true p (root_step p s)

  unfoldable pub main_loop : ℕ → Stages A → Seq A → Seq A
  unfolding iterate
  main_loop zero p s = s
  main_loop (suc fuel) p s =
      let more = main_loop fuel p (iterate p s) in
      if s.failed || (s.root_ended && is_empty s.pending) then s else more

  on_hook : ℕ → Hook A → Seq A → Seq A
  unfolding flush_entries
  on_hook i missing s = s
  on_hook i raising s = record s { failed = true }
  on_hook i (returning ys) s = record s {
    pending = s.pending ++ flush_entries (i + 1) ys;
    trace = s.trace ++ flushed i ys ∷ [];
  }

  -- The flushes of the `n` stages from stage `i`, run workers apart.
  unfoldable pub flush_stages : ℕ → ℕ → Stages A → Seq A → Seq A
  unfolding on_hook
  flush_stages i zero p s = s
  flush_stages i (suc n) p s =
      let more =
        flush_stages (i + 1) n p (if p.has_run i then s else on_hook i (p.flush i s.trace) s) in
      if s.failed then s else more

  unfoldable pub drain_loop : ℕ → Stages A → Seq A → Seq A
  unfolding take_step
  drain_loop zero p s = s
  drain_loop (suc fuel) p s =
      let more = drain_loop fuel p (take_step false p s) in
      if s.failed || is_empty s.pending then s else more

  abbrev pub fresh : Seq A
  fresh = record { pending = []; root_ended = false; failed = false; trace = [] }

  -- The whole run, on fuel for its two loops.
  unfoldable pub sequential_run : ℕ → ℕ → Stages A → Seq A
  unfolding main_loop flush_stages drain_loop
  sequential_run fuel fuel' p =
      drain_loop fuel' p (flush_stages 1 (p.count - 1) p (main_loop fuel p fresh))
