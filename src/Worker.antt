-- ===== src/Worker.antt =====
-- The run loop of a worker process, `_worker_run` of src/pipe/workers.py.
pub mod Emit
pub mod Batch
pub mod Pull
pub mod Loop
pub mod Exit
mod Tests
use gpupipe.Prelude.{
  ℕ, Bool, Option, none, some, List, [], ◌∷◌, ◌++◌, length, take, ltb, if◌then◌else◌,
}
use gpupipe.Types.{Msg}
use gpupipe.Channel.Input.{InputChannel}
use gpupipe.Channel.Output.{OutputChannel}

-- What a stage yields, lists or returns: a payload, None or End.
pub data Yield {ℓ} (B : Type ℓ) : Type ℓ where
  value : B → Yield B
  none_value end_value : Yield B

-- ConnectionError and FileNotFoundError ask for a restart; any other exception does not.
pub data Error : Type 0 where
  connection other : Error

-- How one call of the stage ends. A generator may raise after its last item.
pub data Outcome {ℓ} (B : Type ℓ) : Type ℓ where
  nothing : Outcome B
  single : Yield B → Outcome B
  listed : List (Yield B) → Outcome B
  generator : List (Yield B) → Option Error → Outcome B
  raises : Error → Outcome B

-- A cooperative park in this iteration: none asked for, refused by `on_park`, or the items that
-- `on_park` handed back before it released the GPU.
pub data Park {ℓ} (B : Type ℓ) : Type ℓ where
  not_asked refused : Park B
  released : List (Yield B) → Park B

pub record Config : Type 0 where
  pub batch_size : ℕ
  pub drain : Bool
  pub empty_threshold : ℕ
  pub raise_errors : Bool
  pub timing : Bool

-- One poll while a batch fills: what arrived before it, and whether the deadline has passed when
-- the loop looks at the clock first, and when it looks after an empty poll.
pub record Poll {ℓ} (A : Type ℓ) : Type ℓ where
  pub arrivals : List (Msg A)
  pub late : Bool
  pub late_after : Bool

-- The puts and gets of an iteration that raise, if they are made. `send_fails` and `park_fails` have
-- the number of payloads that are sent first, `fill_fails` the number of polls of the batch.
pub record Faults : Type 0 where
  pub age_fails : Bool
  pub park_fails : Option (ℕ × Error)
  pub park_flush_fails : Option Error
  pub stop_fails : Option Error
  pub fill_fails : Option (ℕ × Error)
  pub send_fails : Option (ℕ × Error)

abbrev pub no_faults : Faults
no_faults = record {
  age_fails = Bool.false;
  park_fails = none;
  park_flush_fails = none;
  stop_fails = none;
  fill_fails = none;
  send_fails = none;
}

-- What the environment shows to one iteration of the loop. `gen_stop` is the number of generator
-- items after which the loop over a generator sees `should_stop`.
pub record Tick {ℓ} (A B : Type ℓ) : Type ℓ where
  pub should_stop : Bool
  pub drain_event : Bool
  pub upstream_done : Bool
  pub broken : Bool
  pub arrivals : List (Msg A)
  pub park : Park B
  pub polls : List (Poll A)
  pub gen_stop : Option ℕ
  pub faults : Faults

-- What the worker has done so far: calls of the stage with the items given, and parks.
pub data Event {ℓ} (A B : Type ℓ) : Type ℓ where
  called : List A → Option ℕ → Outcome B → Event A B
  parked : List (Yield B) → Event A B

pub record Worker {ℓ} (A B : Type ℓ) : Type ℓ where
  pub in_ch : InputChannel A
  pub out_ch : OutputChannel (Yield B)
  pub consecutive_empty : ℕ
  pub items_processed : ℕ
  pub published : Option ℕ
  pub clock_reads : ℕ
  pub trace : List (Event A B)

-- How an iteration ends: the loop goes on; it ends and the worker flushes and coordinates; a
-- connection error ends it and asks for a restart; WorkerStop takes the worker out of its pool; an
-- exception leaves the process.
pub data Verdict : Type 0 where
  running ended broken_connection left crashed : Verdict

module _ {ℓ} {B : Type ℓ} where
  -- The payloads among yielded values: what `r is not None and not _is_end(r)` lets through.
  unfoldable pub values : List (Yield B) → List (Yield B)
  values [] = []
  values (value b ∷ ys) = value b ∷ values ys
  values (none_value ∷ ys) = values ys
  values (end_value ∷ ys) = values ys

  -- The items that the loop over a generator reaches.
  unfoldable pub reached : Option ℕ → List (Yield B) → List (Yield B)
  reached none ys = ys
  reached (some k) ys = take k ys

  -- Whether that loop was stopped before the generator ended.
  unfoldable pub cut_short : Option ℕ → List (Yield B) → Bool
  cut_short none ys = Bool.false
  cut_short (some k) ys = ltb k (length ys)

  -- The items that a call of the stage yields to the run loop.
  unfoldable pub yielded : Option ℕ → Outcome B → List (Yield B)
  unfolding reached
  yielded limit nothing = []
  yielded limit (single y) = y ∷ []
  yielded limit (listed ys) = ys
  yielded limit (generator ys e) = reached limit ys
  yielded limit (raises e) = []
