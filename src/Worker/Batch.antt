-- ===== src/Worker/Batch.antt =====
-- How a worker fills a batch: the inner loop of `_worker_run`, src/pipe/workers.py.
pub mod Fill
use gpupipe.Prelude.{
  ℕ, zero, suc, ◌==◌, Option, none, some, Bool, true, false, ◌||◌, List, [], ◌∷◌, ◌++◌, leb, length,
  if◌then◌else◌,
}
use gpupipe.Types.{Msg, ctrl, end_of_stream, worker_stop}
use gpupipe.Channel.Input.{
  InputChannel, Read, payload, control, empty, index_error, attribute_error, get, put, buffered,
}
use gpupipe.Worker.{Poll, Error, other}

-- A batch that is ready, or the exception of a `get`.
pub data Filled {ℓ} (A : Type ℓ) : Type ℓ where
  filled : List A → InputChannel A → Filled A
  failed : Error → InputChannel A → Filled A

next_fails : Option (ℕ × Error) → Option (ℕ × Error)
next_fails (some (suc k, e)) = some (k, e)
next_fails (some (zero, e)) = some (zero, e)
next_fails none = none

module _ {ℓ} {A : Type ℓ} where
  unfoldable pub arrive : List (Msg A) → InputChannel A → InputChannel A
  arrive ms ch = record ch { queue = ch.queue ++ ms }

  -- What a poll leads to; `more` goes on filling.
  after_poll :
      Bool → (InputChannel A → List A → Filled A) → List A → Read A → InputChannel A → Filled A
  after_poll late more batch (payload a) ch = more ch (batch ++ a ∷ [])
  after_poll late more batch (control end_of_stream) ch = more ch batch
  after_poll late more batch (control worker_stop) ch = filled batch (put (ctrl worker_stop) ch)
  after_poll late more batch empty ch = if late then filled batch ch else more ch batch
  after_poll late more batch index_error ch = failed other ch
  after_poll late more batch attribute_error ch = failed other ch

  -- The loop ends by its size, its deadline or a WorkerStop, which goes back on the queue; when the
  -- polls run out it is ended by its deadline.
  -- A get that finds nothing in the buffer goes to the queue, and may raise there.
  poll_fails : Option (ℕ × Error) → InputChannel A → Filled A → Filled A
  poll_fails (some (zero, e)) ch f = if buffered ch == 0 then failed e ch else f
  poll_fails (some (suc k, e)) ch f = f
  poll_fails none ch f = f

  unfoldable pub fill_batch :
      Option (ℕ × Error) → List (Poll A) → ℕ → InputChannel A → List A → Filled A
  unfolding arrive after_poll poll_fails next_fails
  fill_batch fails [] size ch batch = filled batch ch
  fill_batch fails (p ∷ polls) size ch batch =
      let next = poll_fails fails (arrive p.arrivals ch) (
        after_poll p.late_after (fill_batch (next_fails fails) polls size) batch
          (get (arrive p.arrivals ch)).0 (get (arrive p.arrivals ch)).1) in
      if leb size (length batch) || p.late then filled batch ch else next
