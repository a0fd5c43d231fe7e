-- ===== src/Channel/Iterator.antt =====
-- `PipeIterator` of src/pipe/queues.py, which reads a pipeline's final queue.
pub mod Delivery
use gpupipe.Prelude.{ℕ, zero, suc, List, [], ◌∷◌}
use gpupipe.Types.{Sentinel, end_of_stream, worker_stop}
use gpupipe.Channel.Input.{
  InputChannel, Read, payload, control, empty, index_error, attribute_error, get,
}

-- How one call of `__next__` ends: it returns, raises StopIteration, is still polling because the
-- queue is empty, or another exception passes through it.
pub data Next {ℓ} (A : Type ℓ) : Type ℓ where
  returned : A → Next A
  returned_control : Sentinel → Next A
  stop_iteration polling failed : Next A

module _ {ℓ} {A : Type ℓ} where
  on_read : Read A → Next A
  on_read (payload a) = returned a
  on_read (control end_of_stream) = stop_iteration
  on_read (control worker_stop) = returned_control worker_stop
  on_read empty = polling
  on_read index_error = failed
  on_read attribute_error = failed

  unfoldable pub next : InputChannel A → Next A × InputChannel A
  unfolding on_read
  next ch = let (r, ch') = get ch in (on_read r, ch')

  collected : Next A → List A × Next A → List A × Next A
  collected (returned a) rest = (a ∷ rest.0, rest.1)
  collected (returned_control s) rest = rest
  collected stop_iteration rest = ([], stop_iteration)
  collected polling rest = ([], polling)
  collected failed rest = ([], failed)

  -- `list(iterator)` on fuel: the payloads returned, and how the last call ended.
  unfoldable pub collect : ℕ → InputChannel A → List A × Next A
  unfolding next collected get
  collect zero ch = ([], polling)
  collect (suc fuel) ch = let (r, ch') = next ch in collected r (collect fuel ch')
