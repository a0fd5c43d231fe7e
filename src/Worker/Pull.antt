-- ===== src/Worker/Pull.antt =====
-- `_pull` and `_put`, which `_worker_run` of src/pipe/workers.py gives to a stage with its own
-- `run()`. In a poll, `late` is what `should_stop` says before it, and `late_after` whether upstream
-- is done when it found nothing.
pub mod Keeps
use gpupipe.Prelude.{
  ℕ, zero, suc, ◌+◌, Bool, true, false, ◌||◌, List, [], ◌∷◌, ◌++◌, leb, length, is_empty,
  if◌then◌else◌,
}
use gpupipe.Types.{Msg, ctrl, end_of_stream, worker_stop}
use gpupipe.Channel.Input.{
  InputChannel, Read, payload, control, empty, index_error, attribute_error, get, put,
}
use gpupipe.Channel.Output.{OutputChannel, send, maybe_flush}
use gpupipe.Worker.{Yield, value, none_value, end_value, Poll, other}
use gpupipe.Worker.Batch.{Filled, filled, failed, arrive}

module _ {ℓ} {A : Type ℓ} where
  -- What a poll leads to; `more` goes on pulling.
  after_pull :
      Bool → (InputChannel A → List A → Filled A) → List A → Read A → InputChannel A → Filled A
  after_pull done more items (payload a) ch = more ch (items ++ a ∷ [])
  after_pull done more items (control end_of_stream) ch = more ch items
  after_pull done more items (control worker_stop) ch = filled items (put (ctrl worker_stop) ch)
  after_pull done more items empty ch =
      if is_empty items then (if done then filled [] ch else more ch items) else filled items ch
  after_pull done more items index_error ch = failed other ch
  after_pull done more items attribute_error ch = failed other ch

  -- The loop, over the polls that it makes; a loop that outlasts them is cut off there.
  unfoldable pub pull_items : List (Poll A) → ℕ → InputChannel A → List A → Filled A
  unfolding arrive after_pull
  pull_items [] n ch items = filled items ch
  pull_items (p ∷ polls) n ch items =
      let next =
        after_pull p.late_after (pull_items polls n) items (get (arrive p.arrivals ch)).0
          (get (arrive p.arrivals ch)).1 in
      if leb n (length items) || p.late then filled items ch else next

module _ {ℓ} {A B : Type ℓ} where
  -- Without fresh input, a partial chunk that is old enough is flushed.
  idle_flush : ℕ → Filled A → OutputChannel B → OutputChannel B
  idle_flush now (filled items ch) out_ch =
      if is_empty items then maybe_flush now out_ch else out_ch
  idle_flush now (failed e ch) out_ch = out_ch

  -- One call of `pull(n)`.
  unfoldable pub pull :
      ℕ → List (Poll A) → ℕ → InputChannel A → OutputChannel B → Filled A × OutputChannel B
  unfolding pull_items idle_flush
  pull now polls n ch out_ch =
      (pull_items polls n ch [], idle_flush now (pull_items polls n ch []) out_ch)

module _ {ℓ} {B : Type ℓ} where
  -- One call of `put(item)`, with the clock readings of its send.
  unfoldable pub put_item : ℕ → ℕ → Yield B → OutputChannel (Yield B) → OutputChannel (Yield B)
  put_item stamped now none_value out_ch = out_ch
  put_item stamped now (value b) out_ch = send (value b) stamped now out_ch
  put_item stamped now end_value out_ch = send end_value stamped now out_ch
