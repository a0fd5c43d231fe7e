-- ===== src/Threads/Exit.antt =====
-- What `_threaded_worker_run` of src/pipe/workers.py does around its threads: the pull and put of a
-- stage with its own `run()`, the `flush()` hook when the threads are over, and the coordination
-- with the other workers of the stage.
use gpupipe.Prelude.{
  ℕ, ◌+◌, ◌≤◌, ◌<◌, ◌≡◌, ◌⊎◌, Bool, Option, none, some, List, [], ◌∷◌, ◌++◌, length, take, drop,
}
use gpupipe.Types.{Msg, item, ctrl, end_of_stream}
use gpupipe.Channel.Input.{InputChannel}
use gpupipe.Channel.Output.{OutputChannel}
use gpupipe.Queue.{ShmQueue, put}
use gpupipe.Completion.{Stage, finish_worker}
use gpupipe.Worker.{Yield, value, none_value, end_value, Poll}
use gpupipe.Worker.Batch.{Filled}
use gpupipe.Worker.Pull.{pull_items, put_item}
use gpupipe.Worker.Exit.{Hook, missing, raising, returning}

module _ {ℓ} {A : Type ℓ} where
  -- One call of `pull(n)`: no idle flush follows it here.
  unfoldable pub thread_pull : List (Poll A) → ℕ → InputChannel A → Filled A
  unfolding pull_items
  thread_pull polls n ch = pull_items polls n ch []

module _ {ℓ} {B : Type ℓ} where
  unfoldable pub thread_put : ℕ → ℕ → Yield B → OutputChannel (Yield B) → OutputChannel (Yield B)
  unfolding put_item
  thread_put stamped now y out_ch = put_item stamped now y out_ch

  -- A value put on the queue by itself: here None is put like any other.
  abbrev pub bare : Yield B → Msg (Yield B)
  bare (value b) = item (value b)
  bare none_value = item none_value
  bare end_value = ctrl end_of_stream

  abbrev pub bare_all : List (Yield B) → List (Msg (Yield B))
  bare_all [] = []
  bare_all (y ∷ ys) = bare y ∷ bare_all ys

  -- What a put that waited comes to: Full ends the loop.
  after_wait :
      (ShmQueue (Msg (Yield B)) → List (Msg (Yield B)) × ShmQueue (Msg (Yield B)))
      → List (Msg (Yield B))
      → ShmQueue (Msg (Yield B))
      → Option (ShmQueue (Msg (Yield B)))
      → List (Msg (Yield B)) × ShmQueue (Msg (Yield B))
  after_wait more gone q none = (gone, q)
  after_wait more gone q (some q') = (gone ++ (more q').0, (more q').1)

  -- The loop over the items of the hook, from its `i`-th put on. Each put waits for up to a second,
  -- in which consumers take `takes i` messages. The result has all that they take, and the queue.
  unfoldable pub put_flushed :
      (ℕ → ℕ)
      → ℕ
      → List (Yield B)
      → ShmQueue (Msg (Yield B))
      → List (Msg (Yield B)) × ShmQueue (Msg (Yield B))
  unfolding after_wait
  put_flushed takes i [] q = ([], q)
  put_flushed takes i (y ∷ ys) q =
      after_wait (put_flushed takes (i + 1) ys) (take (takes i) q.items)
        (record q { items = drop (takes i) q.items })
        (put (bare y) (record q { items = drop (takes i) q.items }))

  -- The hook is iterated lazily: the items of one that raises are those before it raises.
  unfoldable pub run_thread_hook :
      (ℕ → ℕ) → Hook B → ShmQueue (Msg (Yield B)) → List (Msg (Yield B)) × ShmQueue (Msg (Yield B))
  unfolding put_flushed
  run_thread_hook takes missing q = ([], q)
  run_thread_hook takes raising q = ([], q)
  run_thread_hook takes (returning ys) q = put_flushed takes 0 ys q

  hook_on : (ℕ → ℕ) → Hook B → Option (ShmQueue (Msg (Yield B))) → Option (ShmQueue (Msg (Yield B)))
  unfolding run_thread_hook
  hook_on takes hook none = none
  hook_on takes hook (some q) = some (run_thread_hook takes hook q).1

  -- What follows the threads: the hook, then the coordination.
  unfoldable pub close : (ℕ → ℕ) → Bool → ℕ → Hook B → Stage (Yield B) → Stage (Yield B)
  unfolding hook_on
  close takes final consumers hook st =
      finish_worker final consumers [] (record st { out_queue = hook_on takes hook st.out_queue })

  -- The items of a hook that have landed, and why there are no more.
  Lands :
      List (Yield B)
      → ShmQueue (Msg (Yield B))
      → List (Msg (Yield B)) × ShmQueue (Msg (Yield B))
      → Type ℓ
  Lands ys q r =
      (n : ℕ) × (r.0 ++ r.1.items ≡ q.items ++ bare_all (take n ys))
      × ((length ys ≤ n) ⊎ ((0 < r.1.maxsize) × (r.1.maxsize ≤ length r.1.items)))
