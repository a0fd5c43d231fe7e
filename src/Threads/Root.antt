-- ===== src/Threads/Root.antt =====
-- A root stage with `thread=True`: the root branch of `_thread_loop`, src/pipe/workers.py.
use gpupipe.Prelude.{◌≡◌, refl, inl, inr, Bool, true, false, not, ◌&&◌, if◌then◌else◌, Bool-cases}
use gpupipe.Worker.{Config, Verdict, running, ended, broken_connection, left, crashed}
use gpupipe.Source.Root.{
  RootTick, Root, check_raises, flush_aged, lose_chunk, on_result, root_iterate,
}

module _ {ℓ} {B : Type ℓ} where
  -- A source that has ended sets `thread_stop`, which stops the other threads.
  unfoldable pub note_stop : Root B × Verdict → (Root B × Verdict) × Bool
  note_stop (r, running) = ((r, running), false)
  note_stop (r, ended) = ((r, ended), true)
  note_stop (r, broken_connection) = ((r, broken_connection), false)
  note_stop (r, left) = ((r, left), false)
  note_stop (r, crashed) = ((r, crashed), false)

  -- One iteration, and whether it sets `thread_stop`.
  unfoldable pub thread_root : Config → RootTick B → Root B → (Root B × Verdict) × Bool
  unfolding note_stop check_raises flush_aged lose_chunk
  thread_root cfg t r =
      if t.should_stop
      then ((r, ended), false)
      else if check_raises t r
      then ((lose_chunk r, crashed), false)
      else if not cfg.drain && t.drain_event
      then ((flush_aged t r, ended), false)
      else note_stop (on_result cfg t.result (flush_aged t r))

  note_stop-same : (res : Root B × Verdict) → (note_stop res).0 ≡ res
  unfolding note_stop
  note_stop-same (r, running) = refl
  note_stop-same (r, ended) = refl
  note_stop-same (r, broken_connection) = refl
  note_stop-same (r, left) = refl
  note_stop-same (r, crashed) = refl

  -- A thread of a root stage does what a root process does.
  pub thread_root-root_iterate :
      (cfg : Config) (t : RootTick B) (r : Root B) → (thread_root cfg t r).0 ≡ root_iterate cfg t r
  unfolding thread_root root_iterate
  thread_root-root_iterate cfg t r = elim (Bool-cases t.should_stop) [
    | inl stop ↦ rw stop
    | inr runs ↦ elim (Bool-cases (check_raises t r)) [
      | inl raises ↦ simp (runs, raises) (refl)
      | inr checked ↦ elim (Bool-cases (not cfg.drain && t.drain_event)) [
        | inl drains ↦ simp (runs, checked, drains) (refl)
        | inr goes ↦
            simp (runs, checked, goes) (note_stop-same (on_result cfg t.result (flush_aged t r)))
      ]
    ]
  ]
