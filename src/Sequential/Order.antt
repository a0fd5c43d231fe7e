-- ===== src/Sequential/Order.antt =====
-- The order in which `_sequential_run` serves the items of each stage.
use gpupipe.Prelude.{
  ℕ, zero, suc, ◌+◌, ◌-◌, ◌≡◌, refl, ap, ◌∙◌, Bool, true, false, ◌&&◌, ◌||◌, none, some, List, [],
  ◌∷◌, ◌++◌, append-nil, append_assoc, arith, ltb, leb, if_rule, is_empty,
}
use gpupipe.Worker.{Yield, Outcome, nothing, single, listed, generator, raises}
use gpupipe.Worker.Exit.{Hook, missing, raising, returning}
use gpupipe.Sequential.{
  Reply, rooted, called, out, flushed, Seq, Stages, entries, root_entries, flush_entries,
  root_emits, is_end, has_end, before_end, on_root, root_step, gather, answer, process_callable, at,
  others, run_worker, yield_out, take_first, take_step, iterate, main_loop, on_hook, flush_stages,
  drain_loop, fresh, sequential_run,
}
use gpupipe.Sequential.Pending.{
  only, taken, addressed, taken-append, addressed-append, at-append, Served, at-others, at-gather,
  at-cons,
}

module _ {ℓ} {A : Type ℓ} where
  answer-Served :
      (i j : ℕ) (p : Stages A) (items : List (Yield A)) (q : List (ℕ × Yield A)) (r : Reply A)
      (s : Seq A)
      → taken i s.trace ++ (only i j items ++ at i q) ≡ addressed i s.trace
      → Served i (answer p j items q r s)
  unfolding answer
  answer-Served i j p items q r s e =
      rw
        (
          taken-append i s.trace (called j items r.emissions ∷ []),
          addressed-append i s.trace (called j items r.emissions ∷ []),
          at-append i q (entries (j + 1) r.emissions),
          ← e,
        )
        (simp (append_assoc, append-nil))

  process_callable-Served :
      (i j : ℕ) (p : Stages A) (y : Yield A) (q : List (ℕ × Yield A)) (s : Seq A)
      → taken i s.trace ++ at i ((j, y) ∷ q) ≡ addressed i s.trace
      → Served i (process_callable p j y q s)
  unfolding process_callable
  process_callable-Served i j p y q s e =
      if_rule (Served i) (ltb 0 (p.batch j)) _ _
        (λ _.
          answer-Served i j p _ _ (p.call j s.trace (gather j (p.batch j) (y ∷ []) q).0) s
            (rw (at-gather i j (p.batch j) (y ∷ []) q, ← at-cons i j y q) e))
        (λ _.
          answer-Served i j p (y ∷ []) q (p.call j s.trace (y ∷ [])) s (rw (← at-cons i j y q) e))

  run_worker-Served :
      (i j : ℕ) (p : Stages A) (y : Yield A) (q : List (ℕ × Yield A)) (s : Seq A)
      → taken i s.trace ++ at i ((j, y) ∷ q) ≡ addressed i s.trace
      → Served i (run_worker p j y q s)
  unfolding run_worker
  run_worker-Served i j p y q s e =
      answer-Served i j p (y ∷ at j q) (others j q) (p.run j s.trace (y ∷ at j q)) s
        (ap (λ xs. taken i s.trace ++ xs) same ∙ e)
    where
      same : only i j (y ∷ at j q) ++ at i (others j q) ≡ at i ((j, y) ∷ q)
      same = ground (arith, at-others i j q, at-cons i j y q)

  yield_out-Served :
      (i j : ℕ) (y : Yield A) (q : List (ℕ × Yield A)) (s : Seq A)
      → taken i s.trace ++ at i ((j, y) ∷ q) ≡ addressed i s.trace
      → Served i (yield_out j y q s)
  unfolding yield_out
  yield_out-Served i j y q s e =
      rw
        (
          taken-append i s.trace (out j y ∷ []),
          addressed-append i s.trace (out j y ∷ []),
          ← e,
          at-cons i j y q,
        )
        (simp (append_assoc, append-nil))

  take_first-Served :
      (i : ℕ) (main : Bool) (p : Stages A) (q : List (ℕ × Yield A)) (s : Seq A)
      → s.pending ≡ q
      → Served i s
      → Served i (take_first main p q s)
  unfolding take_first
  take_first-Served i main p [] s e served = served
  take_first-Served i main p ((j, y) ∷ q) s e served =
      let served' = rw e at served in
      if_rule (Served i) (leb p.count j) _ _ (λ _. yield_out-Served i j y q s served')
        (λ _.
          if_rule (Served i) (main && p.has_run j) _ _ (λ _. run_worker-Served i j p y q s served')
            (λ _. process_callable-Served i j p y q s served'))

  root_emits-Served :
      (i : ℕ) (ys : List (Yield A)) (ends raises_out : Bool) (s : Seq A)
      → Served i s
      → Served i (root_emits ys ends raises_out s)
  unfolding root_emits
  root_emits-Served i ys ends raises_out s e =
      rw
        (
          taken-append i s.trace (rooted ys ∷ []),
          addressed-append i s.trace (rooted ys ∷ []),
          at-append i s.pending (root_entries ys),
          ← e,
        )
        (simp (append_assoc, append-nil))

  on_root-Served : (i : ℕ) (o : Outcome A) (s : Seq A) → Served i s → Served i (on_root o s)
  unfolding on_root
  on_root-Served i nothing s e = e
  on_root-Served i (single y) s e = root_emits-Served i (y ∷ []) (is_end y) false s e
  on_root-Served i (listed ys) s e = root_emits-Served i (before_end ys) (has_end ys) false s e
  on_root-Served i (generator ys none) s e = root_emits-Served i ys true false s e
  on_root-Served i (generator ys (some x)) s e = root_emits-Served i ys false true s e
  on_root-Served i (raises x) s e = root_emits-Served i [] false true s e

  iterate-Served : (i : ℕ) (p : Stages A) (s : Seq A) → Served i s → Served i (iterate p s)
  unfolding iterate take_step root_step
  iterate-Served i p s e =
      if_rule (Served i) (root_step p s).failed _ _ (λ _. rooted_served)
        (λ _. take_first-Served i true p (root_step p s).pending (root_step p s) refl rooted_served)
    where
      rooted_served : Served i (root_step p s)
      rooted_served =
          if_rule (Served i) s.root_ended _ _ (λ _. e) (λ _. on_root-Served i (p.root s.trace) s e)

  main_loop-Served :
      (fuel i : ℕ) (p : Stages A) (s : Seq A) → Served i s → Served i (main_loop fuel p s)
  unfolding main_loop
  main_loop-Served zero i p s e = e
  main_loop-Served (suc fuel) i p s e =
      if_rule (Served i) (s.failed || (s.root_ended && is_empty s.pending)) _ _ (λ _. e)
        (λ _. main_loop-Served fuel i p (iterate p s) (iterate-Served i p s e))

  on_hook-Served : (i j : ℕ) (h : Hook A) (s : Seq A) → Served i s → Served i (on_hook j h s)
  unfolding on_hook
  on_hook-Served i j missing s e = e
  on_hook-Served i j raising s e = e
  on_hook-Served i j (returning ys) s e =
      rw
        (
          taken-append i s.trace (flushed j ys ∷ []),
          addressed-append i s.trace (flushed j ys ∷ []),
          at-append i s.pending (flush_entries (j + 1) ys),
          ← e,
        )
        (simp (append_assoc, append-nil))

  flush_stages-Served :
      (i j n : ℕ) (p : Stages A) (s : Seq A) → Served i s → Served i (flush_stages j n p s)
  unfolding flush_stages
  flush_stages-Served i j zero p s e = e
  flush_stages-Served i j (suc n) p s e =
      if_rule (Served i) s.failed _ _ (λ _. e)
        (λ _. flush_stages-Served i (j + 1) n p _ (
          if_rule (Served i) (p.has_run j) _ _ (λ _. e)
            (λ _. on_hook-Served i j (p.flush j s.trace) s e)))

  drain_loop-Served :
      (fuel i : ℕ) (p : Stages A) (s : Seq A) → Served i s → Served i (drain_loop fuel p s)
  unfolding drain_loop take_step
  drain_loop-Served zero i p s e = e
  drain_loop-Served (suc fuel) i p s e =
      if_rule (Served i) (s.failed || is_empty s.pending) _ _ (λ _. e)
        (λ _. drain_loop-Served fuel i p _ (take_first-Served i false p s.pending s refl e))

  -- At every moment of a sequential run, whatever its stages do: the items that a stage was called or
  -- run with, in order, and then those still pending for it, are exactly those that the root, the
  -- stages, their pushes and their flushes have addressed to it, in order. For an index past the last
  -- stage the items taken are those yielded to the caller.
  pub sequential_run-Served :
      (fuel fuel' i : ℕ) (p : Stages A)
      → taken i (sequential_run fuel fuel' p).trace ++ at i (sequential_run fuel fuel' p).pending
        ≡ addressed i (sequential_run fuel fuel' p).trace
  unfolding sequential_run at
  sequential_run-Served fuel fuel' i p =
      drain_loop-Served fuel' i p _
        (flush_stages-Served i 1 (p.count - 1) p _ (main_loop-Served fuel i p fresh refl))
