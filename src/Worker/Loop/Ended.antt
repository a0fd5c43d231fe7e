-- ===== src/Worker/Loop/Ended.antt =====
-- Why the loop of `_worker_run` ends, and the empty polls that it counts.
use gpupipe.Prelude.{
  get_elem?, take, subst, ◌%◌, ◌==◌, ◌||◌, ℕ, suc, ◌+◌, ◌≤◌, ◌≡◌, refl, ◌∙◌, ◌≢◌, ◌⊎◌, inl, inr,
  true, false, not, ◌&&◌, Option, none, some, List, [], ◌∷◌, arith, ltb, if◌then◌else◌, Bool-cases,
  if_rule, length,
}
use gpupipe.Types.{Msg, end_of_stream, worker_stop}
use gpupipe.Channel.Input.{
  Read, payload, control, empty, index_error, attribute_error, get, requeue_buffered,
}
use gpupipe.Worker.{
  Faults, cut_short, reached, called, parked, Error, connection, other, Outcome, nothing, single,
  listed, generator, raises, Park, not_asked, refused, released, Config, Tick, Event, Worker,
  Verdict, running, ended, broken_connection, left, crashed,
}
use gpupipe.Worker.Batch.{Filled, filled, failed, fill_batch}
use gpupipe.Worker.Loop.{
  emit, emitted, generated, flush_out, after_park_emit, after_park, on_stop, age_due,
  age_check_fails, tally, log, maybe_park, on_error, end_generator, on_outcome, process, on_filled,
  on_item, on_read, receive_next, begin, iterate, go_on, run_loop, start,
}

module _ {ℓ} {A B : Type ℓ} (cfg : Config) (clock : ℕ → ℕ)
    (call : List (Event A B) → List A → Outcome B) where
  -- An iteration has counted `k` empty polls and does not end the loop as a drained one does.
  record Keeps (k : ℕ) (r : Worker A B × Verdict) : Type 0 where
    polls : r.0.consecutive_empty ≡ k
    goes_on : r.1 ≢ ended

  on_error-Keeps :
      (e : Error) (w : Worker A B) (k : ℕ) → w.consecutive_empty ≡ k → Keeps k (on_error cfg e w)
  unfolding on_error
  on_error-Keeps connection w k e = record { polls = e; goes_on = λ h. cc }
  on_error-Keeps other w k e = record { polls = e; goes_on = λ h. ground arith }

  tally-polls : (n : ℕ) (w : Worker A B) → (tally cfg n w).consecutive_empty ≡ w.consecutive_empty
  unfolding tally
  tally-polls n w =
      if_rule (λ (v : Worker A B). v.consecutive_empty ≡ w.consecutive_empty) cfg.timing _ w
        (λ _.
          if_rule (λ (v : Worker A B). v.consecutive_empty ≡ w.consecutive_empty)
            ((w.items_processed + n) % 10 == 0) _ _ (λ _. refl) (λ _. refl))
        (λ _. refl)

  end_generator-Keeps :
      (n : ℕ) (o : Option Error) (w : Worker A B) (k : ℕ)
      → w.consecutive_empty ≡ k
      → Keeps k (end_generator cfg n o w)
  unfolding end_generator
  end_generator-Keeps n none w k e = record { polls = tally-polls n w ∙ e; goes_on = λ h. cc }
  end_generator-Keeps n (some x) w k e = on_error-Keeps x w k e

  emitted-Keeps :
      (r : Worker A B × Option Error) (k : ℕ) → r.0.consecutive_empty ≡ k → Keeps k (emitted cfg r)
  unfolding emitted
  emitted-Keeps (w, none) k e = record { polls = e; goes_on = λ h. cc }
  emitted-Keeps (w, some x) k e = on_error-Keeps x w k e

  generated-Keeps :
      (n : ℕ) (later : Option Error) (r : Worker A B × Option Error) (k : ℕ)
      → r.0.consecutive_empty ≡ k
      → Keeps k (generated cfg n later r)
  unfolding generated
  generated-Keeps n later (w, none) k e = end_generator-Keeps n later w k e
  generated-Keeps n later (w, some x) k e = on_error-Keeps x w k e

  on_outcome-Keeps :
      (fails : Option (ℕ × Error)) (limit : Option ℕ) (n : ℕ) (o : Outcome B) (w : Worker A B)
      → Keeps w.consecutive_empty (on_outcome cfg clock fails limit n o w)
  unfolding on_outcome emit
  on_outcome-Keeps fails limit n nothing w = record { polls = refl; goes_on = λ h. cc }
  on_outcome-Keeps fails limit n (raises e) w = on_error-Keeps e w _ refl
  on_outcome-Keeps fails limit n (single y) w =
      emitted-Keeps (emit clock fails (y ∷ []) (tally cfg n w)) _ (tally-polls n w)
  on_outcome-Keeps fails limit n (listed ys) w =
      emitted-Keeps (emit clock fails ys (tally cfg n w)) _ (tally-polls n w)
  on_outcome-Keeps fails limit n (generator ys e) w =
      generated-Keeps n (if cut_short limit ys then none else e)
        (emit clock fails (reached limit ys) w) _ refl

  process-Keeps :
      (fails : Option (ℕ × Error)) (limit : Option ℕ) (items : List A) (w : Worker A B)
      → Keeps w.consecutive_empty (process cfg clock call fails limit items w)
  unfolding process log
  process-Keeps fails limit items w =
      on_outcome-Keeps fails limit (length items) (call w.trace items)
        (log (called items limit (call w.trace items)) w)

  on_filled-Keeps :
      (fails : Option (ℕ × Error)) (limit : Option ℕ) (f : Filled A) (w : Worker A B)
      → Keeps w.consecutive_empty (on_filled cfg clock call fails limit f w)
  unfolding on_filled
  on_filled-Keeps fails limit (filled b ch) w =
      process-Keeps fails limit b (record w { in_ch = ch })
  on_filled-Keeps fails limit (failed e ch) w = on_error-Keeps e (record w { in_ch = ch }) _ refl

  on_item-Keeps :
      (f : Faults) (t : Tick A B) (a : A) (w : Worker A B)
      → Keeps w.consecutive_empty (on_item cfg clock call f t a w)
  unfolding on_item
  on_item-Keeps f t a w =
      if_rule (Keeps w.consecutive_empty) (ltb 0 cfg.batch_size) _ _
        (λ _.
          on_filled-Keeps f.send_fails t.gen_stop
            (fill_batch f.fill_fails t.polls cfg.batch_size w.in_ch (a ∷ [])) w)
        (λ _. process-Keeps f.send_fails t.gen_stop (a ∷ []) w)

  on_stop-Keeps :
      (r : Worker A B × Option Error) (k : ℕ) → r.0.consecutive_empty ≡ k → Keeps k (on_stop cfg r)
  unfolding on_stop
  on_stop-Keeps (w, none) k e = record { polls = e; goes_on = λ h. cc }
  on_stop-Keeps (w, some x) k e = on_error-Keeps x w k e

  -- The empty polls in a row after an iteration, from those before it and from what it read. An
  -- iteration that reads nothing leaves them.
  abbrev pub count_poll : ℕ → Option (Read A) → ℕ
  count_poll k none = k
  count_poll k (some (payload a)) = 0
  count_poll k (some (control s)) = 0
  count_poll k (some empty) = k + 1
  count_poll k (some index_error) = k
  count_poll k (some attribute_error) = k

  -- Why the loop may end, after `k` empty polls in a row.
  abbrev pub EndsBecause : Tick A B → ℕ → Type 0
  EndsBecause t k =
      (t.should_stop ≡ true)
      ⊎ ((cfg.drain ≡ false) × (t.drain_event ≡ true))
      ⊎ (t.broken ≡ true)
      ⊎ ((t.upstream_done ≡ true) × (cfg.empty_threshold ≤ k))

  -- What an iteration with the read `o` does to the count, and why it may end the loop.
  record Polls (t : Tick A B) (k : ℕ) (o : Option (Read A)) (r : Worker A B × Verdict)
      : Type 0 where
    counted : r.0.consecutive_empty ≡ count_poll k o
    because : r.1 ≡ ended → EndsBecause t (count_poll k o)

  Polls-Keeps :
      (t : Tick A B) (k : ℕ) (o : Option (Read A)) (r : Worker A B × Verdict)
      → Keeps (count_poll k o) r
      → Polls t k o r
  Polls-Keeps t k o r h = record { counted = h.polls; because = λ e. absurd (h.goes_on e) }

  on_read-Polls :
      (f : Faults) (t : Tick A B) (r : Read A) (w : Worker A B)
      → Polls t w.consecutive_empty (some r) (on_read cfg clock call f t r w)
  unfolding on_read flush_out
  on_read-Polls f t (payload a) w =
      Polls-Keeps t _ (some (payload a)) _
        (on_item-Keeps f t a (record w { consecutive_empty = 0 }))
  on_read-Polls f t (control end_of_stream) w = record { counted = refl; because = λ h. absurd cc }
  on_read-Polls f t (control worker_stop) w = Polls-Keeps t _ (some (control worker_stop)) _ (
      on_stop-Keeps
        (flush_out f.stop_fails
          (record w { in_ch = requeue_buffered w.in_ch; consecutive_empty = 0 }))
        _ refl)
  on_read-Polls f t empty w = record { counted = refl; because = λ h. ground arith }
  on_read-Polls f t index_error w =
      Polls-Keeps t _ (some index_error) _ (on_error-Keeps other w _ refl)
  on_read-Polls f t attribute_error w =
      Polls-Keeps t _ (some attribute_error) _ (on_error-Keeps other w _ refl)

  -- What an iteration reads from its channel, unless it ends or fails before.
  read_behind : Tick A B → Worker A B × Option Error → Option (Read A)
  read_behind t (w, some e) = none
  read_behind t (w, none) =
      if (not cfg.drain && t.drain_event) || t.broken then none else some (get w.in_ch).0

  unfoldable pub reads_of : Tick A B → Worker A B → Option (Read A)
  unfolding read_behind age_due maybe_park begin
  reads_of t w =
      if t.should_stop || (t.faults.age_fails && age_due clock t w)
      then none
      else read_behind t (maybe_park clock t.faults t.park (begin clock t w))

  after_park-Polls :
      (f : Faults) (t : Tick A B) (r : Worker A B × Option Error)
      → Polls t r.0.consecutive_empty (read_behind t r) (after_park cfg clock call f t r)
  unfolding after_park receive_next read_behind
  after_park-Polls f t (w, some e) = Polls-Keeps t _ none _ (on_error-Keeps e w _ refl)
  after_park-Polls f t (w, none) = elim (Bool-cases (not cfg.drain && t.drain_event)) [
    | inl drains ↦ simp drains (record { counted = refl; because = λ h. ground arith })
    | inr flows ↦ elim (Bool-cases t.broken) [
      | inl breaks ↦
          simp (flows, breaks) (record { counted = refl; because = λ h. inr (inr (inl breaks)) })
      | inr works ↦
          simp (flows, works)
            (on_read-Polls f t (get w.in_ch).0 (record w { in_ch = (get w.in_ch).1 }))
    ]
  ]

  after_park_emit-polls :
      (o : Option Error) (r : Worker A B × Option Error)
      → (after_park_emit o r).0.consecutive_empty ≡ r.0.consecutive_empty
  unfolding after_park_emit flush_out
  after_park_emit-polls o (v, none) = refl
  after_park_emit-polls o (v, some e) = refl

  maybe_park-polls :
      (f : Faults) (p : Park B) (w : Worker A B)
      → (maybe_park clock f p w).0.consecutive_empty ≡ w.consecutive_empty
  unfolding maybe_park emit log
  maybe_park-polls f not_asked w = refl
  maybe_park-polls f refused w = refl
  maybe_park-polls f (released ys) w =
      after_park_emit-polls f.park_flush_fails (emit clock f.park_fails ys (log (parked ys) w))

  iterate-Polls :
      (t : Tick A B) (w : Worker A B)
      → Polls t w.consecutive_empty (reads_of t w) (iterate cfg clock call t w)
  unfolding iterate reads_of begin age_check_fails
  iterate-Polls t w = elim (Bool-cases t.should_stop) [
    | inl stop ↦ simp stop (record { counted = refl; because = λ h. inl stop })
    | inr runs ↦ elim (Bool-cases (t.faults.age_fails && age_due clock t w)) [
      | inl late ↦ simp (runs, late) (record { counted = refl; because = λ h. absurd cc })
      | inr calm ↦
          simp (runs, calm)
            (rw (maybe_park-polls t.faults t.park (begin clock t w)) at
              (after_park-Polls t.faults t (maybe_park clock t.faults t.park (begin clock t w))))
    ]
  ]

  keep_on : Verdict → ℕ → ℕ → ℕ
  keep_on running later k = later
  keep_on ended later k = k
  keep_on broken_connection later k = k
  keep_on left later k = k
  keep_on crashed later k = k

  -- The polls in a row that found the queue empty at the end of a run, from the `k` before it: a
  -- read of anything else starts them anew.
  unfoldable pub empty_polls : ℕ → List (Tick A B) → Worker A B → ℕ
  unfolding keep_on
  empty_polls k [] w = k
  empty_polls k (t ∷ ticks) w =
      let k' = count_poll k (reads_of t w) in
      let later = empty_polls k' ticks (iterate cfg clock call t w).0 in
      keep_on (iterate cfg clock call t w).1 later k'

  -- The loop goes on through the iterations before one, which ends it for one of the four reasons.
  Ended : List (Tick A B) → Worker A B → ℕ → Type ℓ
  Ended ticks w k =
      (t : Tick A B) × (i : ℕ) × (get_elem? ticks i ≡ some t)
      × ((run_loop cfg clock call (take i ticks) w).1 ≡ running)
      × EndsBecause t k

  step-Ended :
      (t : Tick A B) (ticks : List (Tick A B)) (w₀ : Worker A B) (k : ℕ) (o : Option (Read A))
      (r : Worker A B × Verdict)
      → iterate cfg clock call t w₀ ≡ r
      → Polls t k o r
      → ((w : Worker A B)
          → (run_loop cfg clock call ticks w).1 ≡ ended
          → Ended ticks w (empty_polls w.consecutive_empty ticks w))
      → (go_on (run_loop cfg clock call ticks) r).1 ≡ ended
      → Ended (t ∷ ticks) w₀ (keep_on r.1 (empty_polls (count_poll k o) ticks r.0) (count_poll k o))
  unfolding go_on keep_on Ended run_loop
  step-Ended t ticks w₀ k o (w, running) e p rec h =
      let (last, i, at, goes, because) = rec w h in
      (
        last,
        suc i,
        at,
        rw e goes,
        subst (λ n. EndsBecause last (empty_polls n ticks w)) p.counted because,
      )
  step-Ended t ticks w₀ k o (w, ended) e p rec h = (t, 0, refl, refl, p.because refl)
  step-Ended t ticks w₀ k o (w, broken_connection) e p rec h = absurd cc
  step-Ended t ticks w₀ k o (w, left) e p rec h = absurd cc
  step-Ended t ticks w₀ k o (w, crashed) e p rec h = absurd cc

  run_loop-Ended :
      (ticks : List (Tick A B)) (w : Worker A B)
      → (run_loop cfg clock call ticks w).1 ≡ ended
      → Ended ticks w (empty_polls w.consecutive_empty ticks w)
  unfolding run_loop empty_polls
  run_loop-Ended [] w h = absurd cc
  run_loop-Ended (t ∷ ticks) w h =
      step-Ended t ticks w w.consecutive_empty (reads_of t w) (iterate cfg clock call t w) refl
        (iterate-Polls t w) (run_loop-Ended ticks) h

  -- A worker's loop that ends by itself goes on through all iterations before one that finds a stop, a
  -- drain that the stage obeys, or a broken queue, or that finds upstream done when the last polls of
  -- the run, at least `empty_threshold` in a row, have found the queue empty.
  pub run_loop-ended :
      (ticks : List (Tick A B)) (q : List (Msg A)) (chunk_size chunk_ms : ℕ)
      → (run_loop cfg clock call ticks (start q chunk_size chunk_ms)).1 ≡ ended
      → (t : Tick A B) × (i : ℕ) × (get_elem? ticks i ≡ some t)
        × ((run_loop cfg clock call (take i ticks) (start q chunk_size chunk_ms)).1 ≡ running)
        × EndsBecause t (empty_polls 0 ticks (start q chunk_size chunk_ms))
  unfolding start Ended
  run_loop-ended ticks q chunk_size chunk_ms h =
      run_loop-Ended ticks (start q chunk_size chunk_ms) h
