-- ===== src/Worker/Loop/Inputs.antt =====
-- What one iteration of `_worker_run` does with the payloads it reads.
use gpupipe.Prelude.{
  ℕ, ◌+◌, ◌%◌, ◌≡◌, refl, ap, sym, subst, ◌∙◌, ◌⊎◌, inl, inr, not, ◌&&◌, Option, none, some, List,
  [], ◌∷◌, ◌++◌, append-nil, append_assoc, ltb, ◌==◌, if_rule, length, take, All,
}
use gpupipe.Types.{payloads, end_of_stream, worker_stop}
use gpupipe.Channel.Input.{
  requeue_buffered, contents, InputChannel, Read, payload, control, empty, index_error,
  attribute_error, get,
}
use gpupipe.Channel.Input.Reads.{NonEmpty, requeue-keeps}
use gpupipe.Channel.Input.Keeps.{unread, read_out, get-unread, IsSound, Proper, get-IsSound}
use gpupipe.Worker.Batch.Fill.{
  arrivals, Fills, fill_batch-Fills, fill_batch-FilledSound, FilledSound, ArriveSound,
  unread-arrive, arrive-IsSound,
}
use gpupipe.Worker.{
  Faults, crashed, Error, connection, other, Outcome, nothing, single, listed, generator, raises,
  Park, not_asked, refused, released, Config, Tick, Event, called, parked, Worker, Verdict, running,
  ended, broken_connection,
}
use gpupipe.Worker.Batch.{Filled, filled, failed}
use gpupipe.Worker.Emit.{flush_or_fail}
use gpupipe.Worker.Batch.{fill_batch}
use gpupipe.Worker.Loop.{
  log, emit, emitted, generated, flush_out, after_park_emit, after_park, on_stop, age_due,
  age_check_fails, tally, maybe_park, on_error, end_generator, on_outcome, process, on_filled,
  on_item, on_read, receive_next, begin, iterate,
}
use gpupipe.Worker.Loop.Given.{inputs, inputs-append, Conserved, stays}

IsSound-same {ℓ} : {A : Type ℓ} {c d : InputChannel A} → c ≡ d → IsSound d → IsSound c
IsSound-same e s = rw e s

module _ {ℓ} {A B : Type ℓ} where
  -- Nothing but a logged call changes what the stage was given; emitting leaves the input alone.
  abbrev Same : Worker A B → Worker A B → Type ℓ
  Same w w' = (w'.trace ≡ w.trace) × (w'.in_ch ≡ w.in_ch)

  tally-Same : (cfg : Config) (n : ℕ) (w v : Worker A B) → Same w v → Same w (tally cfg n v)
  unfolding tally
  tally-Same cfg n w v s =
      if_rule (Same w) cfg.timing _ v
        (λ _. if_rule (Same w) ((v.items_processed + n) % 10 == 0) _ _ (λ _. s) (λ _. s)) (λ _. s)

  on_error-Same :
      (cfg : Config) (e : Error) (w v : Worker A B) → Same w v → Same w (on_error cfg e v).0
  unfolding on_error
  on_error-Same cfg connection w v s = s
  on_error-Same cfg other w v s = s

  end_generator-Same :
      (cfg : Config) (n : ℕ) (e : Option Error) (w v : Worker A B)
      → Same w v
      → Same w (end_generator cfg n e v).0
  unfolding end_generator
  end_generator-Same cfg n none w v s = tally-Same cfg n w v s
  end_generator-Same cfg n (some e) w v s = on_error-Same cfg e w v s

  emitted-Same :
      (cfg : Config) (w : Worker A B) (r : Worker A B × Option Error)
      → Same w r.0
      → Same w (emitted cfg r).0
  unfolding emitted
  emitted-Same cfg w (v, none) s = s
  emitted-Same cfg w (v, some e) s = on_error-Same cfg e w v s

  generated-Same :
      (cfg : Config) (n : ℕ) (later : Option Error) (w : Worker A B) (r : Worker A B × Option Error)
      → Same w r.0
      → Same w (generated cfg n later r).0
  unfolding generated
  generated-Same cfg n later w (v, none) s = end_generator-Same cfg n later w v s
  generated-Same cfg n later w (v, some e) s = on_error-Same cfg e w v s

  on_outcome-Same :
      (cfg : Config) (clock : ℕ → ℕ) (fails : Option (ℕ × Error)) (limit : Option ℕ) (n : ℕ)
      (o : Outcome B) (w : Worker A B)
      → Same w (on_outcome cfg clock fails limit n o w).0
  unfolding on_outcome emit
  on_outcome-Same cfg clock fails limit n nothing w = (refl, refl)
  on_outcome-Same cfg clock fails limit n (raises e) w = on_error-Same cfg e w w (refl, refl)
  on_outcome-Same cfg clock fails limit n (single y) w =
      emitted-Same cfg w _ (tally-Same cfg n w w (refl, refl))
  on_outcome-Same cfg clock fails limit n (listed ys) w =
      emitted-Same cfg w _ (tally-Same cfg n w w (refl, refl))
  on_outcome-Same cfg clock fails limit n (generator ys e) w =
      generated-Same cfg n _ w _ (refl, refl)

  module _ (cfg : Config) (clock : ℕ → ℕ) (call : List (Event A B) → List A → Outcome B) where
    on_error-Conserved :
        (e : Error) (w : Worker A B)
        → IsSound w.in_ch
        → Conserved (inputs w.trace ++ unread w.in_ch) (on_error cfg e w)
    unfolding on_error
    on_error-Conserved connection w s = stays _ w broken_connection refl s
    on_error-Conserved other w s = stays _ w _ refl s

    -- A call is logged with its items and its answer, and leaves the input channel alone.
    pub process-Same :
        (fails : Option (ℕ × Error)) (limit : Option ℕ) (items : List A) (w : Worker A B)
        → ((process cfg clock call fails limit items w).0.trace
            ≡ w.trace ++ called items limit (call w.trace items) ∷ [])
          × ((process cfg clock call fails limit items w).0.in_ch ≡ w.in_ch)
    unfolding process log
    process-Same fails limit items w =
        on_outcome-Same cfg clock fails limit (length items) (call w.trace items)
          (log (called items limit (call w.trace items)) w)

    process-Conserved :
        (fails : Option (ℕ × Error)) (limit : Option ℕ) (items : List A) (w : Worker A B)
        → IsSound w.in_ch
        → Conserved
            (inputs w.trace ++ (items ++ unread w.in_ch))
            (process cfg clock call fails limit items w)
    process-Conserved fails limit items w s =
        let (same_trace, same_in) = process-Same fails limit items w in
        stays _ _ _
          (rw
            (
              same_trace,
              same_in,
              inputs-append w.trace (called items limit (call w.trace items) ∷ []),
            )
            (simp (append_assoc, append-nil)))
          (rw same_in s)

    -- What a step makes of the payloads `u` that it read or left unread, and of the messages that
    -- arrived in `n` polls of its batch.
    abbrev pub Step : Tick A B → Worker A B → List A → Worker A B × Verdict → Type ℓ
    Step t w u r = (n : ℕ) × Conserved (inputs w.trace ++ (u ++ arrivals (take n t.polls))) r

    on_filled-Step :
        (t : Tick A B) (a : A) (w : Worker A B) (fails : Option (ℕ × Error)) (f : Filled A)
        → Fills t.polls cfg.batch_size w.in_ch (a ∷ []) f
        → FilledSound f
        → Step t w (a ∷ unread w.in_ch) (on_filled cfg clock call fails t.gen_stop f w)
    unfolding on_filled
    on_filled-Step t a w fails (failed e ch) fill s = absurd s
    on_filled-Step t a w fails (filled b ch) ((n, e), small) s =
        (n, rw (← e) (process-Conserved fails t.gen_stop b (record w { in_ch = ch }) s))

    on_item-Step :
        (f : Faults) (t : Tick A B) (a : A) (w : Worker A B)
        → f.fill_fails ≡ none
        → ArriveSound t.polls
        → IsSound w.in_ch
        → Step t w (a ∷ unread w.in_ch) (on_item cfg clock call f t a w)
    unfolding on_item
    on_item-Step f t a w full sound_polls s =
        if_rule (Step t w (a ∷ unread w.in_ch)) (ltb 0 cfg.batch_size) _ _
          (λ _.
            subst
              (λ o. Step t w (a ∷ unread w.in_ch) (
                on_filled cfg clock call f.send_fails t.gen_stop
                  (fill_batch o t.polls cfg.batch_size w.in_ch (a ∷ [])) w))
              (sym full)
              (on_filled-Step t a w f.send_fails _
                (fill_batch-Fills t.polls cfg.batch_size w.in_ch (a ∷ []))
                (fill_batch-FilledSound t.polls cfg.batch_size w.in_ch (a ∷ []) sound_polls s)))
          (λ _. (0, rw append-nil (process-Conserved f.send_fails t.gen_stop (a ∷ []) w s)))

    on_stop-Step :
        (o : Option Error) (t : Tick A B) (w : Worker A B)
        → o ≡ none
        → Step t w (unread w.in_ch) (
            on_stop cfg
              (flush_out o (record w { in_ch = requeue_buffered w.in_ch; consecutive_empty = 0 })))
    unfolding on_stop flush_out flush_or_fail
    on_stop-Step (some e) t w lands = absurd cc
    on_stop-Step none t w lands =
        let (emptied, queued) = requeue-keeps w.in_ch in
        (
          0,
          record {
            moved = contents w.in_ch.buf;
            kept = payloads w.in_ch.queue;
            all =
                rw append-nil
                  (append_assoc (inputs w.trace) (contents w.in_ch.buf) (payloads w.in_ch.queue));
            left_over = rw (emptied, queued);
            in_place = λ stayed. absurd (stayed refl);
            sound = λ stayed. absurd (stayed refl);
          },
        )

    on_read-Step :
        (f : Faults) (t : Tick A B) (r : Read A) (w : Worker A B)
        → f.fill_fails ≡ none
        → f.stop_fails ≡ none
        → ArriveSound t.polls
        → Proper r
        → IsSound w.in_ch
        → Step t w (read_out r ++ unread w.in_ch) (on_read cfg clock call f t r w)
    unfolding on_read
    on_read-Step f t (payload a) w full lands sound_polls ok s =
        on_item-Step f t a (record w { consecutive_empty = 0 }) full sound_polls s
    on_read-Step f t (control end_of_stream) w full lands sound_polls ok s =
        (0, stays _ (record w { consecutive_empty = 0 }) running (rw append-nil) s)
    on_read-Step f t (control worker_stop) w full lands sound_polls ok s =
        on_stop-Step f.stop_fails t w lands
    on_read-Step f t empty w full lands sound_polls ok s =
        (0, stays _ (record w { consecutive_empty = w.consecutive_empty + 1 }) _ (rw append-nil) s)
    on_read-Step f t index_error w full lands sound_polls ok s = absurd ok
    on_read-Step f t attribute_error w full lands sound_polls ok s = absurd ok

    after_park_emit-same :
        (o : Option Error) (r : Worker A B × Option Error)
        → ((after_park_emit o r).0.trace ≡ r.0.trace) × ((after_park_emit o r).0.in_ch ≡ r.0.in_ch)
    unfolding after_park_emit flush_out
    after_park_emit-same o (w, none) = (refl, refl)
    after_park_emit-same o (w, some e) = (refl, refl)

    maybe_park-inputs :
        (f : Faults) (p : Park B) (w : Worker A B)
        → (inputs (maybe_park clock f p w).0.trace ≡ inputs w.trace)
          × ((maybe_park clock f p w).0.in_ch ≡ w.in_ch)
    unfolding maybe_park log emit
    maybe_park-inputs f not_asked w = (refl, refl)
    maybe_park-inputs f refused w = (refl, refl)
    maybe_park-inputs f (released ys) w =
        let (same, in_same) =
          after_park_emit-same f.park_flush_fails
            (emit clock f.park_fails ys (log (parked ys) w)) in
        (
          ap inputs same ∙ inputs-append w.trace (parked ys ∷ []) ∙ append-nil (inputs w.trace),
          in_same,
        )

    receive_next-Step :
        (f : Faults) (t : Tick A B) (w : Worker A B)
        → f.fill_fails ≡ none
        → f.stop_fails ≡ none
        → ArriveSound t.polls
        → IsSound w.in_ch
        → Step t w (unread w.in_ch) (receive_next cfg clock call f t w)
    unfolding receive_next
    receive_next-Step f t w full lands sound_polls s =
        let (ok, s') = get-IsSound w.in_ch s in
        let read =
          on_read-Step f t (get w.in_ch).0 (record w { in_ch = (get w.in_ch).1 }) full lands
            sound_polls ok s' in
        let over : Step t w (unread w.in_ch) (w, ended) = (0, stays _ w ended (rw append-nil) s) in
        if_rule (Step t w (unread w.in_ch)) (not cfg.drain && t.drain_event) _ _ (λ _. over)
          (λ _.
            if_rule (Step t w (unread w.in_ch)) t.broken _ _ (λ _. over)
              (λ _. rw (get-unread w.in_ch) at read))

    after_park-Step :
        (f : Faults) (t : Tick A B) (r : Worker A B × Option Error)
        → f.fill_fails ≡ none
        → f.stop_fails ≡ none
        → ArriveSound t.polls
        → IsSound r.0.in_ch
        → Step t r.0 (unread r.0.in_ch) (after_park cfg clock call f t r)
    unfolding after_park
    after_park-Step f t (w, none) full lands sound_polls s =
        receive_next-Step f t w full lands sound_polls s
    after_park-Step f t (w, some e) full lands sound_polls s =
        (0, rw append-nil (on_error-Conserved e w s))

    Step-move :
        (t : Tick A B) (w w' : Worker A B) (r : Worker A B × Verdict) {u u' : List A}
        → u' ≡ u
        → inputs w'.trace ≡ inputs w.trace
        → Step t w' u' r
        → Step t w u r
    Step-move t w w' r e e' st = rw (e, e') at st

    pub iterate-Step :
        (t : Tick A B) (w : Worker A B)
        → t.faults.fill_fails ≡ none
        → t.faults.stop_fails ≡ none
        → All NonEmpty t.arrivals
        → ArriveSound t.polls
        → IsSound w.in_ch
        → (iterate cfg clock call t w ≡ (w, ended))
          ⊎ Step t w (unread w.in_ch ++ payloads t.arrivals) (iterate cfg clock call t w)
    unfolding iterate begin age_check_fails
    iterate-Step t w full lands sound_arrivals sound_polls s =
        let begun = begin clock t w in
        let r = maybe_park clock t.faults t.park begun in
        let (same, in_same) = maybe_park-inputs t.faults t.park begun in
        let came = unread-arrive t.arrivals w.in_ch in
        let s' = arrive-IsSound t.arrivals w.in_ch sound_arrivals s in
        if_rule (λ r. (r ≡ (w, ended)) ⊎ Step t w (unread w.in_ch ++ payloads t.arrivals) r)
          t.should_stop _ _ (λ _. inl refl)
          (λ _.
            if_rule (λ r. (r ≡ (w, ended)) ⊎ Step t w (unread w.in_ch ++ payloads t.arrivals) r)
              (t.faults.age_fails && age_due clock t w) _ _
              (λ _. inr (0, stays _ (age_check_fails clock t w) crashed (rw (came, append-nil)) s'))
              (λ _. inr (
                Step-move t w r.0 _ (ap unread in_same ∙ came) same
                  (after_park-Step t.faults t r full lands sound_polls (IsSound-same in_same s')))))
