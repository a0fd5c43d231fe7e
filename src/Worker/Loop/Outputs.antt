-- ===== src/Worker/Loop/Outputs.antt =====
-- What `_worker_run` sends downstream.
use gpupipe.Prelude.{
  ℕ, ◌+◌, ◌%◌, ◌≡◌, refl, sym, ap, subst, false, All, ◌∙◌, not, ◌&&◌, Option, none, some, List, [],
  ◌∷◌, ◌++◌, append-nil, append_assoc, arith, ltb, ◌==◌, if_rule, length,
}
use gpupipe.Channel.Output.{init, flush}
use gpupipe.Types.{Msg, end_of_stream, worker_stop}
use gpupipe.Channel.Input.{get, Read, payload, control, empty, index_error, attribute_error}
use gpupipe.Channel.Output.Bounds.{flush-IsValid, maybe_flush-IsValid}
use gpupipe.Channel.Output.Order.{accepted, accepted-flush, accepted-maybe_flush}
use gpupipe.Worker.{
  Yield, no_faults, Error, connection, other, Outcome, nothing, single, listed, generator, raises,
  Park, not_asked, refused, released, Config, Tick, Event, called, parked, Worker, Verdict, running,
  ended, broken_connection, left, crashed, reached, values, yielded,
}
use gpupipe.Worker.Emit.{emit_or_fail, flush_or_fail, accepted-emit_all}
use gpupipe.Worker.Batch.{Filled, filled, failed}
use gpupipe.Worker.Loop.{
  log, emit, emitted, generated, flush_out, after_park_emit, after_park, on_stop, age_due, tally,
  maybe_park, on_error, end_generator, on_outcome, process, on_filled, on_item, on_read,
  receive_next, begin, iterate, go_on, run_loop, start,
}
use gpupipe.Worker.Loop.Owed.{owed, outputs, outputs-append, Tracks}

-- Every put lands, and so does every get while a batch fills.
abbrev pub PutsLand {ℓ} : {A B : Type ℓ} → Tick A B → Type 0
PutsLand t = t.faults ≡ no_faults

module _ {ℓ} {A B : Type ℓ} where
  module _ (base : List (Yield B)) (cfg : Config) (clock : ℕ → ℕ) where
    -- `e` has been logged, and the channel has not yet accepted what it owes.
    Owes : Event A B → Worker A B → Type ℓ
    Owes e w = (es : List (Event A B)) × Tracks base w.out_ch es × (w.trace ≡ es ++ e ∷ [])

    abbrev pub Good : Worker A B → Type ℓ
    Good w = Tracks base w.out_ch w.trace

    abbrev pub Keeps : Worker A B × Verdict → Type ℓ
    Keeps r = Good r.0

    settle :
        (e : Event A B) (ys : List (Yield B)) (w : Worker A B)
        → values ys ≡ owed e
        → Owes e w
        → Good (emit clock none ys w).0
    unfolding emit emit_or_fail Owes
    settle e ys w same (es, t, logged) =
        let (v, a) = accepted-emit_all clock ys w.out_ch w.clock_reads t.valid in
        record {
          valid = v;
          exact =
              a
              ∙ rw (t.exact, logged, same, outputs-append es (e ∷ []))
                  (rw append-nil (append_assoc base (outputs es) (owed e)));
        }

    settle_none :
        (e : Event A B) (w : Worker A B) → owed e ≡ [] → Owes e w → Tracks base w.out_ch w.trace
    unfolding Owes
    settle_none e w none_owed (es, t, logged) = record {
      valid = t.valid;
      exact = t.exact ∙ rw (logged, outputs-append es (e ∷ []), none_owed, append-nil);
    }

    Owes-log : (e : Event A B) (w : Worker A B) → Good w → Owes e (log e w)
    unfolding Owes log
    Owes-log e w t = (w.trace, t, refl)

    Owes-tally : (e : Event A B) (n : ℕ) (w : Worker A B) → Owes e w → Owes e (tally cfg n w)
    unfolding tally Owes
    Owes-tally e n w o =
        if_rule (Owes e) cfg.timing _ w
          (λ _. if_rule (Owes e) ((w.items_processed + n) % 10 == 0) _ _ (λ _. o) (λ _. o)) (λ _. o)

    Tracks-tally : (n : ℕ) (w : Worker A B) → Good w → Good (tally cfg n w)
    unfolding tally
    Tracks-tally n w o =
        if_rule Good cfg.timing _ w
          (λ _. if_rule Good ((w.items_processed + n) % 10 == 0) _ _ (λ _. o) (λ _. o)) (λ _. o)

    pub on_error-Keeps : (e : Error) (w : Worker A B) → Good w → Keeps (on_error cfg e w)
    unfolding on_error
    on_error-Keeps connection w t = t
    on_error-Keeps other w t = t

    end_generator-Keeps :
        (n : ℕ) (e : Option Error) (w : Worker A B) → Good w → Keeps (end_generator cfg n e w)
    unfolding end_generator
    end_generator-Keeps n none w t = Tracks-tally n w t
    end_generator-Keeps n (some e) w t = on_error-Keeps e w t

    on_outcome-Keeps :
        (items : List A) (limit : Option ℕ) (n : ℕ) (o : Outcome B) (w : Worker A B)
        → Owes (called items limit o) w
        → Keeps (on_outcome cfg clock none limit n o w)
    unfolding on_outcome yielded values emitted generated emit emit_or_fail
    on_outcome-Keeps items limit n nothing w owes = settle_none _ w refl owes
    on_outcome-Keeps items limit n (raises e) w owes =
        on_error-Keeps e w (settle_none _ w refl owes)
    on_outcome-Keeps items limit n (single y) w owes =
        settle _ (y ∷ []) (tally cfg n w) refl (Owes-tally _ n w owes)
    on_outcome-Keeps items limit n (listed ys) w owes =
        settle _ ys (tally cfg n w) refl (Owes-tally _ n w owes)
    on_outcome-Keeps items limit n (generator ys e) w owes =
        end_generator-Keeps n _ _ (settle _ (reached limit ys) w refl owes)

    pub flush-Good : (w : Worker A B) → Good w → Good (record w { out_ch = flush w.out_ch })
    flush-Good w t = record {
      valid = flush-IsValid w.out_ch (omega (arith, t.valid.below)) t.valid.chunks;
      exact = accepted-flush w.out_ch ∙ t.exact;
    }

    maybe_park-Tracks :
        (p : Park B) (w : Worker A B) → Good w → Good (maybe_park clock no_faults p w).0
    unfolding maybe_park after_park_emit flush_out flush_or_fail emit emit_or_fail
    maybe_park-Tracks not_asked w t = t
    maybe_park-Tracks refused w t = t
    maybe_park-Tracks (released ys) w t =
        flush-Good (emit clock none ys (log (parked ys) w)).0
          (settle (parked ys) ys (log (parked ys) w) refl (Owes-log (parked ys) w t))

    pub process-Keeps :
        (call : List (Event A B) → List A → Outcome B) (limit : Option ℕ) (items : List A)
        (w : Worker A B)
        → Good w
        → Keeps (process cfg clock call none limit items w)
    unfolding process
    process-Keeps call limit items w t =
        on_outcome-Keeps items limit (length items) (call w.trace items) _ (Owes-log _ w t)

    on_filled-Keeps :
        (call : List (Event A B) → List A → Outcome B) (limit : Option ℕ) (f : Filled A)
        (w : Worker A B)
        → Good w
        → Keeps (on_filled cfg clock call none limit f w)
    unfolding on_filled
    on_filled-Keeps call limit (filled batch ch) w t =
        process-Keeps call limit batch (record w { in_ch = ch }) t
    on_filled-Keeps call limit (failed e ch) w t = on_error-Keeps e (record w { in_ch = ch }) t

    on_item-Keeps :
        (call : List (Event A B) → List A → Outcome B) (t : Tick A B) (a : A) (w : Worker A B)
        → Good w
        → Keeps (on_item cfg clock call no_faults t a w)
    unfolding on_item
    on_item-Keeps call t a w g =
        if_rule Keeps (ltb 0 cfg.batch_size) _ _ (λ _. on_filled-Keeps call t.gen_stop _ w g)
          (λ _. process-Keeps call t.gen_stop (a ∷ []) w g)

    on_read-Keeps :
        (call : List (Event A B) → List A → Outcome B) (t : Tick A B) (r : Read A) (w : Worker A B)
        → Good w
        → Keeps (on_read cfg clock call no_faults t r w)
    unfolding on_read on_stop flush_out flush_or_fail
    on_read-Keeps call t (payload a) w g =
        on_item-Keeps call t a (record w { consecutive_empty = 0 }) g
    on_read-Keeps call t (control end_of_stream) w g = g
    on_read-Keeps call t (control worker_stop) w g = flush-Good w g
    on_read-Keeps call t empty w g = g
    on_read-Keeps call t index_error w g = on_error-Keeps other w g
    on_read-Keeps call t attribute_error w g = on_error-Keeps other w g

    receive_next-Keeps :
        (call : List (Event A B) → List A → Outcome B) (t : Tick A B) (w : Worker A B)
        → Good w
        → Keeps (receive_next cfg clock call no_faults t w)
    unfolding receive_next
    receive_next-Keeps call t w g =
        if_rule Keeps (not cfg.drain && t.drain_event) _ _ (λ _. g)
          (λ _.
            if_rule Keeps t.broken _ _ (λ _. g)
              (λ _. on_read-Keeps call t _ (record w { in_ch = (get w.in_ch).1 }) g))

    after_park-Keeps :
        (call : List (Event A B) → List A → Outcome B) (t : Tick A B)
        (r : Worker A B × Option Error)
        → Good r.0
        → Keeps (after_park cfg clock call no_faults t r)
    unfolding after_park
    after_park-Keeps call t (w, none) g = receive_next-Keeps call t w g
    after_park-Keeps call t (w, some e) g = on_error-Keeps e w g

    iterate-Keeps :
        (call : List (Event A B) → List A → Outcome B) (t : Tick A B) (w : Worker A B)
        → t.faults ≡ no_faults
        → Good w
        → Keeps (iterate cfg clock call t w)
    unfolding iterate
    iterate-Keeps call t w calm g =
        let begun : Good (begin clock t w) =
          unfold begin in
          record {
            valid = maybe_flush-IsValid (clock w.clock_reads) w.out_ch g.valid;
            exact = accepted-maybe_flush (clock w.clock_reads) w.out_ch ∙ g.exact;
          } in
        if_rule Keeps t.should_stop _ _ (λ _. g)
          (λ _.
            if_rule Keeps (t.faults.age_fails && age_due clock t w) _ _
              (λ h.
                absurd
                  (let e : t.faults.age_fails ≡ false = ap (λ f. f.age_fails) calm in ground arith))
              (λ _.
                subst
                  (λ f.
                    Keeps
                      (after_park cfg clock call f t (maybe_park clock f t.park (begin clock t w))))
                  (sym calm)
                  (after_park-Keeps call t (maybe_park clock no_faults t.park (begin clock t w))
                    (maybe_park-Tracks t.park (begin clock t w) begun))))

    go_on-Keeps :
        (more : Worker A B → Worker A B × Verdict)
        → ((w : Worker A B) → Good w → Keeps (more w))
        → (r : Worker A B × Verdict) → Keeps r
        → Keeps (go_on more r)
    unfolding go_on
    go_on-Keeps more rec (w, running) g = rec w g
    go_on-Keeps more rec (w, ended) g = g
    go_on-Keeps more rec (w, broken_connection) g = g
    go_on-Keeps more rec (w, left) g = g
    go_on-Keeps more rec (w, crashed) g = g

    pub run_loop-Keeps :
        (call : List (Event A B) → List A → Outcome B) (ticks : List (Tick A B)) (w : Worker A B)
        → All PutsLand ticks
        → Good w
        → Keeps (run_loop cfg clock call ticks w)
    unfolding run_loop
    run_loop-Keeps call [] w calm g = g
    run_loop-Keeps call (t ∷ ticks) w calm g =
        go_on-Keeps (run_loop cfg clock call ticks) (λ w'. run_loop-Keeps call ticks w' calm.1)
          (iterate cfg clock call t w) (iterate-Keeps call t w calm.0 g)

pub run_loop-Tracks {ℓ} :
    {A B : Type ℓ} (cfg : Config) (clock : ℕ → ℕ) (call : List (Event A B) → List A → Outcome B)
    (ticks : List (Tick A B)) (q : List (Msg A)) (chunk_size chunk_ms : ℕ)
    → All PutsLand ticks
    → Tracks []
        (run_loop cfg clock call ticks (start q chunk_size chunk_ms)).0.out_ch
        (run_loop cfg clock call ticks (start q chunk_size chunk_ms)).0.trace
unfolding start init
run_loop-Tracks cfg clock call ticks q chunk_size chunk_ms calm =
    run_loop-Keeps [] cfg clock call ticks (start q chunk_size chunk_ms) calm
      (record { valid = record { below = omega arith; chunks = tt }; exact = refl })

-- If no put raises, and no get while a batch fills, then after any number of iterations the payloads
-- that the worker has put or still holds are exactly what its stage yielded, in order: None and End
-- are dropped, errors of the stage lose nothing that was yielded before them, and a park hands its
-- items on.
pub run_loop-outputs {ℓ} :
    {A B : Type ℓ} (cfg : Config) (clock : ℕ → ℕ) (call : List (Event A B) → List A → Outcome B)
    (ticks : List (Tick A B)) (q : List (Msg A)) (chunk_size chunk_ms : ℕ)
    → All PutsLand ticks
    → accepted (run_loop cfg clock call ticks (start q chunk_size chunk_ms)).0.out_ch
      ≡ outputs (run_loop cfg clock call ticks (start q chunk_size chunk_ms)).0.trace
run_loop-outputs cfg clock call ticks q chunk_size chunk_ms calm =
    (run_loop-Tracks cfg clock call ticks q chunk_size chunk_ms calm).exact
