-- ===== src/Worker/Loop.antt =====
-- One iteration of the loop of a stage that has an input queue, and the loop: `_worker_run` of
-- src/pipe/workers.py. `start` gives every stage an output queue, so the worker has a channel to it.
pub mod Owed
pub mod Given
pub mod Outputs
pub mod Inputs
pub mod Once
pub mod Shutdown
pub mod Ended
pub mod Verdicts
use gpupipe.Prelude.{
  ℕ, zero, suc, ◌+◌, ◌%◌, Bool, true, false, not, ◌&&◌, Option, none, some, List, [], ◌∷◌, ◌++◌,
  ltb, leb, ◌==◌, if◌then◌else◌, length, is_empty,
}
use gpupipe.Types.{Msg, end_of_stream, worker_stop}
use gpupipe.Channel.Input.{
  InputChannel, open_channel, Read, payload, control, empty, index_error, attribute_error, get,
  requeue_buffered,
}
use gpupipe.Channel.Output.{OutputChannel, init, maybe_flush, flush}
use gpupipe.Worker.{
  Yield, Faults, Error, connection, other, Outcome, nothing, single, listed, generator, raises,
  Park, not_asked, refused, released, Config, Tick, Event, called, parked, Worker, Verdict, running,
  ended, broken_connection, left, crashed, reached, cut_short,
}
use gpupipe.Worker.Emit.{emit_or_fail, flush_or_fail}
use gpupipe.Worker.Batch.{Filled, filled, failed, fill_batch, arrive}

module _ {ℓ} {A B : Type ℓ} where
  -- A worker that has loaded its stage, on an input queue that holds `q`.
  unfoldable pub start : List (Msg A) → ℕ → ℕ → Worker A B
  unfolding open_channel init
  start q chunk_size chunk_ms = record {
    in_ch = open_channel q;
    out_ch = init chunk_size chunk_ms;
    consecutive_empty = 0;
    items_processed = 0;
    published = none;
    clock_reads = 0;
    trace = [];
  }

  log : Event A B → Worker A B → Worker A B
  log e w = record w { trace = w.trace ++ e ∷ [] }

  emit : (ℕ → ℕ) → Option (ℕ × Error) → List (Yield B) → Worker A B → Worker A B × Option Error
  unfolding emit_or_fail
  emit clock fails ys w = (
    record w {
      out_ch = (emit_or_fail clock fails ys (w.out_ch, w.clock_reads)).0.0;
      clock_reads = (emit_or_fail clock fails ys (w.out_ch, w.clock_reads)).0.1;
    },
    (emit_or_fail clock fails ys (w.out_ch, w.clock_reads)).1,
  )

  flush_out : Option Error → Worker A B → Worker A B × Option Error
  unfolding flush_or_fail
  flush_out fails w =
      (record w { out_ch = (flush_or_fail fails w.out_ch).0 }, (flush_or_fail fails w.out_ch).1)

  -- The statistics: published at every tenth item.
  tally : Config → ℕ → Worker A B → Worker A B
  tally cfg n w =
      if cfg.timing
      then (if (w.items_processed + n) % 10 == 0
          then record w {
            items_processed = w.items_processed + n;
            published = some (w.items_processed + n);
          }
          else record w { items_processed = w.items_processed + n })
      else w

  after_park_emit : Option Error → Worker A B × Option Error → Worker A B × Option Error
  unfolding flush_out
  after_park_emit fails (w, none) = flush_out fails w
  after_park_emit fails (w, some e) = (w, some e)

  -- `_maybe_park`: what `on_park` hands back is emitted and flushed before the GPU goes.
  maybe_park : (ℕ → ℕ) → Faults → Park B → Worker A B → Worker A B × Option Error
  unfolding emit log after_park_emit
  maybe_park clock f not_asked w = (w, none)
  maybe_park clock f refused w = (w, none)
  maybe_park clock f (released ys) w =
      after_park_emit f.park_flush_fails (emit clock f.park_fails ys (log (parked ys) w))

  unfoldable pub on_error : Config → Error → Worker A B → Worker A B × Verdict
  on_error cfg connection w = (w, broken_connection)
  on_error cfg other w = (w, (if cfg.raise_errors then crashed else running))

  end_generator : Config → ℕ → Option Error → Worker A B → Worker A B × Verdict
  unfolding tally on_error
  end_generator cfg n none w = (tally cfg n w, running)
  end_generator cfg n (some e) w = on_error cfg e w

  emitted : Config → Worker A B × Option Error → Worker A B × Verdict
  unfolding on_error
  emitted cfg (w, none) = (w, running)
  emitted cfg (w, some e) = on_error cfg e w

  generated : Config → ℕ → Option Error → Worker A B × Option Error → Worker A B × Verdict
  unfolding on_error end_generator
  generated cfg n later (w, none) = end_generator cfg n later w
  generated cfg n later (w, some e) = on_error cfg e w

  -- What the loop does with the outcome of a call on `n` items.
  on_outcome :
      Config
      → (ℕ → ℕ)
      → Option (ℕ × Error)
      → Option ℕ
      → ℕ
      → Outcome B
      → Worker A B
      → Worker A B × Verdict
  unfolding emit tally on_error emitted generated
  on_outcome cfg clock fails limit n nothing w = (w, running)
  on_outcome cfg clock fails limit n (raises e) w = on_error cfg e w
  on_outcome cfg clock fails limit n (single y) w =
      emitted cfg (emit clock fails (y ∷ []) (tally cfg n w))
  on_outcome cfg clock fails limit n (listed ys) w =
      emitted cfg (emit clock fails ys (tally cfg n w))
  on_outcome cfg clock fails limit n (generator ys e) w =
      generated cfg n (if cut_short limit ys then none else e)
        (emit clock fails (reached limit ys) w)

  -- The stage is called with the items; its answer may depend on all that went before.
  unfoldable pub process :
      Config
      → (ℕ → ℕ)
      → (List (Event A B) → List A → Outcome B)
      → Option (ℕ × Error)
      → Option ℕ
      → List A
      → Worker A B
      → Worker A B × Verdict
  unfolding log on_outcome
  process cfg clock call fails limit items w =
      on_outcome cfg clock fails limit (length items) (call w.trace items)
        (log (called items limit (call w.trace items)) w)

  on_filled :
      Config
      → (ℕ → ℕ)
      → (List (Event A B) → List A → Outcome B)
      → Option (ℕ × Error)
      → Option ℕ
      → Filled A
      → Worker A B
      → Worker A B × Verdict
  unfolding process
  on_filled cfg clock call fails limit (filled batch ch) w =
      process cfg clock call fails limit batch (record w { in_ch = ch })
  on_filled cfg clock call fails limit (failed e ch) w = on_error cfg e (record w { in_ch = ch })

  on_item :
      Config
      → (ℕ → ℕ)
      → (List (Event A B) → List A → Outcome B)
      → Faults
      → Tick A B
      → A
      → Worker A B
      → Worker A B × Verdict
  unfolding on_filled
  on_item cfg clock call f t a w =
      if ltb 0 cfg.batch_size
      then on_filled cfg clock call f.send_fails t.gen_stop
          (fill_batch f.fill_fails t.polls cfg.batch_size w.in_ch (a ∷ [])) w
      else process cfg clock call f.send_fails t.gen_stop (a ∷ []) w

  -- A worker that has put back its buffer leaves, unless the put of its last chunk raises.
  on_stop : Config → Worker A B × Option Error → Worker A B × Verdict
  unfolding on_error
  on_stop cfg (w, none) = (w, left)
  on_stop cfg (w, some e) = on_error cfg e w

  on_read :
      Config
      → (ℕ → ℕ)
      → (List (Event A B) → List A → Outcome B)
      → Faults
      → Tick A B
      → Read A
      → Worker A B
      → Worker A B × Verdict
  unfolding on_item on_stop flush_out
  on_read cfg clock call f t (payload a) w =
      on_item cfg clock call f t a (record w { consecutive_empty = 0 })
  on_read cfg clock call f t (control end_of_stream) w =
      (record w { consecutive_empty = 0 }, running)
  on_read cfg clock call f t (control worker_stop) w = on_stop cfg (
      flush_out f.stop_fails (record w { in_ch = requeue_buffered w.in_ch; consecutive_empty = 0 }))
  on_read cfg clock call f t empty w = (
    record w { consecutive_empty = w.consecutive_empty + 1 },
    (if t.upstream_done && leb cfg.empty_threshold (w.consecutive_empty + 1)
        then ended
        else running),
  )
  on_read cfg clock call f t index_error w = on_error cfg other w
  on_read cfg clock call f t attribute_error w = on_error cfg other w

  receive_next :
      Config
      → (ℕ → ℕ)
      → (List (Event A B) → List A → Outcome B)
      → Faults
      → Tick A B
      → Worker A B
      → Worker A B × Verdict
  unfolding on_read
  receive_next cfg clock call f t w =
      if not cfg.drain && t.drain_event
      then (w, ended)
      else if t.broken
      then (w, ended)
      else on_read cfg clock call f t (get w.in_ch).0 (record w { in_ch = (get w.in_ch).1 })

  after_park :
      Config
      → (ℕ → ℕ)
      → (List (Event A B) → List A → Outcome B)
      → Faults
      → Tick A B
      → Worker A B × Option Error
      → Worker A B × Verdict
  unfolding receive_next on_error
  after_park cfg clock call f t (w, none) = receive_next cfg clock call f t w
  after_park cfg clock call f t (w, some e) = on_error cfg e w

  -- The age check at the top of the loop, and the messages that arrived since the last iteration.
  begin : (ℕ → ℕ) → Tick A B → Worker A B → Worker A B
  unfolding arrive
  begin clock t w = record w {
    in_ch = arrive t.arrivals w.in_ch;
    out_ch = maybe_flush (clock w.clock_reads) w.out_ch;
    clock_reads = w.clock_reads + 1;
  }

  -- The age check has something to put. If that raises, no handler is around it.
  age_due : (ℕ → ℕ) → Tick A B → Worker A B → Bool
  unfolding begin
  age_due clock t w = not (is_empty w.out_ch.pending) && is_empty (begin clock t w).out_ch.pending

  age_check_fails : (ℕ → ℕ) → Tick A B → Worker A B → Worker A B
  unfolding begin
  age_check_fails clock t w = record (begin clock t w) { out_ch = record w.out_ch { pending = [] } }

  unfoldable pub iterate :
      Config
      → (ℕ → ℕ)
      → (List (Event A B) → List A → Outcome B)
      → Tick A B
      → Worker A B
      → Worker A B × Verdict
  unfolding after_park begin maybe_park age_due age_check_fails
  iterate cfg clock call t w =
      if t.should_stop
      then (w, ended)
      else if t.faults.age_fails && age_due clock t w
      then (age_check_fails clock t w, crashed)
      else after_park cfg clock call t.faults t (maybe_park clock t.faults t.park (begin clock t w))

  go_on : (Worker A B → Worker A B × Verdict) → Worker A B × Verdict → Worker A B × Verdict
  go_on more (w, running) = more w
  go_on more (w, ended) = (w, ended)
  go_on more (w, broken_connection) = (w, broken_connection)
  go_on more (w, left) = (w, left)
  go_on more (w, crashed) = (w, crashed)

  unfoldable pub run_loop :
      Config
      → (ℕ → ℕ)
      → (List (Event A B) → List A → Outcome B)
      → List (Tick A B)
      → Worker A B
      → Worker A B × Verdict
  unfolding iterate go_on
  run_loop cfg clock call [] w = (w, running)
  run_loop cfg clock call (t ∷ ticks) w =
      go_on (run_loop cfg clock call ticks) (iterate cfg clock call t w)
