-- ===== src/Source/Root.antt =====
-- The loop of a root stage, which has no input queue: the root branch of `_worker_run` and of
-- `_thread_loop`, src/pipe/workers.py. Audio durations and times are left out of the
-- statistics.
pub mod Promise
pub mod Sent
use gpupipe.Prelude.{
  ℤ, pos, negsuc, String, str_eq, eq_iff, ℕ, zero, suc, ◌+◌, ◌-◌, ◌*◌, ◌/◌, ◌%◌, ◌≤◌, ◌<◌, min, max,
  ◌≡◌, refl, sym, ap, ◌∙◌, subst, ◌≢◌, ◌↔◌, ◌⊎◌, inl, inr, Bool, true, false, not, ◌&&◌, ◌||◌,
  Option, none, some, List, [], ◌∷◌, ◌++◌, map, append-nil, append_assoc, arith, ltb, leb, ◌==◌,
  if◌then◌else◌, ltb→lt, lt→ltb, leb→le, le→leb, Bool-cases, Option-cases, if_rule, length,
  is_empty, get_elem?, set, take, drop, replicate, length-append, length-nil, is_empty-nil,
  is_empty-length, take-append-drop, length-take, length-drop, length-replicate, length-set, All,
  All-append, drop-drop, drop-append, length-map, sum,
}
use gpupipe.Channel.Output.{OutputChannel, maybe_flush}
use gpupipe.Worker.{
  Yield, value, none_value, end_value, Error, connection, other, Verdict, running, ended,
  broken_connection, left, crashed, Config,
}
use gpupipe.Source.{
  emit_item, Sending, Ending, returns, propagates, Drained, drain_source_generator, SourceBackoff,
  wait,
}

-- How one call of the source ends. Each item comes with how its send ends, and an item of a
-- generator with what the stop test says before it.
pub data SourceCall {ℓ} (B : Type ℓ) : Type ℓ where
  nothing : SourceCall B
  single : Yield B → Sending → SourceCall B
  listed : List (Yield B × Sending) → SourceCall B
  generator : Option Error → List (Bool × Yield B × Sending) → SourceCall B
  raises : Error → SourceCall B

-- What one iteration finds: the stop flag, the clock for the check of the chunk age and whether its
-- put raises, the drain event, and what the source does.
pub record RootTick {ℓ} (B : Type ℓ) : Type ℓ where
  pub should_stop : Bool
  pub now : ℕ
  pub age_fails : Bool
  pub drain_event : Bool
  pub result : SourceCall B

-- The output channel, how many items it has counted, the backoff, and the delays before the
-- source was called again, the last one first.
pub record Root {ℓ} (B : Type ℓ) : Type ℓ where
  pub out_ch : OutputChannel (Yield B)
  pub items_processed : ℕ
  pub backoff : SourceBackoff
  pub delays : List ℕ

module _ {ℓ} {B : Type ℓ} where
  unfoldable pub has_end : List (Yield B × Sending) → Bool
  has_end [] = false
  has_end ((end_value, s) ∷ ys) = true
  has_end ((none_value, s) ∷ ys) = has_end ys
  has_end ((value b, s) ∷ ys) = has_end ys

  unfoldable pub count_valid : List (Yield B × Sending) → ℕ
  count_valid [] = 0
  count_valid ((end_value, s) ∷ ys) = count_valid ys
  count_valid ((none_value, s) ∷ ys) = count_valid ys
  count_valid ((value b, s) ∷ ys) = count_valid ys + 1

  count : Config → ℕ → Root B → Root B
  count cfg n r = if cfg.timing then record r { items_processed = r.items_processed + n } else r

  on_error : Config → Error → Root B → Root B × Verdict
  on_error cfg connection r = (r, broken_connection)
  on_error cfg other r = (r, (if cfg.raise_errors then crashed else running))

  -- The loop over the valid items of a list; an exception of a send leaves it.
  after_emit :
      Config
      → OutputChannel (Yield B) × Option Error
      → (Root B → Root B × Verdict)
      → Root B
      → Root B × Verdict
  unfolding on_error
  after_emit cfg (ch, none) more r = more (record r { out_ch = ch })
  after_emit cfg (ch, some e) more r = on_error cfg e (record r { out_ch = ch })

  emit_list : Config → Bool → List (Yield B × Sending) → Root B → Root B × Verdict
  unfolding after_emit
  emit_list cfg ends [] r = (r, (if ends then ended else running))
  emit_list cfg ends ((none_value, s) ∷ ys) r = emit_list cfg ends ys r
  emit_list cfg ends ((end_value, s) ∷ ys) r = emit_list cfg ends ys r
  emit_list cfg ends ((value b, s) ∷ ys) r =
      after_emit cfg (emit_item s (value b) r.out_ch) (λ r'. emit_list cfg ends ys r') r

  on_list : Config → List (Yield B × Sending) → Root B → Root B × Verdict
  unfolding has_end count_valid count emit_list
  on_list cfg ys r = emit_list cfg (has_end ys) ys (count cfg (count_valid ys) r)

  -- A generator that raised is called again after a backoff; one that is exhausted ends the stage.
  after_drain : Ending → Root B → Root B × Verdict
  unfolding wait
  after_drain (returns true n) r = (
    record r {
      backoff = (wait (ltb 0 n) r.backoff).1;
      delays = (wait (ltb 0 n) r.backoff).0 ∷ r.delays;
    },
    running,
  )
  after_drain (returns false n) r = (r, ended)
  after_drain (propagates connection) r = (r, broken_connection)
  after_drain (propagates other) r = (r, crashed)

  note_drained : Config → Drained B → Root B → Root B
  unfolding count
  note_drained cfg d r = record (count cfg (length d.counted) r) { out_ch = d.out }

  on_generator : Config → Drained B → Root B → Root B × Verdict
  unfolding note_drained after_drain
  on_generator cfg d r = after_drain d.ending (note_drained cfg d r)

  unfoldable pub on_result : Config → SourceCall B → Root B → Root B × Verdict
  unfolding on_list on_generator on_error drain_source_generator
  on_result cfg nothing r = (r, running)
  on_result cfg (single none_value s) r = (r, running)
  on_result cfg (single end_value s) r = (r, ended)
  on_result cfg (single (value b) s) r = on_list cfg ((value b, s) ∷ []) r
  on_result cfg (listed ys) r = on_list cfg ys r
  on_result cfg (generator raised items) r =
      on_generator cfg (drain_source_generator cfg.raise_errors raised items r.out_ch) r
  on_result cfg (raises e) r = on_error cfg e r

  -- The check of the chunk age, with no handler around it: whether its put raises, and the channel
  -- after it.
  unfoldable pub check_raises : RootTick B → Root B → Bool
  unfolding maybe_flush
  check_raises t r =
      t.age_fails
      && not (is_empty r.out_ch.pending)
      && is_empty (maybe_flush t.now r.out_ch).pending

  unfoldable pub flush_aged : RootTick B → Root B → Root B
  unfolding maybe_flush
  flush_aged t r = record r { out_ch = maybe_flush t.now r.out_ch }

  unfoldable pub lose_chunk : Root B → Root B
  lose_chunk r = record r { out_ch = record r.out_ch { pending = [] } }

  -- One iteration, and the loop.
  unfoldable pub root_iterate : Config → RootTick B → Root B → Root B × Verdict
  unfolding on_result check_raises flush_aged lose_chunk
  root_iterate cfg t r =
      if t.should_stop
      then (r, ended)
      else if check_raises t r
      then (lose_chunk r, crashed)
      else if not cfg.drain && t.drain_event
      then (flush_aged t r, ended)
      else on_result cfg t.result (flush_aged t r)

  go_on : (Root B → Root B × Verdict) → Root B × Verdict → Root B × Verdict
  go_on more (r, running) = more r
  go_on more (r, ended) = (r, ended)
  go_on more (r, broken_connection) = (r, broken_connection)
  go_on more (r, left) = (r, left)
  go_on more (r, crashed) = (r, crashed)

  unfoldable pub root_loop : Config → List (RootTick B) → Root B → Root B × Verdict
  unfolding root_iterate go_on
  root_loop cfg [] r = (r, running)
  root_loop cfg (t ∷ ticks) r = go_on (root_loop cfg ticks) (root_iterate cfg t r)
