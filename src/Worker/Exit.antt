-- ===== src/Worker/Exit.antt =====
-- What a worker does when its loop has ended, before it counts itself out: `_worker_run` of
-- src/pipe/workers.py.
pub mod Delivery
use gpupipe.Prelude.{ℕ, zero, suc, Option, none, some, is_empty, if◌then◌else◌, ◌+◌, List, [], ◌∷◌}
use gpupipe.Channel.Output.{OutputChannel, send, flush}
use gpupipe.Worker.{Yield, value, none_value, end_value, Worker, Verdict, ended, crashed, Error}
use gpupipe.Worker.Emit.{flush_or_fail}

-- The `flush()` hook of the stage: missing, raising, or returning items.
pub data Hook {ℓ} (B : Type ℓ) : Type ℓ where
  missing raising : Hook B
  returning : List (Yield B) → Hook B

module _ {ℓ} {B : Type ℓ} where
  -- The loop over the flushed items tests for None only.
  unfoldable pub emit_flushed :
      (ℕ → ℕ) → List (Yield B) → OutputChannel (Yield B) × ℕ → OutputChannel (Yield B) × ℕ
  emit_flushed clock [] (ch, k) = (ch, k)
  emit_flushed clock (none_value ∷ ys) (ch, k) = emit_flushed clock ys (ch, k)
  emit_flushed clock (value b ∷ ys) (ch, k) =
      emit_flushed clock ys (send (value b) (clock k) (clock (k + 1)) ch, k + 2)
  emit_flushed clock (end_value ∷ ys) (ch, k) =
      emit_flushed clock ys (send end_value (clock k) (clock (k + 1)) ch, k + 2)

  -- The same, if the first put behind `n` payloads raises.
  emit_flushed_failing :
      (ℕ → ℕ) → ℕ → List (Yield B) → OutputChannel (Yield B) × ℕ → OutputChannel (Yield B) × ℕ
  emit_flushed_failing clock n [] s = s
  emit_flushed_failing clock n (none_value ∷ ys) s = emit_flushed_failing clock n ys s
  emit_flushed_failing clock (suc n) (value b ∷ ys) (ch, k) =
      emit_flushed_failing clock n ys (send (value b) (clock k) (clock (k + 1)) ch, k + 2)
  emit_flushed_failing clock (suc n) (end_value ∷ ys) (ch, k) =
      emit_flushed_failing clock n ys (send end_value (clock k) (clock (k + 1)) ch, k + 2)
  emit_flushed_failing clock zero (value b ∷ ys) (ch, k) =
      let sent = send (value b) (clock k) (clock (k + 1)) ch in
      let later = emit_flushed_failing clock zero ys (sent, k + 2) in
      if is_empty sent.pending then (record sent { queue = ch.queue }, k + 2) else later
  emit_flushed_failing clock zero (end_value ∷ ys) (ch, k) =
      let sent = send end_value (clock k) (clock (k + 1)) ch in
      let later = emit_flushed_failing clock zero ys (sent, k + 2) in
      if is_empty sent.pending then (record sent { queue = ch.queue }, k + 2) else later

  -- An exception of the hook or of a send is caught, and the items behind it are dropped.
  run_hook : (ℕ → ℕ) → Option ℕ → Hook B → OutputChannel (Yield B) × ℕ → OutputChannel (Yield B) × ℕ
  unfolding emit_flushed emit_flushed_failing
  run_hook clock fails missing s = s
  run_hook clock fails raising s = s
  run_hook clock none (returning ys) s = emit_flushed clock ys s
  run_hook clock (some n) (returning ys) s = emit_flushed_failing clock n ys s

module _ {ℓ} {A B : Type ℓ} where
  -- Then any partial chunk is flushed, before the worker coordinates with its siblings; if that put
  -- raises, the process ends there.
  last_flush : Option Error → Worker A B → Worker A B × Verdict
  unfolding flush_or_fail
  last_flush none w = (record w { out_ch = flush w.out_ch }, ended)
  last_flush (some e) w = (
    record w { out_ch = (flush_or_fail (some e) w.out_ch).0 },
    (if is_empty w.out_ch.pending then ended else crashed),
  )

  unfoldable pub shut_down :
      (ℕ → ℕ) → Option ℕ → Option Error → Hook B → Worker A B → Worker A B × Verdict
  unfolding run_hook last_flush
  shut_down clock fails flush_fails hook w = last_flush flush_fails (record w {
    out_ch = (run_hook clock fails hook (w.out_ch, w.clock_reads)).0;
    clock_reads = (run_hook clock fails hook (w.out_ch, w.clock_reads)).1;
  })
