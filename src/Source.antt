-- ===== src/Source.antt =====
-- A root stage that returns a generator: `_drain_source_generator` and `_SourceBackoff` of
-- src/pipe/workers.py. Times are in milliseconds.
pub mod Drain
pub mod Root
pub mod Backoff
mod Tests
use gpupipe.Prelude.{
  ℕ, zero, suc, ◌+◌, ◌*◌, ◌^◌, min, Bool, true, false, Option, none, some, List, [], ◌∷◌, ◌++◌,
  if◌then◌else◌, is_empty,
}
use gpupipe.Channel.Output.{OutputChannel, send}
use gpupipe.Worker.{Yield, value, none_value, end_value, Error, connection, other}

-- How the send of an item ends, with the two clock readings that it takes: if the send puts and the
-- put raises, the payloads that it puts are neither on the queue nor pending.
pub data Sending : Type 0 where
  lands : ℕ → ℕ → Sending
  fails : Error → ℕ → ℕ → Sending

-- How the loop ends: `returns` is the pair (raised, sent), `propagates` an exception that leaves it.
pub data Ending : Type 0 where
  returns : Bool → ℕ → Ending
  propagates : Error → Ending

-- What has been passed to `on_item`, and the output channel.
pub record Drained {ℓ} (B : Type ℓ) : Type ℓ where
  pub counted : List (Yield B)
  pub out : OutputChannel (Yield B)
  pub sent : ℕ
  pub ending : Ending

-- An exception of the generator itself.
on_raise : Bool → Option Error → ℕ → Ending
on_raise raise_errors none sent = returns false sent
on_raise raise_errors (some connection) sent = propagates connection
on_raise raise_errors (some other) sent =
    if raise_errors then propagates other else returns true sent

module _ {ℓ} {B : Type ℓ} where
  finish : Ending → List (Yield B) → OutputChannel (Yield B) → ℕ → Drained B
  finish e counted ch sent = record { counted = counted; out = ch; sent = sent; ending = e }

  -- `_emit`. A put has taken place if nothing is pending after the send.
  unfoldable pub emit_item :
      Sending → Yield B → OutputChannel (Yield B) → OutputChannel (Yield B) × Option Error
  emit_item (lands stamped now) y ch = (send y stamped now ch, none)
  emit_item (fails e stamped now) y ch =
      let sent = send y stamped now ch in
      if is_empty sent.pending then (record sent { queue = ch.queue }, some e) else (sent, none)

  after_send :
      Bool
      → OutputChannel (Yield B) × Option Error
      → (OutputChannel (Yield B) → Drained B)
      → List (Yield B)
      → ℕ
      → Drained B
  unfolding finish
  after_send raise_errors (ch, none) more counted sent = more ch
  after_send raise_errors (ch, some connection) more counted sent =
      finish (propagates connection) counted ch sent
  after_send raise_errors (ch, some other) more counted sent =
      if raise_errors then finish (propagates other) counted ch sent else more ch

  -- The loop from `counted`, the channel and `sent` on. Each item comes with what `stop()` says
  -- before it and with how its send ends, for a stage with an output queue; `raised` is the exception
  -- behind the last item.
  drain_from :
      Bool
      → Option Error
      → List (Bool × Yield B × Sending)
      → List (Yield B)
      → OutputChannel (Yield B)
      → ℕ
      → Drained B
  unfolding on_raise finish after_send emit_item
  drain_from raise_errors raised [] counted ch sent =
      finish (on_raise raise_errors raised sent) counted ch sent
  drain_from raise_errors raised ((stop, none_value, sending) ∷ items) counted ch sent =
      let more = drain_from raise_errors raised items counted ch sent in
      if stop then finish (returns false sent) counted ch sent else more
  drain_from raise_errors raised ((stop, end_value, sending) ∷ items) counted ch sent =
      let more = drain_from raise_errors raised items counted ch sent in
      if stop then finish (returns false sent) counted ch sent else more
  drain_from raise_errors raised ((stop, value b, sending) ∷ items) counted ch sent =
      let next =
        after_send raise_errors (emit_item sending (value b) ch)
          (λ out. drain_from raise_errors raised items (counted ++ value b ∷ []) out (sent + 1))
          (counted ++ value b ∷ []) (sent + 1) in
      if stop then finish (returns false sent) counted ch sent else next

  unfoldable pub drain_source_generator :
      Bool → Option Error → List (Bool × Yield B × Sending) → OutputChannel (Yield B) → Drained B
  unfolding drain_from
  drain_source_generator raise_errors raised items ch = drain_from raise_errors raised items [] ch 0

-- The backoff before a source is called again.
pub record SourceBackoff : Type 0 where
  pub base : ℕ
  pub failures : ℕ

-- The delay of this call of `wait`, and the backoff after it.
unfoldable pub wait : Bool → SourceBackoff → ℕ × SourceBackoff
wait made_progress b =
    let failures = if made_progress then 0 else b.failures in
    (min (b.base * 2 ^ failures) 60000, record b { failures = failures + 1 })

-- The delays of `n` calls in a row without progress.
unfoldable pub delays : ℕ → SourceBackoff → List ℕ
unfolding wait
delays zero b = []
delays (suc n) b = let (d, b') = wait false b in d ∷ delays n b'
