-- ===== src/Worker/Emit.antt =====
-- `_emit` of src/pipe/workers.py, item by item over a list. `clock` gives the readings of the
-- monotonic clock in order, and `k` counts them.
use gpupipe.Prelude.{
  ℕ, zero, suc, Option, none, some, is_empty, if◌then◌else◌, ◌+◌, ◌≡◌, ◌∙◌, sym, List, [], ◌∷◌,
  ◌++◌, append-nil, append_assoc,
}
use gpupipe.Channel.Output.{OutputChannel, send, flush}
use gpupipe.Channel.Output.Bounds.{IsValid, send-IsValid}
use gpupipe.Channel.Output.Order.{accepted, accepted-send}
use gpupipe.Worker.{Yield, Error, value, none_value, end_value, values}

module _ {ℓ} {B : Type ℓ} where
  unfoldable pub emit_all :
      (ℕ → ℕ) → List (Yield B) → OutputChannel (Yield B) × ℕ → OutputChannel (Yield B) × ℕ
  emit_all clock [] (ch, k) = (ch, k)
  emit_all clock (value b ∷ ys) (ch, k) =
      emit_all clock ys (send (value b) (clock k) (clock (k + 1)) ch, k + 2)
  emit_all clock (none_value ∷ ys) (ch, k) = emit_all clock ys (ch, k)
  emit_all clock (end_value ∷ ys) (ch, k) = emit_all clock ys (ch, k)

  -- The same, if the first put behind `n` payloads raises `e`: a put is due if nothing is pending
  -- after the send, and its payloads, no longer pending, are not on the queue.
  emit_failing :
      (ℕ → ℕ)
      → Error
      → ℕ
      → List (Yield B)
      → OutputChannel (Yield B) × ℕ
      → (OutputChannel (Yield B) × ℕ) × Option Error
  emit_failing clock e n [] s = (s, none)
  emit_failing clock e n (none_value ∷ ys) s = emit_failing clock e n ys s
  emit_failing clock e n (end_value ∷ ys) s = emit_failing clock e n ys s
  emit_failing clock e (suc n) (value b ∷ ys) (ch, k) =
      emit_failing clock e n ys (send (value b) (clock k) (clock (k + 1)) ch, k + 2)
  emit_failing clock e zero (value b ∷ ys) (ch, k) =
      let sent = send (value b) (clock k) (clock (k + 1)) ch in
      let later = emit_failing clock e zero ys (sent, k + 2) in
      if is_empty sent.pending then ((record sent { queue = ch.queue }, k + 2), some e) else later

  unfoldable pub emit_or_fail :
      (ℕ → ℕ)
      → Option (ℕ × Error)
      → List (Yield B)
      → OutputChannel (Yield B) × ℕ
      → (OutputChannel (Yield B) × ℕ) × Option Error
  unfolding emit_all emit_failing
  emit_or_fail clock none ys s = (emit_all clock ys s, none)
  emit_or_fail clock (some (n, e)) ys s = emit_failing clock e n ys s

  -- A flush whose put may raise.
  unfoldable pub flush_or_fail :
      Option Error → OutputChannel (Yield B) → OutputChannel (Yield B) × Option Error
  flush_or_fail none ch = (flush ch, none)
  flush_or_fail (some e) ch =
      if is_empty ch.pending then (ch, none) else (record ch { pending = [] }, some e)

  -- Emitting a list keeps the channel valid and appends exactly its payloads.
  pub accepted-emit_all :
      (clock : ℕ → ℕ) (ys : List (Yield B)) (ch : OutputChannel (Yield B)) (k : ℕ)
      → IsValid ch
      → IsValid (emit_all clock ys (ch, k)).0
        × (accepted (emit_all clock ys (ch, k)).0 ≡ accepted ch ++ values ys)
  unfolding emit_all values
  accepted-emit_all clock [] ch k v = (v, sym (append-nil (accepted ch)))
  accepted-emit_all clock (none_value ∷ ys) ch k v = accepted-emit_all clock ys ch k v
  accepted-emit_all clock (end_value ∷ ys) ch k v = accepted-emit_all clock ys ch k v
  accepted-emit_all clock (value b ∷ ys) ch k v =
      let v' = send-IsValid (value b) (clock k) (clock (k + 1)) ch v in
      let (w, e) =
        accepted-emit_all clock ys (send (value b) (clock k) (clock (k + 1)) ch) (k + 2) v' in
      (
        w,
        e
            ∙ rw (accepted-send (value b) (clock k) (clock (k + 1)) ch v)
                (append_assoc (accepted ch) (value b ∷ []) (values ys)),
      )
