-- ===== src/Channel/Output/Order.antt =====
-- The payloads that an `_OutputChannel` has accepted, on its queue or pending.
use gpupipe.Prelude.{
  length-nil, is_empty-nil, ℕ, ◌≤◌, ◌≡◌, refl, sym, ap, ◌∙◌, List, [], ◌∷◌, ◌++◌, arith, length,
  append-nil, append_assoc, All,
}
use gpupipe.Types.{item, chunk, payloads, payloads-append}
use gpupipe.Channel.Output.{
  OutputChannel, init, blocking_put, flush, stamp, hold, flush_if_due, send, maybe_flush, Op, sends,
  idles, flushes, apply, run, sent,
}
use gpupipe.Channel.Output.Bounds.{
  FitsChunk, IsValid, apply-IsValid, run-IsValid, init-IsValid, chunk_size-run-init,
}

module _ {ℓ} {A : Type ℓ} where
  -- All payloads accepted so far: those on the queue, then those still pending.
  abbrev pub accepted : OutputChannel A → List A
  accepted ch = payloads ch.queue ++ ch.pending

  pub accepted-flush : (ch : OutputChannel A) → accepted (flush ch) ≡ accepted ch
  unfolding flush
  accepted-flush ch = ground (
    arith,
    payloads-append ch.queue (chunk ch.pending ∷ []),
    append-nil ch.pending,
    append-nil (payloads ch.queue ++ ch.pending),
  )

  pub pending-flush : (ch : OutputChannel A) → (flush ch).pending ≡ []
  unfolding flush
  pending-flush ch = ground (arith, is_empty-nil ch.pending)

  accepted-flush_if_due :
      (now : ℕ) (ch : OutputChannel A) → accepted (flush_if_due now ch) ≡ accepted ch
  unfolding flush_if_due
  accepted-flush_if_due now ch = ground (arith, accepted-flush ch)

  pub accepted-maybe_flush :
      (now : ℕ) (ch : OutputChannel A) → accepted (maybe_flush now ch) ≡ accepted ch
  unfolding maybe_flush
  accepted-maybe_flush now ch = ground (arith, accepted-flush ch)

  accepted-hold :
      (a : A) (t : ℕ) (ch : OutputChannel A)
      → accepted (hold a (stamp t ch)) ≡ accepted ch ++ a ∷ []
  unfolding hold stamp
  accepted-hold a t ch = ground (arith, append_assoc (payloads ch.queue) ch.pending (a ∷ []))

  -- In passthrough mode nothing is pending, so a bare payload overtakes none.
  accepted-put :
      (a : A) (ch : OutputChannel A)
      → length ch.pending ≤ 0
      → accepted (blocking_put (item a) ch) ≡ accepted ch ++ a ∷ []
  unfolding blocking_put
  accepted-put a ch h = ground (
    arith,
    length-nil ch.pending,
    payloads-append ch.queue (item a ∷ []),
    append-nil (payloads ch.queue),
    append-nil (payloads ch.queue ++ a ∷ []),
  )

  pub accepted-send :
      (a : A) (t now : ℕ) (ch : OutputChannel A)
      → IsValid ch
      → accepted (send a t now ch) ≡ accepted ch ++ a ∷ []
  unfolding send
  accepted-send a t now ch v = ground (
    arith,
    accepted-put a ch,
    accepted-hold a t ch,
    accepted-flush_if_due now (hold a (stamp t ch)),
  )

  accepted-apply :
      (op : Op A) (ch : OutputChannel A)
      → IsValid ch
      → accepted (apply op ch) ≡ accepted ch ++ sent (op ∷ [])
  unfolding apply
  accepted-apply (sends a t now) ch v = accepted-send a t now ch v
  accepted-apply (idles now) ch v = accepted-maybe_flush now ch ∙ sym (append-nil (accepted ch))
  accepted-apply flushes ch v = accepted-flush ch ∙ sym (append-nil (accepted ch))

  sent-cons : (op : Op A) (ops : List (Op A)) → sent (op ∷ ops) ≡ sent (op ∷ []) ++ sent ops
  sent-cons (sends a t now) ops = refl
  sent-cons (idles now) ops = refl
  sent-cons flushes ops = refl

  accepted-run :
      (ops : List (Op A)) (ch : OutputChannel A)
      → IsValid ch
      → accepted (run ops ch) ≡ accepted ch ++ sent ops
  unfolding run
  accepted-run [] ch v = sym (append-nil (accepted ch))
  accepted-run (op ∷ ops) ch v =
      accepted-run ops (apply op ch) (apply-IsValid op ch v)
      ∙ rw (accepted-apply op ch v, append_assoc, ← sent-cons op ops)

  run-append :
      (ops more : List (Op A)) (ch : OutputChannel A) → run (ops ++ more) ch ≡ run more (run ops ch)
  unfolding run
  run-append [] more ch = refl
  run-append (op ∷ ops) more ch = run-append ops more (apply op ch)

  run-flushes :
      (ops : List (Op A)) (ch : OutputChannel A) → run (ops ++ flushes ∷ []) ch ≡ flush (run ops ch)
  unfolding run apply
  run-flushes ops ch = rw run-append

  -- Whatever a worker sends, and whenever its channel flushes on size, on age or on demand, the
  -- queue and the pending list together hold the payloads sent, in order, at every moment.
  pub run-accepted :
      (chunk_size chunk_ms : ℕ) (ops : List (Op A))
      → accepted (run ops (init chunk_size chunk_ms)) ≡ sent ops
  run-accepted chunk_size chunk_ms ops =
      accepted-run ops (init chunk_size chunk_ms) (init-IsValid chunk_size chunk_ms)
      ∙ unfold init in refl

  -- A flushed channel has everything on the queue.
  pub payloads-flush : (ch : OutputChannel A) → payloads (flush ch).queue ≡ accepted ch
  payloads-flush ch =
      sym (append-nil (payloads (flush ch).queue))
      ∙ ap (λ p. payloads (flush ch).queue ++ p) (sym (pending-flush ch))
      ∙ accepted-flush ch

  -- After a final flush the queue alone holds all the payloads sent, in order, and every chunk on
  -- it has at least one payload and at most `chunk_size`.
  pub flush-delivers :
      (chunk_size chunk_ms : ℕ) (ops : List (Op A))
      → (payloads (run (ops ++ flushes ∷ []) (init chunk_size chunk_ms)).queue ≡ sent ops)
        × All (FitsChunk chunk_size) (run (ops ++ flushes ∷ []) (init chunk_size chunk_ms)).queue
  flush-delivers chunk_size chunk_ms ops = (
    rw (run-flushes ops (init chunk_size chunk_ms)) (
        payloads-flush (run ops (init chunk_size chunk_ms)) ∙ run-accepted chunk_size chunk_ms ops),
    rw (chunk_size-run-init chunk_size chunk_ms (ops ++ flushes ∷ [])) at (
        (run-IsValid (ops ++ flushes ∷ []) (init chunk_size chunk_ms)
          (init-IsValid chunk_size chunk_ms)).chunks),
  )
