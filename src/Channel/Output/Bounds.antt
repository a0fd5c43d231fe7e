-- ===== src/Channel/Output/Bounds.antt =====
-- The sizes of the chunks of `_OutputChannel` and of its pending list.
use gpupipe.Prelude.{
  is_empty-nil, is_empty-length, ℕ, suc, if_rule, ◌+◌, ◌-◌, ◌≤◌, ◌<◌, ◌≡◌, refl, ap, ◌∙◌, List, [],
  ◌∷◌, arith, leb, ◌||◌, ◌&&◌, not, length, length-append, All, All-append, is_empty,
}
use gpupipe.Types.{Msg, item, chunk, ctrl}
use gpupipe.Channel.Output.{
  OutputChannel, init, blocking_put, flush, stamp, hold, flush_if_due, send, maybe_flush, Op, sends,
  idles, flushes, apply, run,
}

module _ {ℓ} {A : Type ℓ} where
  abbrev pub FitsChunk : ℕ → Msg A → Type 0
  FitsChunk n (item a) = Unit
  FitsChunk n (chunk xs) = (0 < length xs) × (length xs ≤ n)
  FitsChunk n (ctrl s) = ⊥

  -- Pending payloads stay below a full chunk, and no chunk on the queue is empty or too large.
  pub record IsValid (ch : OutputChannel A) : Type ℓ where
    pub below : length ch.pending ≤ ch.chunk_size - 1
    pub chunks : All (FitsChunk ch.chunk_size) ch.queue

  pub flush-IsValid :
      (ch : OutputChannel A)
      → length ch.pending ≤ ch.chunk_size
      → All (FitsChunk ch.chunk_size) ch.queue
      → IsValid (flush ch)
  unfolding flush blocking_put
  flush-IsValid ch h q =
      if_rule IsValid (is_empty ch.pending) ch _
        (λ e. record { below = omega (arith, ap length (is_empty-nil ch.pending e)); chunks = q })
        (λ e. record {
          below = omega arith;
          chunks =
              All-append (FitsChunk ch.chunk_size) ch.queue (chunk ch.pending ∷ []) q
                ((is_empty-length ch.pending e, h), tt);
        })

  flush_if_due-IsValid :
      (now : ℕ) (ch : OutputChannel A)
      → length ch.pending ≤ ch.chunk_size
      → All (FitsChunk ch.chunk_size) ch.queue
      → IsValid (flush_if_due now ch)
  unfolding flush_if_due
  flush_if_due-IsValid now ch h q =
      if_rule IsValid (leb ch.chunk_size (length ch.pending) || leb (ch.oldest + ch.chunk_s) now) _
        ch (λ e. flush-IsValid ch h q) (λ e. record { below = ground arith; chunks = q })

  hold-length :
      (a : A) (t : ℕ) (ch : OutputChannel A)
      → (length (hold a (stamp t ch)).pending ≡ suc (length ch.pending))
        × ((hold a (stamp t ch)).chunk_size ≡ ch.chunk_size)
        × ((hold a (stamp t ch)).queue ≡ ch.queue)
  unfolding hold stamp
  hold-length a t ch = ground (arith, length-append ch.pending (a ∷ []))

  hold-chunks :
      (a : A) (t : ℕ) (ch : OutputChannel A)
      → All (FitsChunk ch.chunk_size) ch.queue
      → All (FitsChunk (hold a (stamp t ch)).chunk_size) (hold a (stamp t ch)).queue
  unfolding hold stamp
  hold-chunks a t ch q =
      if_rule (λ c. All (FitsChunk c.chunk_size) c.queue) (is_empty ch.pending)
        (record ch { oldest = t }) ch (λ _. q) (λ _. q)

  pub send-IsValid :
      (a : A) (t now : ℕ) (ch : OutputChannel A) → IsValid ch → IsValid (send a t now ch)
  unfolding send blocking_put
  send-IsValid a t now ch v =
      if_rule IsValid (leb ch.chunk_size 0) _ _
        (λ e. record {
          below = v.below;
          chunks = All-append (FitsChunk ch.chunk_size) ch.queue (item a ∷ []) v.chunks (tt, tt);
        })
        (λ e.
          flush_if_due-IsValid now (hold a (stamp t ch)) (ground (arith, hold-length a t ch))
            (hold-chunks a t ch v.chunks))

  pub maybe_flush-IsValid :
      (now : ℕ) (ch : OutputChannel A) → IsValid ch → IsValid (maybe_flush now ch)
  unfolding maybe_flush
  maybe_flush-IsValid now ch v =
      if_rule IsValid (not (is_empty ch.pending) && leb (ch.oldest + ch.chunk_s) now) _ ch
        (λ e. flush-IsValid ch (omega arith) v.chunks) (λ e. v)

  pub apply-IsValid : (op : Op A) (ch : OutputChannel A) → IsValid ch → IsValid (apply op ch)
  unfolding apply
  apply-IsValid (sends a t now) ch v = send-IsValid a t now ch v
  apply-IsValid (idles now) ch v = maybe_flush-IsValid now ch v
  apply-IsValid flushes ch v = flush-IsValid ch (omega arith) v.chunks

  -- Sends, idle checks and flushes keep a channel valid: its pending list stays shorter than
  -- `chunk_size`, and every chunk that it puts has at least one payload and at most `chunk_size`.
  pub run-IsValid : (ops : List (Op A)) (ch : OutputChannel A) → IsValid ch → IsValid (run ops ch)
  unfolding run
  run-IsValid [] ch v = v
  run-IsValid (op ∷ ops) ch v = run-IsValid ops (apply op ch) (apply-IsValid op ch v)

  pub init-IsValid : (chunk_size chunk_ms : ℕ) → IsValid (init {A = A} chunk_size chunk_ms)
  unfolding init
  init-IsValid chunk_size chunk_ms = record { below = omega arith; chunks = tt }

  pub chunk_size-run :
      (ops : List (Op A)) (ch : OutputChannel A) → (run ops ch).chunk_size ≡ ch.chunk_size
  unfolding run apply send maybe_flush flush flush_if_due hold stamp blocking_put
  chunk_size-run [] ch = refl
  chunk_size-run (op ∷ ops) ch = chunk_size-run ops (apply op ch) ∙ one op
    where
      one : (op : Op A) → (apply op ch).chunk_size ≡ ch.chunk_size
      one (sends a t now) = ground arith
      one (idles now) = ground arith
      one flushes = ground arith

  pub chunk_size-run-init :
      (chunk_size chunk_ms : ℕ) (ops : List (Op A))
      → (run ops (init chunk_size chunk_ms)).chunk_size ≡ chunk_size
  unfolding init
  chunk_size-run-init chunk_size chunk_ms ops = chunk_size-run ops _
