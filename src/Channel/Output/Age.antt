-- ===== src/Channel/Output/Age.antt =====
-- How long a payload may wait in `_OutputChannel`.
use gpupipe.Prelude.{
  ◌⊎◌, inl, inr, ℕ, if_rule, ◌+◌, ◌<◌, ◌≡◌, refl, false, List, [], ◌∷◌, arith, leb, ◌||◌, ◌&&◌, not,
  length, is_empty,
}
use gpupipe.Channel.Output.{OutputChannel, stamp, hold, flush_if_due, send, maybe_flush}
use gpupipe.Channel.Output.Order.{pending-flush}

module _ {ℓ} {A : Type ℓ} where
  abbrev Young : ℕ → ℕ → OutputChannel A → Type ℓ
  Young limit now c = (c.pending ≡ []) ⊎ (now < c.oldest + limit)

  Young-flush_if_due :
      (limit now : ℕ) (ch : OutputChannel A)
      → ch.chunk_s ≡ limit
      → Young limit now (flush_if_due now ch)
  unfolding flush_if_due
  Young-flush_if_due limit now ch same =
      if_rule (Young limit now)
        (leb ch.chunk_size (length ch.pending) || leb (ch.oldest + ch.chunk_s) now) _ ch
        (λ e. inl (pending-flush ch)) (λ e. inr (ground arith))

  chunk_s-hold : (a : A) (t : ℕ) (ch : OutputChannel A) → (hold a (stamp t ch)).chunk_s ≡ ch.chunk_s
  unfolding hold stamp
  chunk_s-hold a t ch = ground arith

  young_idle :
      (limit now oldest : ℕ) (xs : List A)
      → (not (is_empty xs) && leb (oldest + limit) now) ≡ false
      → (xs ≡ []) ⊎ (now < oldest + limit)
  young_idle limit now oldest [] e = inl refl
  young_idle limit now oldest (x ∷ xs) e = inr (ground arith)

  -- With chunking on, after a send or an idle check at time `now` either nothing is pending or the
  -- oldest pending payload is younger than the age limit: a short batch never waits longer.
  pub pending-age :
      (a : A) (t now : ℕ) (ch : OutputChannel A)
      → 0 < ch.chunk_size
      → (((send a t now ch).pending ≡ []) ⊎ (now < (send a t now ch).oldest + ch.chunk_s))
        × (((maybe_flush now ch).pending ≡ []) ⊎ (now < (maybe_flush now ch).oldest + ch.chunk_s))
  unfolding send maybe_flush
  pending-age a t now ch pos = (
    if_rule (Young ch.chunk_s now) (leb ch.chunk_size 0) _ _ (λ e. absurd (ground arith))
        (λ _. Young-flush_if_due ch.chunk_s now (hold a (stamp t ch)) (chunk_s-hold a t ch)),
    if_rule (Young ch.chunk_s now) (not (is_empty ch.pending) && leb (ch.oldest + ch.chunk_s) now) _
        ch (λ e. inl (pending-flush ch)) (λ e. young_idle ch.chunk_s now ch.oldest ch.pending e),
  )
