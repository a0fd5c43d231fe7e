-- ===== src/Helpers/Shuffled.antt =====
-- BufferAndShuffle of src/pipe/utils.py sends on every item once.
use gpupipe.Prelude.{
  ℕ, ◌+◌, ◌≡◌, refl, List, [], ◌∷◌, ◌++◌, arith, ltb, if_rule, length, is_empty, is_empty-nil, mass,
  mass-append,
}
use gpupipe.Helpers.{BufferAndShuffle, threshold, shuffle_call, shuffle_flush, shuffle_all}

module _ {ℓ} {A : Type ℓ} (shuffle : List A → List A) (f : A → ℕ)
    (permutes : (xs : List A) → mass f (shuffle xs) ≡ mass f xs) where
  shuffle_call-mass :
      (x : A) (b : BufferAndShuffle A)
      → let r = shuffle_call shuffle x b in mass f r.0 + mass f r.1.buffer ≡ mass f b.buffer + f x
  unfolding shuffle_call
  shuffle_call-mass x b =
      let more = mass-append f b.buffer (x ∷ []) in
      if_rule
        (λ (r : List A × BufferAndShuffle A).
          mass f r.0 + mass f r.1.buffer ≡ mass f b.buffer + f x)
        (ltb (threshold shuffle b) (length (b.buffer ++ x ∷ []))) _ _
        (λ _. omega (arith, permutes (b.buffer ++ x ∷ []))) (λ _. omega arith)

  -- What the calls and the flush at the end send on is, as a multiset, what was in the buffer and
  -- what they were called with, if the shuffle permutes its list.
  pub shuffle_all-mass :
      (xs : List A) (b : BufferAndShuffle A)
      → mass f (shuffle_all shuffle xs b) ≡ mass f b.buffer + mass f xs
  unfolding shuffle_all shuffle_flush
  shuffle_all-mass [] b =
      if_rule (λ (r : List A × BufferAndShuffle A). mass f r.0 ≡ mass f b.buffer + 0)
        (is_empty b.buffer) _ _ (λ e. rw (is_empty-nil b.buffer e) refl)
        (λ _. omega (arith, permutes b.buffer))
  shuffle_all-mass (x ∷ xs) b =
      let r = shuffle_call shuffle x b in
      omega (
        arith,
        mass-append f r.0 (shuffle_all shuffle xs r.1),
        shuffle_all-mass xs r.1,
        shuffle_call-mass x b,
      )
