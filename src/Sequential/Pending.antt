-- ===== src/Sequential/Pending.antt =====
-- `pending_items` of `_sequential_run`: what is pending for the stages, what they have taken, and
-- what was addressed to them.
use gpupipe.Prelude.{
  ℕ, ◌+◌, ◌≡◌, refl, ◌∙◌, ◌&&◌, List, [], ◌∷◌, ◌++◌, append_assoc, arith, ltb, ◌==◌, if◌then◌else◌,
  if_rule, length,
}
use gpupipe.Worker.{Yield}
use gpupipe.Sequential.{
  Step, rooted, called, out, flushed, Seq, entries, root_entries, flush_entries, gather, at, others,
}

module _ {ℓ} {A : Type ℓ} where
  abbrev pub only : ℕ → ℕ → List (Yield A) → List (Yield A)
  only i j ys = if j == i then ys else []

  -- What a stage was given in a step, or the caller for an index past the last stage.
  abbrev pub taken_in : ℕ → Step A → List (Yield A)
  taken_in i (rooted ys) = []
  taken_in i (called j ys es) = only i j ys
  taken_in i (out j y) = only i j (y ∷ [])
  taken_in i (flushed j ys) = []

  -- What a step addressed to a stage.
  abbrev pub addressed_in : ℕ → Step A → List (Yield A)
  addressed_in i (rooted ys) = at i (root_entries ys)
  addressed_in i (called j ys es) = at i (entries (j + 1) es)
  addressed_in i (out j y) = []
  addressed_in i (flushed j ys) = at i (flush_entries (j + 1) ys)

  abbrev pub taken : ℕ → List (Step A) → List (Yield A)
  taken i [] = []
  taken i (st ∷ sts) = taken_in i st ++ taken i sts

  abbrev pub addressed : ℕ → List (Step A) → List (Yield A)
  addressed i [] = []
  addressed i (st ∷ sts) = addressed_in i st ++ addressed i sts

  pub taken-append : (i : ℕ) (s t : List (Step A)) → taken i (s ++ t) ≡ taken i s ++ taken i t
  taken-append i [] t = refl
  taken-append i (x ∷ s) t = rw (taken-append i s t, append_assoc)

  pub addressed-append :
      (i : ℕ) (s t : List (Step A)) → addressed i (s ++ t) ≡ addressed i s ++ addressed i t
  addressed-append i [] t = refl
  addressed-append i (x ∷ s) t = rw (addressed-append i s t, append_assoc)

  pub at-append : (i : ℕ) (p q : List (ℕ × Yield A)) → at i (p ++ q) ≡ at i p ++ at i q
  unfolding at
  at-append i [] q = refl
  at-append i ((j, y) ∷ p) q = ground (arith, at-append i p q)

  -- The items that a stage took, and then those pending for it, are those addressed to it.
  abbrev pub Served : ℕ → Seq A → Type ℓ
  Served i s = taken i s.trace ++ at i s.pending ≡ addressed i s.trace

  pub at-others :
      (i j : ℕ) (q : List (ℕ × Yield A)) → only i j (at j q) ++ at i (others j q) ≡ at i q
  unfolding at others
  at-others i j [] = ground arith
  at-others i j ((k, y) ∷ q) = ground (arith, at-others i j q)

  pub at-gather :
      (i j size : ℕ) (batch : List (Yield A)) (q : List (ℕ × Yield A))
      → only i j (gather j size batch q).0 ++ at i (gather j size batch q).1
        ≡ only i j batch ++ at i q
  unfolding at gather
  at-gather i j size batch [] = refl
  at-gather i j size batch ((k, y) ∷ q) =
      if_rule
        (λ (r : List (Yield A) × List (ℕ × Yield A)).
          only i j r.0 ++ at i r.1 ≡ only i j batch ++ at i ((k, y) ∷ q))
        (ltb (length batch) size && k == j) _ _
        (λ e.
          at-gather i j size (batch ++ y ∷ []) q
          ∙ ground (arith, append_assoc batch (y ∷ []) (at i q)))
        (λ _. refl)

  pub at-cons :
      (i j : ℕ) (y : Yield A) (q : List (ℕ × Yield A))
      → at i ((j, y) ∷ q) ≡ only i j (y ∷ []) ++ at i q
  unfolding at
  at-cons i j y q = ground arith
