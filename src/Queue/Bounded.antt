-- ===== src/Queue/Bounded.antt =====
-- The capacity of `ShmQueue`, src/pipe/shmqueue.py.
use gpupipe.Prelude.{
  ◌≤◌, ◌<◌, ◌≡◌, refl, ◌↔◌, ◌⊎◌, inl, inr, true, ◌||◌, none, some, [], ◌∷◌, ◌++◌, arith, ltb, ◌==◌,
  if_rule, length, length-append,
}
use gpupipe.Queue.{ShmQueue, put, qsize, full}

module _ {ℓ} {M : Type ℓ} where
  pub put-cases :
      (m : M) (q : ShmQueue M)
      → ((put m q ≡ none) × (0 < q.maxsize) × (q.maxsize ≤ length q.items))
        ⊎ (put m q ≡ some (record q { items = q.items ++ m ∷ [] }))
  unfolding put
  put-cases m q =
      if_rule
        (λ o.
          ((o ≡ none) × (0 < q.maxsize) × (q.maxsize ≤ length q.items))
          ⊎ (o ≡ some (record q { items = q.items ++ m ∷ [] })))
        (q.maxsize == 0 || ltb (length q.items) q.maxsize) _ none (λ e. inr refl)
        (λ e. inl (refl, ground arith, ground arith))

  abbrev pub IsBounded : ShmQueue M → Type 0
  IsBounded q = 0 < q.maxsize → length q.items ≤ q.maxsize

  -- A put raises `Full` exactly when `full` says so; otherwise the message goes to the end, the
  -- rest stays in place, and a queue within its capacity stays within it.
  pub put-full :
      (m : M) (q : ShmQueue M)
      → ((put m q ≡ none) ↔ (full q ≡ true))
        × ((q' : ShmQueue M)
            → put m q ≡ some q'
            → (q'.items ≡ q.items ++ m ∷ [])
              × (q'.maxsize ≡ q.maxsize)
              × (IsBounded q → IsBounded q'))
  unfolding put full qsize
  put-full m q = (
    (λ h. ground arith, λ h. ground arith),
    λ q' h. ground (arith, length-append q.items (m ∷ [])),
  )
