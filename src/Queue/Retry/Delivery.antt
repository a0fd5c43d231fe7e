-- ===== src/Queue/Retry/Delivery.antt =====
-- How `_put_retry` of src/pipe/queues.py ends.
use gpupipe.Prelude.{
  ℕ, ◌+◌, ◌-◌, ◌≤◌, ◌<◌, ◌≡◌, refl, ◌∙◌, ◌⊎◌, inl, inr, true, false, Option, some, List, [], ◌∷◌,
  ◌++◌, arith, length, drop, length-drop, drop-drop,
}
use gpupipe.Queue.{ShmQueue}
use gpupipe.Queue.Bounded.{put-cases}
use gpupipe.Queue.Retry.{Stall, put_retry, note_full, note_armed, consume, total}

note_full-fires :
    (stall_s now : ℕ) (st : Stall)
    → (((note_full stall_s now st).armed ≡ st.armed)
        × ((note_full stall_s now st).fired ≡ st.fired))
      ⊎ ((st.armed ≡ true)
          × ((note_full stall_s now st).armed ≡ false)
          × ((note_full stall_s now st).fired ≡ st.fired + 1))
unfolding note_full note_armed
note_full-fires stall_s now st = ground arith

total-pos : (rounds : List (ℕ × ℕ)) → (0 < length rounds) ⊎ (total rounds ≡ 0)
total-pos [] = inr refl
total-pos (r ∷ rounds) = inl (omega arith)

module _ {ℓ} {M : Type ℓ} where
  length-consume :
      (k : ℕ) (q : ShmQueue M)
      → (length (consume k q).items ≡ length q.items - k) × ((consume k q).maxsize ≡ q.maxsize)
  length-consume k q = (length-drop k q.items, refl)

  -- When `_put_retry` returns, the message stands once at the end of the queue, behind all the
  -- messages that were there and that the consumers did not take.
  pub put_retry-delivers :
      (stall_s : ℕ) (m : M) (rounds : List (ℕ × ℕ)) (st : Stall) (q : ShmQueue M) (st' : Stall)
      (q' : ShmQueue M)
      → put_retry stall_s m rounds st q ≡ some (st', q')
      → (k : ℕ) × (k ≤ total rounds)
        × (q'.items ≡ drop k q.items ++ m ∷ [])
        × (q'.maxsize ≡ q.maxsize)
  unfolding put_retry
  put_retry-delivers stall_s m [] st q st' q' h = cc
  put_retry-delivers stall_s m ((taken, now) ∷ rounds) st q st' q' h =
      elim (put-cases m (consume taken q)) [
        | inl (e, _, _) ↦
            (let (k, small, items, size) =
                put_retry-delivers stall_s m rounds (note_full stall_s now st) (consume taken q) st'
                  q' (rw (e, put_retry) at h) in
              (taken + k, omega arith, items ∙ rw drop-drop, size ∙ refl))
        | inr e ↦ landed taken (omega arith) (rw (e, put_retry) at h)
      ]
    where
      landed :
          (k : ℕ)
          → k ≤ taken + total rounds
          → ◌≡◌ {A = Option (Stall × ShmQueue M)}
              (some (
                st,
                record { maxsize = (consume k q).maxsize; items = (consume k q).items ++ m ∷ [] },
              ))
              (some (st', q'))
          → (k : ℕ) × (k ≤ taken + total rounds)
            × (q'.items ≡ drop k q.items ++ m ∷ [])
            × (q'.maxsize ≡ q.maxsize)
      landed k small same = (k, small, cc, cc)

  -- If the consumers take enough messages for one free slot, `_put_retry` returns, whatever it met on the way.
  pub put_retry-returns :
      (stall_s : ℕ) (m : M) (rounds : List (ℕ × ℕ)) (st : Stall) (q : ShmQueue M)
      → 0 < length rounds
      → length q.items < q.maxsize + total rounds
      → (r : Stall × ShmQueue M) × (put_retry stall_s m rounds st q ≡ some r)
  unfolding put_retry
  put_retry-returns stall_s m [] st q some_round room = absurd (omega arith)
  put_retry-returns stall_s m ((taken, now) ∷ rounds) st q some_round room =
      elim (put-cases m (consume taken q)) [
        | inl (e, bounded, stuck) ↦
            rw (e, put_retry)
              (put_retry-returns stall_s m rounds (note_full stall_s now st) (consume taken q)
                (ground (arith, length-consume taken q, total-pos rounds))
                (ground (arith, length-consume taken q)))
        | inr e ↦ (
          (st, record { maxsize = q.maxsize; items = drop taken q.items ++ m ∷ [] }),
          rw (e, put_retry),
        )
      ]

  -- The stall hook is called at most once in a put, and only if it was armed.
  pub fired-put_retry :
      (stall_s : ℕ) (m : M) (rounds : List (ℕ × ℕ)) (st : Stall) (q : ShmQueue M) (st' : Stall)
      (q' : ShmQueue M)
      → put_retry stall_s m rounds st q ≡ some (st', q')
      → ((st'.armed ≡ st.armed) × (st'.fired ≡ st.fired))
        ⊎ ((st.armed ≡ true) × (st'.armed ≡ false) × (st'.fired ≡ st.fired + 1))
  unfolding put_retry
  fired-put_retry stall_s m [] st q st' q' h = cc
  fired-put_retry stall_s m ((taken, now) ∷ rounds) st q st' q' h =
      elim (put-cases m (consume taken q)) [
        | inl (e, _, _) ↦ ground (
          arith,
          fired-put_retry stall_s m rounds (note_full stall_s now st) (consume taken q) st' q'
              (rw (e, put_retry) at h),
          note_full-fires stall_s now st,
        )
        | inr e ↦
            (let landed : ◌≡◌ {A = Option (Stall × ShmQueue M)} (some (st, _)) (some (st', q')) =
                rw (e, put_retry) at h in
              inl (cc, cc))
      ]
