-- ===== src/Scavenge/Slots.antt =====
-- The states of a slot over the polls of `_scavenger_thread`.
use gpupipe.Prelude.{
  ℕ, ◌≤◌, ◌≡◌, refl, ◌≢◌, Bool, true, false, not, ◌&&◌, ◌||◌, Option, none, some, arith, leb,
  if_rule, List, [], ◌∷◌, All,
}
use gpupipe.Scavenge.{
  Slot, Answer, acked, refused, late, Poll, set_park, park_worker, freeze_worker, thaw_worker,
  is_parked_value, keep_acked_park, checkpoint_with, checkpoint, or_else, after_park, claimed,
  release_park, freed, poll_slot, poll_all, late_ack,
}

-- A slot whose worker waits on `park` is known as parked or frozen, and none is both.
pub record IsTracked (s : Slot) : Type 0 where
  pub known : s.park ≡ some 2 → (s.parked || s.frozen) ≡ true
  pub one_state : (s.parked && s.frozen) ≡ false

is_parked_value-two : (v : Option ℕ) → v ≡ some 2 → is_parked_value v ≡ true
unfolding is_parked_value
is_parked_value-two v e = rw e

keep_acked_park-IsTracked : (s : Slot) → s.frozen ≡ false → IsTracked (keep_acked_park s)
unfolding keep_acked_park
keep_acked_park-IsTracked s e =
    if_rule IsTracked (is_parked_value s.park) _ s
      (λ _. record { known = λ _. refl; one_state = e })
      (λ no. record {
        known = λ two. ground (arith, is_parked_value-two s.park two);
        one_state = ground arith;
      })

-- A slot that is neither frozen nor parked.
abbrev pub IsRunning : Slot → Type 0
IsRunning s = (s.frozen ≡ false) × (s.parked ≡ false)

checkpoint_with-IsTracked :
    (p : Poll) (used : Option ℕ) (s : Slot)
    → IsRunning s
    → (used ≡ none → IsTracked s)
    → IsTracked (checkpoint_with p used s)
unfolding checkpoint_with
checkpoint_with-IsTracked p none s run t = t refl
checkpoint_with-IsTracked p (some mib) s run t =
    if_rule IsTracked (not p.has_checkpoint) _ _ (λ _. keep_acked_park-IsTracked s run.0)
      (λ _.
        if_rule IsTracked (freeze_worker p mib) _ _
          (λ _. record { known = λ _. ground arith; one_state = ground arith })
          (λ _. keep_acked_park-IsTracked s run.0))

same_flags : (s : Slot) (h : Bool) → IsTracked s → IsTracked (record s { hold = h })
same_flags s h t = record { known = t.known; one_state = t.one_state }

checkpoint-IsTracked :
    (p : Poll) (used : Option ℕ) (s : Slot)
    → IsRunning s
    → (used ≡ none → IsTracked s)
    → IsTracked (checkpoint p used s)
unfolding checkpoint
checkpoint-IsTracked p used s run t =
    if_rule IsTracked p.hazard _ _ (λ _. keep_acked_park-IsTracked s run.0)
      (λ _.
        checkpoint_with-IsTracked p used (record s { hold = true }) run
          (λ e. same_flags s true (t e)))

after_park-IsTracked :
    (p : Poll) (mib : ℕ) (parked : Bool) (s : Slot)
    → IsRunning s
    → IsTracked (after_park p (some mib) (parked, s))
unfolding after_park
after_park-IsTracked p mib parked s run =
    if_rule IsTracked parked _ _ (λ _. record { known = λ _. refl; one_state = run.0 })
      (λ _.
        checkpoint-IsTracked p (or_else p.fresh (some mib)) s run
          (λ e. absurd (some_left p.fresh e)))
  where
    some_left : (o : Option ℕ) → or_else o (some mib) ≢ none
    some_left none = unfold or_else in (λ e. cc)
    some_left (some n) = unfold or_else in (λ e. cc)

park_worker-IsRunning : (a : Answer) (s : Slot) → IsRunning s → IsRunning (park_worker a s).1
unfolding park_worker set_park
park_worker-IsRunning (acked still) s run = run
park_worker-IsRunning refused s run = run
park_worker-IsRunning late s run = run

claimed-IsTracked :
    (p : Poll) (park used : Option ℕ) (s : Slot)
    → IsRunning s
    → IsTracked s
    → IsTracked (claimed p park used s)
unfolding claimed
claimed-IsTracked p none used s run t = checkpoint-IsTracked p used s run (λ _. t)
claimed-IsTracked p (some v) none s run t = checkpoint-IsTracked p none s run (λ _. t)
claimed-IsTracked p (some v) (some mib) s run t =
    after_park-IsTracked p mib _ _ (park_worker-IsRunning p.answer (record s { hold = true }) run)

release_park-waits : (s : Slot) → (release_park s).park ≢ some 2
unfolding release_park is_parked_value
release_park-waits s h = ground (arith, is_parked_value-two s.park)

freed-IsTracked : (p : Poll) (s : Slot) → IsTracked s → IsTracked (freed p s)
unfolding freed set_park
freed-IsTracked p s t =
    if_rule IsTracked s.parked _ _ (λ _. record { known = λ h. cc; one_state = refl })
      (λ not_parked.
        if_rule IsTracked s.frozen _ _
          (λ _.
            if_rule IsTracked (thaw_worker p s.frozen_mib) _ s
              (λ _. record {
                known = λ h. absurd (release_park-waits s h);
                one_state = unfold release_park in ground arith;
              })
              (λ _. t))
          (λ _. same_flags s false t))

-- In every poll that finds the worker alive, a slot stays tracked: a worker that has acknowledged a
-- park is marked parked or frozen, so that a free GPU finds it, and no slot is both.
pub poll_slot-IsTracked :
    (need_free_polls : ℕ) (p : Poll) (s : Slot)
    → p.is_alive ≡ true
    → IsTracked s
    → IsTracked (poll_slot need_free_polls p s)
unfolding poll_slot
poll_slot-IsTracked need_free_polls p s alive t =
    if_rule IsTracked (not p.is_alive) _ _ (λ dead. absurd (ground arith))
      (λ _.
        if_rule IsTracked p.foreign _ _
          (λ _.
            if_rule IsTracked (s.frozen || s.parked) s _ (λ _. t)
              (λ run. claimed-IsTracked p s.park p.used s (ground arith, ground arith) t))
          (λ _.
            if_rule IsTracked (leb need_free_polls p.free_streak) _ s (λ _. freed-IsTracked p s t)
              (λ _. t)))

-- A slot whose worker runs: neither frozen nor parked nor held, and not waiting in a park.
abbrev pub IsReleased : Slot → Type 0
IsReleased s = IsRunning s × (s.hold ≡ false) × (s.park ≢ some 2)

freed-IsReleased :
    (p : Poll) (s : Slot)
    → IsTracked s
    → (s.frozen ≡ true → thaw_worker p s.frozen_mib ≡ true)
    → IsReleased (freed p s)
unfolding freed set_park
freed-IsReleased p s t thaws =
    if_rule IsReleased s.parked _ _ (λ e. ((ground (arith, t.one_state), refl), refl, λ h. cc))
      (λ not_parked.
        if_rule IsReleased s.frozen _ _
          (λ frozen.
            if_rule IsReleased (thaw_worker p s.frozen_mib) _ s
              (λ _.
                ((refl, unfold release_park in ground arith), refl, λ h. release_park-waits s h))
              (λ no. absurd (ground (arith, thaws frozen))))
          (λ not_frozen.
            ((not_frozen, not_parked), refl, λ two. absurd (ground (arith, t.known two)))))

-- When its GPU has been free for long enough, the worker of a tracked slot runs again after that
-- poll, if it is alive and, in case it was frozen, the thaw succeeds.
pub poll_slot-IsReleased :
    (need_free_polls : ℕ) (p : Poll) (s : Slot)
    → p.is_alive ≡ true
    → p.foreign ≡ false
    → need_free_polls ≤ p.free_streak
    → (s.frozen ≡ true → thaw_worker p s.frozen_mib ≡ true)
    → IsTracked s
    → IsReleased (poll_slot need_free_polls p s)
unfolding poll_slot
poll_slot-IsReleased need_free_polls p s alive free long thaws t =
    if_rule IsReleased (not p.is_alive) _ _ (λ dead. absurd (ground arith))
      (λ _.
        if_rule IsReleased p.foreign _ _ (λ taken. absurd (ground arith))
          (λ _.
            if_rule IsReleased (leb need_free_polls p.free_streak) _ s
              (λ _. freed-IsReleased p s t thaws) (λ short. absurd (ground arith))))

-- A worker that waits in a park of which its slot knows nothing.
abbrev pub IsStranded : Slot → Type 0
IsStranded s = (s.park ≡ some 2) × (s.frozen ≡ false) × (s.parked ≡ false)

poll_slot-IsStranded :
    (need_free_polls : ℕ) (p : Poll) (s : Slot)
    → p.foreign ≡ false
    → IsStranded s
    → IsStranded (poll_slot need_free_polls p s)
unfolding poll_slot freed
poll_slot-IsStranded need_free_polls p s free (at_two, not_frozen, not_parked) =
    (ground arith, ground arith, ground arith)

poll_all-IsStranded :
    (need_free_polls : ℕ) (ps : List Poll) (s : Slot)
    → All (λ (p : Poll). p.foreign ≡ false) ps
    → IsStranded s
    → IsStranded (poll_all need_free_polls ps s)
unfolding poll_all
poll_all-IsStranded need_free_polls [] s free stranded = stranded
poll_all-IsStranded need_free_polls (p ∷ ps) s free stranded =
    poll_all-IsStranded need_free_polls ps (poll_slot need_free_polls p s) free.1
      (poll_slot-IsStranded need_free_polls p s free.0 stranded)

-- A worker that acknowledges a park late, when its slot is neither frozen nor parked, since the
-- scavenger has given up on the park and no checkpoint has followed, goes on waiting in the park
-- through any number of polls that find no foreign process, however long the GPU has been free.
pub poll_all-late_ack :
    (need_free_polls : ℕ) (ps : List Poll) (s : Slot)
    → All (λ (p : Poll). p.foreign ≡ false) ps
    → s.frozen ≡ false
    → s.parked ≡ false
    → IsStranded (poll_all need_free_polls ps (late_ack s))
unfolding late_ack set_park
poll_all-late_ack need_free_polls ps s free not_frozen not_parked =
    poll_all-IsStranded need_free_polls ps (late_ack s) free (refl, not_frozen, not_parked)
