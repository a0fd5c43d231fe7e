-- ===== src/Helpers/Pool.antt =====
-- The pool of AsyncPoolWorker of src/pipe/utils.py keeps its bound and finishes every item once.
use gpupipe.Prelude.{
  ℕ, zero, suc, ◌+◌, ◌≤◌, ◌<◌, ◌≡◌, refl, Bool, ◌||◌, sym, ap, ◌∙◌, inl, inr, true, false, not,
  ◌&&◌, Option, none, some, List, [], ◌∷◌, ◌++◌, append-nil, append_assoc, arith, ltb, Bool-cases,
  if_rule, length, is_empty, get_elem?, length-append, is_empty-nil, mass, mass-append,
}
use gpupipe.Helpers.{
  Done, pulled, processed, Processed, AsyncPool, results, remove_at, arm, arm_pull, is_waiting,
  complete, on_done, on_all_done, is_over, run_async, new_pool,
}

-- How many items the pull under way may still bring.
abbrev pub asked : Option ℕ → ℕ
asked none = 0
asked (some need) = need

mass-remove_at {ℓ} :
    {A : Type ℓ} (f : A → ℕ) (i : ℕ) (xs : List A) (a : A)
    → get_elem? xs i ≡ some a
    → (mass f (remove_at i xs) + f a ≡ mass f xs) × (length (remove_at i xs) + 1 ≡ length xs)
unfolding remove_at
mass-remove_at f i [] a at = absurd cc
mass-remove_at f zero (x ∷ xs) a at = let same : x ≡ a = cc in rw same (omega arith, omega arith)
mass-remove_at f (suc i) (x ∷ xs) a at =
    let (m, l) = mass-remove_at f i xs a at in (omega arith, omega arith)

module _ {ℓ} {A B : Type ℓ} where
  -- The items whose tasks have finished, and what those tasks are to emit.
  abbrev pub finished_items : List (A × Processed B) → List A
  finished_items [] = []
  finished_items (d ∷ ds) = d.0 ∷ finished_items ds

  abbrev pub finished_results : List (A × Processed B) → List B
  finished_results [] = []
  finished_results (d ∷ ds) = results d.1 ++ finished_results ds

  finished_results-append :
      (ds : List (A × Processed B)) (d : A × Processed B)
      → finished_results (ds ++ d ∷ []) ≡ finished_results ds ++ results d.1
  finished_results-append [] d = append-nil (results d.1)
  finished_results-append (e ∷ ds) d =
      ap (λ l. results e.1 ++ l) (finished_results-append ds d)
      ∙ sym (append_assoc (results e.1) (finished_results ds) (results d.1))

  -- What `pull` promises: it returns at most as many items as it was asked for, and only when asked.
  abbrev pub Honest : Done A B → AsyncPool A B → Type 0
  Honest (pulled items) p = length items ≤ asked p.pull_task
  Honest (processed i r) p = Unit

  abbrev pub AllHonest : List (Done A B) → AsyncPool A B → Type 0
  AllHonest [] p = Unit
  AllHonest (d ∷ ds) p = Honest d p × AllHonest ds (on_done d p)

  abbrev pub WaitsHonest : List (List (Done A B)) → AsyncPool A B → Type 0
  WaitsHonest [] p = Unit
  WaitsHonest (ds ∷ waits) p = AllHonest ds (arm p) × WaitsHonest waits (on_all_done ds (arm p))

  -- Whether a pull with no items is among what is done, and in one of the waits.
  abbrev pub has_empty_pull : List (Done A B) → Bool
  has_empty_pull [] = false
  has_empty_pull (pulled items ∷ ds) = is_empty items || has_empty_pull ds
  has_empty_pull (processed i r ∷ ds) = has_empty_pull ds

  abbrev pub pulled_nothing : List (List (Done A B)) → Bool
  pulled_nothing [] = false
  pulled_nothing (ds ∷ waits) = has_empty_pull ds || pulled_nothing waits

  arm_pull-upstream_done :
      (o : Option ℕ) (p : AsyncPool A B) → (arm_pull o p).upstream_done ≡ p.upstream_done
  unfolding arm_pull
  arm_pull-upstream_done (some need) p = refl
  arm_pull-upstream_done none p =
      if_rule (λ (q : AsyncPool A B). q.upstream_done ≡ p.upstream_done)
        (not p.upstream_done && ltb (length p.in_flight) p.max_concurrent) _ p (λ _. refl)
        (λ _. refl)

  complete-upstream_done :
      (i : ℕ) (r : Processed B) (o : Option A) (p : AsyncPool A B)
      → (complete i r o p).upstream_done ≡ p.upstream_done
  unfolding complete
  complete-upstream_done i r none p = refl
  complete-upstream_done i r (some a) p = refl

  upstream_done-arm : (p : AsyncPool A B) → (arm p).upstream_done ≡ p.upstream_done
  unfolding arm
  upstream_done-arm p = arm_pull-upstream_done p.pull_task p

  upstream_done-on_all_done :
      (ds : List (Done A B)) (p : AsyncPool A B)
      → (on_all_done ds p).upstream_done ≡ p.upstream_done || has_empty_pull ds
  unfolding on_all_done on_done
  upstream_done-on_all_done [] p = ground arith
  upstream_done-on_all_done (pulled items ∷ ds) p =
      ground (arith, upstream_done-on_all_done ds (on_done (pulled items) p))
  upstream_done-on_all_done (processed i r ∷ ds) p = ground (
    arith,
    upstream_done-on_all_done ds (on_done (processed i r) p),
    complete-upstream_done i r (get_elem? p.in_flight i) p,
  )

  run_async-upstream_done :
      (waits : List (List (Done A B))) (p : AsyncPool A B)
      → (run_async waits p).upstream_done ≡ true
      → p.upstream_done || pulled_nothing waits ≡ true
  unfolding run_async
  run_async-upstream_done [] p done = ground (arith, upstream_done-arm p)
  run_async-upstream_done (ds ∷ waits) p done =
      let q = on_all_done ds (arm p) in
      elim (Bool-cases (is_over (arm p))) [
        | inl over ↦ ground (arith, upstream_done-arm p)
        | inr goes ↦
            (let later : q.upstream_done || pulled_nothing waits ≡ true =
                run_async-upstream_done waits q (ground arith) in
              ground (arith, upstream_done-on_all_done ds (arm p), upstream_done-arm p))
      ]

  module _ (f : A → ℕ) where
    finished-append :
        (ds : List (A × Processed B)) (d : A × Processed B)
        → mass f (finished_items (ds ++ d ∷ [])) ≡ mass f (finished_items ds) + f d.0
    finished-append [] d = omega arith
    finished-append (e ∷ ds) d = omega (arith, finished-append ds d)

    pub record IsPool (n : ℕ) (p : AsyncPool A B) : Type ℓ where
      pub same_max : p.max_concurrent ≡ n
      pub room : length p.in_flight + asked p.pull_task ≤ n
      pub exact : mass f p.in_flight + mass f (finished_items p.finished) ≡ mass f p.given
      pub emits : p.emitted ≡ finished_results p.finished

    arm_pull-IsPool :
        (n : ℕ) (o : Option ℕ) (p : AsyncPool A B)
        → p.pull_task ≡ o
        → IsPool n p
        → IsPool n (arm_pull o p)
    unfolding arm_pull
    arm_pull-IsPool n (some need) p e v = v
    arm_pull-IsPool n none p e v =
        if_rule (IsPool n) (not p.upstream_done && ltb (length p.in_flight) p.max_concurrent) _ _
          (λ h. record {
            same_max = v.same_max;
            room = ground (arith, v.same_max);
            exact = v.exact;
            emits = v.emits;
          })
          (λ _. v)

    arm-IsPool : (n : ℕ) (p : AsyncPool A B) → IsPool n p → IsPool n (arm p)
    unfolding arm
    arm-IsPool n p v = arm_pull-IsPool n p.pull_task p refl v

    complete-IsPool :
        (n i : ℕ) (r : Processed B) (o : Option A) (p : AsyncPool A B)
        → get_elem? p.in_flight i ≡ o
        → IsPool n p
        → IsPool n (complete i r o p)
    unfolding complete
    complete-IsPool n i r none p at v = v
    complete-IsPool n i r (some a) p at v =
        let (m, l) = mass-remove_at f i p.in_flight a at in
        record {
          same_max = v.same_max;
          room = omega (arith, v.room);
          exact = omega (arith, v.exact, finished-append p.finished (a, r));
          emits =
              ap (λ es. es ++ results r) v.emits ∙ sym (finished_results-append p.finished (a, r));
        }

    on_done-IsPool :
        (n : ℕ) (d : Done A B) (p : AsyncPool A B)
        → Honest d p
        → IsPool n p
        → IsPool n (on_done d p)
    unfolding on_done
    on_done-IsPool n (pulled items) p honest v = record {
      same_max = v.same_max;
      room = omega (arith, v.room, length-append p.in_flight items);
      exact = omega (arith, v.exact, mass-append f p.in_flight items, mass-append f p.given items);
      emits = v.emits;
    }
    on_done-IsPool n (processed i r) p honest v =
        complete-IsPool n i r (get_elem? p.in_flight i) p refl v

    on_all_done-IsPool :
        (n : ℕ) (ds : List (Done A B)) (p : AsyncPool A B)
        → AllHonest ds p
        → IsPool n p
        → IsPool n (on_all_done ds p)
    unfolding on_all_done
    on_all_done-IsPool n [] p all v = v
    on_all_done-IsPool n (d ∷ ds) p all v =
        on_all_done-IsPool n ds (on_done d p) all.1 (on_done-IsPool n d p all.0 v)

    -- The pool that a run leaves, before its last look for a pull to start.
    run_async-arms :
        (n : ℕ) (waits : List (List (Done A B))) (p : AsyncPool A B)
        → WaitsHonest waits p
        → IsPool n p
        → (q : AsyncPool A B) × (run_async waits p ≡ arm q) × IsPool n q
    unfolding run_async
    run_async-arms n [] p honest v = (p, refl, v)
    run_async-arms n (ds ∷ waits) p honest v = elim (Bool-cases (is_over (arm p))) [
      | inl over ↦ rw over (p, refl, v)
      | inr goes ↦ rw goes (
          run_async-arms n waits (on_all_done ds (arm p)) honest.1
            (on_all_done-IsPool n ds (arm p) honest.0 (arm-IsPool n p v)))
    ]

    new_pool-IsPool : (n : ℕ) → IsPool n (new_pool n)
    unfolding new_pool
    new_pool-IsPool n = record { same_max = refl; room = omega arith; exact = refl; emits = refl }

    -- At any moment of a pool, whatever its tasks come to and in whatever order: at most
    -- `max_concurrent` items are in flight, those in flight and those finished are, as a multiset, the
    -- items that were pulled, and the pool has emitted what the finished tasks returned, in the order
    -- in which they finished. A pull brings no more than it was asked for.
    pub run_async-keeps :
        (n : ℕ) (waits : List (List (Done A B)))
        → WaitsHonest waits (new_pool n)
        → let p = run_async waits (new_pool n) in
          (length p.in_flight ≤ n)
          × (mass f p.in_flight + mass f (finished_items p.finished) ≡ mass f p.given)
          × (p.emitted ≡ finished_results p.finished)
    run_async-keeps n waits honest =
        let (q, e, v) = run_async-arms n waits (new_pool n) honest (new_pool-IsPool n) in
        let w = arm-IsPool n q v in rw e (omega (arith, w.room), w.exact, w.emits)

    Ends : AsyncPool A B → Type ℓ
    Ends p = is_over p ≡ true → (p.in_flight ≡ []) × (p.upstream_done ≡ true)

    arm_pull-over :
        (n : ℕ) (o : Option ℕ) (p : AsyncPool A B)
        → 0 < n
        → p.pull_task ≡ o
        → IsPool n p
        → Ends (arm_pull o p)
    unfolding arm_pull is_over is_waiting Ends
    arm_pull-over n (some need) p positive e v over =
        absurd (let stuck : is_empty p.in_flight && false ≡ true = rw e at over in ground arith)
    arm_pull-over n none p positive e v over =
        if_rule (λ q. Ends q) (not p.upstream_done && ltb (length p.in_flight) p.max_concurrent) _ _
          (λ _ over. absurd (ground arith))
          (λ full over.
            let none_left : is_empty p.in_flight ≡ true = ground arith in
            let nothing_there = is_empty-nil p.in_flight none_left in
            let no_items : length p.in_flight ≡ 0 = rw nothing_there refl in
            (nothing_there, ground (arith, v.same_max)))
          over

    arm-over :
        (n : ℕ) (p : AsyncPool A B)
        → 0 < n
        → IsPool n p
        → is_over (arm p) ≡ true
        → ((arm p).in_flight ≡ []) × ((arm p).upstream_done ≡ true)
    unfolding arm Ends
    arm-over n p positive v over = arm_pull-over n p.pull_task p positive refl v over

    -- A pool with a place for a task ends only after a pull that has brought nothing, and then every
    -- item that it pulled has finished, once.
    pub run_async-ended :
        (n : ℕ) (waits : List (List (Done A B)))
        → 0 < n
        → WaitsHonest waits (new_pool n)
        → is_over (run_async waits (new_pool n)) ≡ true
        → let p = run_async waits (new_pool n) in
          (pulled_nothing waits ≡ true)
          × (p.in_flight ≡ [])
          × (mass f (finished_items p.finished) ≡ mass f p.given)
    run_async-ended n waits positive honest over =
        let (q, e, v) = run_async-arms n waits (new_pool n) honest (new_pool-IsPool n) in
        let (empty, done) = arm-over n q positive v (rw e at over) in
        let w = arm-IsPool n q v in
        let ended = run_async-upstream_done waits (new_pool n) (rw e done) in
        rw e (
          (unfold new_pool in ended),
          empty,
          (let x : mass f (arm q).in_flight ≡ 0 = rw empty refl in omega (arith, w.exact)),
        )
