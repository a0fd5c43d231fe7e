-- ===== src/Threads/Drained.antt =====
-- When all the threads of a stage have ended by themselves, in `_threaded_worker_run`.
use gpupipe.Prelude.{
  mass, mass-append, ℕ, ◌+◌, ◌≡◌, refl, ap, sym, subst, ◌≢◌, ◌⊎◌, inl, inr, false, not, ◌&&◌, ◌||◌,
  Option, none, some, List, [], ◌∷◌, ◌++◌, arith, ltb, leb, if_rule, length, get_elem?, All,
  All-set, All-replicate,
}
use gpupipe.Types.{Msg, Sentinel, end_of_stream, worker_stop, payloads, ctrl}
use gpupipe.Channel.Input.{
  contents, Read, payload, control, empty, index_error, attribute_error, get, put,
}
use gpupipe.Channel.Input.Reads.{NonEmpty, requeue-keeps}
use gpupipe.Worker.{
  Config, Worker, Verdict, running, ended, broken_connection, left, crashed, other,
}
use gpupipe.Worker.Loop.{process, on_error}
use gpupipe.Worker.Loop.Verdicts.{IsMild, process-running}
use gpupipe.Channel.Input.Keeps.{contents-get-empty}
use gpupipe.Worker.Loop.Given.{inputs}
use gpupipe.Threads.{
  idle, filling, stopping, returning, requeueing, Hand, due, Turn, Thread, Pool, Move, arrives,
  turn, attach, is_running, replace, run_turn, move, moves, spawn, thread_step, stay, leave, settle,
  work, take_item, take_control, take_read, check_age, read_next, take_poll, fill_next, next_step,
}
use gpupipe.Threads.Holds.{in_hand}
use gpupipe.Threads.Once.{arrived, IsWhole, owned, moves-mass}

-- Nothing from outside ends a thread.
pub record IsCalm {ℓ} {B : Type ℓ} (t : Turn B) : Type 0 where
  pub not_stopped : t.stop ≡ false
  pub not_stopped_after : t.stop_after ≡ false
  pub not_drained : t.drain_event ≡ false
  pub not_broken : t.broken ≡ false
  pub sends_land : t.send_fails ≡ none
  pub age_checked : t.age_fails ≡ false
  pub mild : IsMild t.answer

-- A thread that has ended holds no payload.
abbrev pub IsClear {ℓ} : {A B : Type ℓ} → Thread A B → Type ℓ
IsClear th = (th.status ≡ running) ⊎ ((contents th.worker.in_ch.buf ≡ []) × (in_hand th.hand ≡ []))

module _ {ℓ} {A B : Type ℓ} (cfg : Config) (clock : ℕ → ℕ) (t : Turn B)
    (lenient : cfg.raise_errors ≡ false) (calm : IsCalm t) where
  settle-IsClear : (r : Worker A B × Verdict) → r.1 ≡ running → IsClear (settle t.flush_fails r)
  unfolding settle stay
  settle-IsClear (w, running) e = inl refl
  settle-IsClear (w, ended) e = absurd cc
  settle-IsClear (w, broken_connection) e = absurd cc
  settle-IsClear (w, left) e = absurd cc
  settle-IsClear (w, crashed) e = absurd cc

  work-IsClear : (items : List A) (w : Worker A B) → IsClear (work cfg clock t items w)
  unfolding work
  work-IsClear items w =
      settle-IsClear (process cfg clock (λ _ _. t.answer) t.send_fails t.gen_stop items w) (
        subst (λ o. (process cfg clock (λ _ _. t.answer) o t.gen_stop items w).1 ≡ running)
          (sym calm.sends_land)
          (process-running cfg clock t.gen_stop t.answer items w lenient calm.mild))

  error-IsClear : (w : Worker A B) → IsClear (settle t.flush_fails (on_error cfg other w))
  error-IsClear w =
      settle-IsClear (on_error cfg other w) (unfold on_error in ground (arith, lenient))

  control-IsClear : (s : Sentinel) (w : Worker A B) → IsClear (take_control s w)
  unfolding take_control stay
  control-IsClear end_of_stream w = inl refl
  control-IsClear worker_stop w = inl refl

  read-IsClear :
      (r : Read A) (w : Worker A B)
      → (r ≡ empty → contents w.in_ch.buf ≡ [])
      → IsClear (take_read cfg clock t r w)
  unfolding take_read take_item leave stay
  read-IsClear (payload a) w none_left =
      if_rule IsClear t.stop_after _ _ (λ h. absurd (ground (arith, calm.not_stopped_after)))
        (λ _.
          if_rule IsClear (ltb 0 cfg.batch_size) _ _ (λ _. inl refl)
            (λ _. work-IsClear (a ∷ []) (record w { consecutive_empty = 0 })))
  read-IsClear (control s) w none_left =
      if_rule IsClear t.stop_after _ _ (λ h. absurd (ground (arith, calm.not_stopped_after)))
        (λ _. control-IsClear s (record w { consecutive_empty = 0 }))
  read-IsClear empty w none_left =
      if_rule IsClear (t.upstream_done && leb cfg.empty_threshold (w.consecutive_empty + 1)) _ _
        (λ _. inr (none_left refl, refl)) (λ _. inl refl)
  read-IsClear index_error w none_left = error-IsClear w
  read-IsClear attribute_error w none_left = error-IsClear w

  poll-IsClear : (b : List A) (r : Read A) (w : Worker A B) → IsClear (take_poll cfg clock t b r w)
  unfolding take_poll stay
  poll-IsClear b (payload a) w = inl refl
  poll-IsClear b (control end_of_stream) w = inl refl
  poll-IsClear b (control worker_stop) w = inl refl
  poll-IsClear b empty w = if_rule IsClear t.late_after _ _ (λ _. work-IsClear b w) (λ _. inl refl)
  poll-IsClear b index_error w = error-IsClear w
  poll-IsClear b attribute_error w = error-IsClear w

  step-IsClear : (hand : Hand A) (w : Worker A B) → IsClear (next_step cfg clock t hand w)
  unfolding next_step read_next fill_next check_age leave stay
  step-IsClear idle w =
      if_rule IsClear t.stop _ _ (λ h. absurd (ground (arith, calm.not_stopped)))
        (λ _.
          if_rule IsClear (t.age_fails && due clock w) _ _
            (λ h. absurd (ground (arith, calm.age_checked)))
            (λ _.
              if_rule IsClear (not cfg.drain && t.drain_event) _ _
                (λ h. absurd (ground (arith, calm.not_drained)))
                (λ _.
                  if_rule IsClear t.broken _ _ (λ h. absurd (ground (arith, calm.not_broken)))
                    (λ _.
                      read-IsClear (get w.in_ch).0
                        (record (check_age clock w) { in_ch = (get w.in_ch).1 })
                        (contents-get-empty w.in_ch)))))
  step-IsClear (stopping b) w = work-IsClear b (record w { in_ch = put (ctrl worker_stop) w.in_ch })
  step-IsClear (returning m) w = inl refl
  step-IsClear requeueing w = inr ((requeue-keeps w.in_ch).0, refl)
  step-IsClear (filling b) w =
      if_rule IsClear (leb cfg.batch_size (length b) || t.late) _ _ (λ _. work-IsClear b w)
        (λ _.
          if_rule IsClear t.broken _ _ (λ h. absurd (ground (arith, calm.not_broken)))
            (λ _. poll-IsClear b (get w.in_ch).0 (record w { in_ch = (get w.in_ch).1 })))

  run_turn-IsClear :
      (i : ℕ) (o : Option (Thread A B)) (p : Pool A B)
      → All IsClear p.threads
      → All IsClear (run_turn cfg clock i t o p).threads
  unfolding run_turn replace thread_step
  run_turn-IsClear i none p all = all
  run_turn-IsClear i (some th) p all =
      if_rule (λ (q : Pool A B). All IsClear q.threads) (is_running th.status) _ p
        (λ _.
          All-set IsClear p.threads i _ all
            (step-IsClear (attach p.queue th).hand (attach p.queue th).worker))
        (λ _. all)

module _ {ℓ} {A B : Type ℓ} where
  abbrev pub IsQuiet : Move A B → Type 0
  IsQuiet (arrives ms) = All NonEmpty ms
  IsQuiet (turn i t) = IsCalm t

  abbrev pub HasEnded : Thread A B → Type 0
  HasEnded th = th.status ≢ running

  -- What the threads have given to the stage.
  abbrev pub given_by : List (Thread A B) → List A
  given_by [] = []
  given_by (th ∷ ths) = inputs th.worker.trace ++ given_by ths

  quiet-IsWhole : (ms : List (Move A B)) → All IsQuiet ms → All IsWhole ms
  quiet-IsWhole [] all = tt
  quiet-IsWhole (arrives new ∷ ms) all = (all.0, quiet-IsWhole ms all.1)
  quiet-IsWhole (turn i t ∷ ms) all = (all.0.not_broken, quiet-IsWhole ms all.1)

  moves-IsClear :
      (cfg : Config) (clock : ℕ → ℕ) (ms : List (Move A B)) (p : Pool A B)
      → cfg.raise_errors ≡ false
      → All IsQuiet ms
      → All IsClear p.threads
      → All IsClear (moves cfg clock ms p).threads
  unfolding moves move
  moves-IsClear cfg clock [] p lenient quiet all = all
  moves-IsClear cfg clock (arrives new ∷ ms) p lenient quiet all =
      moves-IsClear cfg clock ms (record p { queue = p.queue ++ new }) lenient quiet.1 all
  moves-IsClear cfg clock (turn i t ∷ ms) p lenient quiet all =
      moves-IsClear cfg clock ms (move cfg clock (turn i t) p) lenient quiet.1
        (run_turn-IsClear cfg clock t lenient quiet.0 i (get_elem? p.threads i) p all)

  owned-clear :
      (f : A → ℕ) (ths : List (Thread A B))
      → All IsClear ths
      → All HasEnded ths
      → owned f ths ≡ mass f (given_by ths)
  owned-clear f [] clear over = refl
  owned-clear f (th ∷ ths) clear over = elim clear.0 [
    | inl runs ↦ absurd (over.0 runs)
    | inr (no_buffer, no_batch) ↦ omega (
      arith,
      ap (mass f) no_buffer,
      ap (mass f) no_batch,
      owned-clear f ths clear.1 over.1,
      mass-append f (inputs th.worker.trace) (given_by ths),
    )
  ]

  -- If errors are not raised, no chunk is empty, no turn finds a stop, a drain, a failing get or put
  -- or a call that breaks a connection, and every thread has ended, then, whatever the interleaving, what the
  -- stage has been given and what is left on the shared queue are, as a multiset, what was on the
  -- queue and what arrived.
  pub moves-given :
      (f : A → ℕ) (cfg : Config) (clock : ℕ → ℕ) (num_threads : ℕ) (q : List (Msg A))
      (chunk_size chunk_ms : ℕ) (ms : List (Move A B))
      → cfg.raise_errors ≡ false
      → All NonEmpty q
      → All IsQuiet ms
      → All HasEnded (moves cfg clock ms (spawn num_threads q chunk_size chunk_ms)).threads
      → let p = moves cfg clock ms (spawn num_threads q chunk_size chunk_ms) in
        mass f (given_by p.threads) + mass f (payloads p.queue)
        ≡ mass f (payloads q) + mass f (arrived ms)
  moves-given f cfg clock num_threads q chunk_size chunk_ms ms lenient ne quiet over =
      let p = moves cfg clock ms (spawn num_threads q chunk_size chunk_ms) in
      let clear =
        moves-IsClear cfg clock ms (spawn num_threads q chunk_size chunk_ms) lenient quiet
          (unfold spawn stay in All-replicate IsClear num_threads _ (inl refl)) in
      omega (
        arith,
        owned-clear f p.threads clear over,
        moves-mass f cfg clock num_threads q chunk_size chunk_ms ms ne (quiet-IsWhole ms quiet),
      )
