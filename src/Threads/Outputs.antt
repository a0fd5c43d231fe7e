-- ===== src/Threads/Outputs.antt =====
-- What each thread of a stage sends downstream, in `_threaded_worker_run`.
use gpupipe.Prelude.{
  ℕ, ◌+◌, ◌≡◌, refl, sym, subst, false, ◌∙◌, ◌≢◌, not, ◌&&◌, ◌||◌, Option, none, some, List, [],
  ◌∷◌, ◌++◌, arith, ltb, leb, if_rule, length, get_elem?, All, All-set, All-get_elem?,
  All-replicate,
}
use gpupipe.Types.{Msg, Sentinel, end_of_stream, worker_stop, item, ctrl}
use gpupipe.Channel.Input.{
  Read, payload, control, empty, index_error, attribute_error, get, requeue_buffered, put,
}
use gpupipe.Channel.Output.{init}
use gpupipe.Channel.Output.Bounds.{maybe_flush-IsValid}
use gpupipe.Channel.Output.Order.{accepted, accepted-maybe_flush, pending-flush}
use gpupipe.Worker.Emit.{flush_or_fail}
use gpupipe.Worker.{
  Config, Worker, Verdict, running, ended, broken_connection, left, crashed, other,
}
use gpupipe.Worker.Loop.{process, on_error, start}
use gpupipe.Worker.Loop.Owed.{outputs, Tracks}
use gpupipe.Worker.Loop.Outputs.{Good, process-Keeps, on_error-Keeps, flush-Good}
use gpupipe.Threads.{
  Hand, idle, filling, stopping, returning, requeueing, due, Turn, Thread, Pool, Move, arrives,
  turn, attach, is_running, replace, run_turn, move, moves, spawn, thread_step, stay, leave, settle,
  work, take_item, take_control, take_read, check_age, read_next, take_poll, fill_next, next_step,
}

-- Every put of the turn lands.
pub record TurnLands {ℓ} {B : Type ℓ} (t : Turn B) : Type 0 where
  pub age_lands : t.age_fails ≡ false
  pub sends_land : t.send_fails ≡ none
  pub flush_lands : t.flush_fails ≡ none

module _ {ℓ} {A B : Type ℓ} where
  -- The puts and the pending payloads of a thread are what its calls yielded; one that has ended
  -- holds nothing pending.
  pub record Tells (th : Thread A B) : Type ℓ where
    pub tracked : Tracks [] th.worker.out_ch th.worker.trace
    pub flushed : th.status ≢ running → th.worker.out_ch.pending ≡ []

  module _ (cfg : Config) (clock : ℕ → ℕ) (t : Turn B) (calm : TurnLands t) where
    Tells-stay : (hand : Hand A) (w : Worker A B) → Good [] cfg clock w → Tells (stay hand w)
    unfolding stay
    Tells-stay hand w g = record { tracked = g; flushed = λ h. absurd (h refl) }

    Tells-leave :
        (v : Verdict) (w : Worker A B) → Good [] cfg clock w → Tells (leave t.flush_fails v w)
    Tells-leave v w g = subst (λ o. Tells (leave o v w)) (sym calm.flush_lands) (landed v w g)
      where
        landed : (v : Verdict) (w : Worker A B) → Good [] cfg clock w → Tells (leave none v w)
        landed v w g =
            unfold leave flush_or_fail in
            record { tracked = flush-Good [] cfg clock w g; flushed = λ _. pending-flush w.out_ch }

    Tells-settle :
        (r : Worker A B × Verdict) → Good [] cfg clock r.0 → Tells (settle t.flush_fails r)
    unfolding settle
    Tells-settle (w, running) g = Tells-stay idle w g
    Tells-settle (w, ended) g = Tells-leave ended w g
    Tells-settle (w, broken_connection) g = Tells-leave broken_connection w g
    Tells-settle (w, left) g = Tells-leave left w g
    Tells-settle (w, crashed) g = Tells-leave crashed w g

    Tells-work :
        (items : List A) (w : Worker A B) → Good [] cfg clock w → Tells (work cfg clock t items w)
    unfolding work
    Tells-work items w g =
        Tells-settle (process cfg clock (λ _ _. t.answer) t.send_fails t.gen_stop items w) (
          subst
            (λ o. Good [] cfg clock (process cfg clock (λ _ _. t.answer) o t.gen_stop items w).0)
            (sym calm.sends_land)
            (process-Keeps [] cfg clock (λ _ _. t.answer) t.gen_stop items w g))

    Tells-error :
        (w : Worker A B) → Good [] cfg clock w → Tells (settle t.flush_fails (on_error cfg other w))
    Tells-error w g = Tells-settle (on_error cfg other w) (on_error-Keeps [] cfg clock other w g)

    Tells-control : (s : Sentinel) (w : Worker A B) → Good [] cfg clock w → Tells (take_control s w)
    unfolding take_control
    Tells-control end_of_stream w g = Tells-stay idle w g
    Tells-control worker_stop w g = Tells-stay requeueing w g

    Tells-read :
        (r : Read A) (w : Worker A B) → Good [] cfg clock w → Tells (take_read cfg clock t r w)
    unfolding take_read take_item
    Tells-read (payload a) w g =
        let w0 : Worker A B = record w { consecutive_empty = 0 } in
        if_rule Tells t.stop_after _ _ (λ _. Tells-stay (returning (item a)) w0 g)
          (λ _.
            if_rule Tells (ltb 0 cfg.batch_size) _ _ (λ _. Tells-stay (filling (a ∷ [])) w0 g)
              (λ _. Tells-work (a ∷ []) w0 g))
    Tells-read (control s) w g =
        let w0 : Worker A B = record w { consecutive_empty = 0 } in
        if_rule Tells t.stop_after _ _ (λ _. Tells-stay (returning (ctrl s)) w0 g)
          (λ _. Tells-control s w0 g)
    Tells-read empty w g =
        let w0 : Worker A B = record w { consecutive_empty = w.consecutive_empty + 1 } in
        if_rule Tells (t.upstream_done && leb cfg.empty_threshold (w.consecutive_empty + 1)) _ _
          (λ _. Tells-leave ended w0 g) (λ _. Tells-stay idle w0 g)
    Tells-read index_error w g = Tells-error w g
    Tells-read attribute_error w g = Tells-error w g

    Tells-poll :
        (b : List A) (r : Read A) (w : Worker A B)
        → Good [] cfg clock w
        → Tells (take_poll cfg clock t b r w)
    unfolding take_poll
    Tells-poll b (payload a) w g = Tells-stay (filling (b ++ a ∷ [])) w g
    Tells-poll b (control end_of_stream) w g = Tells-stay (filling b) w g
    Tells-poll b (control worker_stop) w g = Tells-stay (stopping b) w g
    Tells-poll b empty w g =
        if_rule Tells t.late_after _ _ (λ _. Tells-work b w g) (λ _. Tells-stay (filling b) w g)
    Tells-poll b index_error w g = Tells-error w g
    Tells-poll b attribute_error w g = Tells-error w g

    Tells-step :
        (hand : Hand A) (w : Worker A B)
        → Good [] cfg clock w
        → Tells (next_step cfg clock t hand w)
    unfolding next_step read_next fill_next check_age
    Tells-step idle w g =
        let aged : Good [] cfg clock (check_age clock w) = record {
          valid = maybe_flush-IsValid (clock w.clock_reads) w.out_ch g.valid;
          exact = accepted-maybe_flush (clock w.clock_reads) w.out_ch ∙ g.exact;
        } in
        if_rule Tells t.stop _ _ (λ _. Tells-leave ended w g)
          (λ _.
            if_rule Tells (t.age_fails && due clock w) _ _
              (λ h. absurd (ground (arith, calm.age_lands)))
              (λ _.
                if_rule Tells (not cfg.drain && t.drain_event) _ _
                  (λ _. Tells-leave ended (check_age clock w) aged)
                  (λ _.
                    if_rule Tells t.broken _ _ (λ _. Tells-leave ended (check_age clock w) aged)
                      (λ _.
                        Tells-read (get w.in_ch).0
                          (record (check_age clock w) { in_ch = (get w.in_ch).1 }) aged))))
    Tells-step (stopping b) w g =
        Tells-work b (record w { in_ch = put (ctrl worker_stop) w.in_ch }) g
    Tells-step (returning m) w g = Tells-stay requeueing (record w { in_ch = put m w.in_ch }) g
    Tells-step requeueing w g = Tells-leave ended (record w { in_ch = requeue_buffered w.in_ch }) g
    Tells-step (filling b) w g =
        if_rule Tells (leb cfg.batch_size (length b) || t.late) _ _ (λ _. Tells-work b w g)
          (λ _.
            if_rule Tells t.broken _ _ (λ _. Tells-error w g)
              (λ _. Tells-poll b (get w.in_ch).0 (record w { in_ch = (get w.in_ch).1 }) g))

    Tells-turn :
        (i : ℕ) (o : Option (Thread A B)) (p : Pool A B)
        → get_elem? p.threads i ≡ o
        → All Tells p.threads
        → All Tells (run_turn cfg clock i t o p).threads
    unfolding run_turn replace thread_step attach
    Tells-turn i none p at all = all
    Tells-turn i (some th) p at all =
        if_rule (λ (q : Pool A B). All Tells q.threads) (is_running th.status) _ p
          (λ _. All-set Tells p.threads i _ all (
            Tells-step th.hand (attach p.queue th).worker
              (All-get_elem? Tells p.threads i th all at).tracked))
          (λ _. all)

  abbrev pub MoveLands : Move A B → Type 0
  MoveLands (arrives ms) = Unit
  MoveLands (turn i t) = TurnLands t

  moves-Tells :
      (cfg : Config) (clock : ℕ → ℕ) (ms : List (Move A B)) (p : Pool A B)
      → All MoveLands ms
      → All Tells p.threads
      → All Tells (moves cfg clock ms p).threads
  unfolding moves move
  moves-Tells cfg clock [] p calm all = all
  moves-Tells cfg clock (arrives new ∷ ms) p calm all =
      moves-Tells cfg clock ms (record p { queue = p.queue ++ new }) calm.1 all
  moves-Tells cfg clock (turn i t ∷ ms) p calm all =
      moves-Tells cfg clock ms (move cfg clock (turn i t) p) calm.1
        (Tells-turn cfg clock t calm.0 i (get_elem? p.threads i) p refl all)

  -- If no put raises, every thread of a stage has put or holds pending exactly what its own calls
  -- yielded, in order, and one that has ended holds nothing pending, however it ended.
  pub moves-outputs :
      (cfg : Config) (clock : ℕ → ℕ) (num_threads : ℕ) (q : List (Msg A)) (chunk_size chunk_ms : ℕ)
      (ms : List (Move A B)) (i : ℕ) (th : Thread A B)
      → All MoveLands ms
      → get_elem? (moves cfg clock ms (spawn num_threads q chunk_size chunk_ms)).threads i ≡ some th
      → (accepted th.worker.out_ch ≡ outputs th.worker.trace)
        × (th.status ≢ running → th.worker.out_ch.pending ≡ [])
  moves-outputs cfg clock num_threads q chunk_size chunk_ms ms i th calm at =
      let fresh : Tells (stay idle (start q chunk_size chunk_ms)) =
        unfold stay start init in
        record {
          tracked = record { valid = record { below = omega arith; chunks = tt }; exact = refl };
          flushed = λ h. absurd (h refl);
        } in
      let all =
        moves-Tells cfg clock ms (spawn num_threads q chunk_size chunk_ms) calm
          (unfold spawn in All-replicate Tells num_threads _ fresh) in
      let told = All-get_elem? Tells _ i th all at in (told.tracked.exact, told.flushed)
