-- ===== src/Worker/Loop/Shutdown.antt =====
-- When the loop of `_worker_run` ends.
use gpupipe.Prelude.{
  ℕ, suc, ◌+◌, ◌<◌, ◌≡◌, refl, ◌∙◌, inl, inr, Bool, true, false, not, ◌&&◌, List, [], ◌∷◌, arith,
  leb, if◌then◌else◌, Bool-cases, length, All,
}
use gpupipe.Channel.Input.{open_channel, get}
use gpupipe.Channel.Output.{init, maybe_flush}
use gpupipe.Worker.{
  Outcome, not_asked, Config, Tick, Event, Worker, Verdict, running, ended, broken_connection, left,
  crashed,
}
use gpupipe.Worker.Batch.{arrive}
use gpupipe.Worker.Loop.{
  after_park, age_due, maybe_park, on_read, receive_next, begin, iterate, go_on, run_loop, start,
}

module _ {ℓ} {A B : Type ℓ} (cfg : Config) (clock : ℕ → ℕ)
    (call : List (Event A B) → List A → Outcome B) where
  -- An iteration that finds nothing: no stop, no drain that this stage obeys, nothing arrived.
  abbrev pub IsQuiet : Tick A B → Type ℓ
  IsQuiet t =
      (t.should_stop ≡ false)
      × ((not cfg.drain && t.drain_event) ≡ false)
      × (t.broken ≡ false)
      × (t.arrivals ≡ [])
      × (t.park ≡ not_asked)
      × (t.upstream_done ≡ true)

  -- A worker on an empty queue that has met `k` empty polls in a row and has nothing to send.
  abbrev pub IsIdle : ℕ → Worker A B → Type ℓ
  IsIdle k w = (w.in_ch ≡ open_channel []) × (w.consecutive_empty ≡ k) × (w.out_ch.pending ≡ [])

  iterate-quiet :
      (t : Tick A B) (w : Worker A B) (k : ℕ)
      → IsQuiet t
      → IsIdle k w
      → IsIdle (k + 1) (iterate cfg clock call t w).0
        × ((iterate cfg clock call t w).1
            ≡ (if leb cfg.empty_threshold (k + 1) then ended else running))
  unfolding iterate receive_next begin get on_read maybe_park arrive open_channel after_park age_due
      maybe_flush
  iterate-quiet t w k quiet idle = ground arith

  go_on-quiet :
      (more : Worker A B → Worker A B × Verdict) (r : Worker A B × Verdict) (b : Bool)
      → r.1 ≡ (if b then ended else running)
      → (go_on more r).1 ≡ (if b then ended else (more r.0).1)
  unfolding go_on
  go_on-quiet more (w, running) true e = cc
  go_on-quiet more (w, running) false e = refl
  go_on-quiet more (w, ended) true e = refl
  go_on-quiet more (w, ended) false e = cc
  go_on-quiet more (w, broken_connection) b e = ground arith
  go_on-quiet more (w, left) b e = ground arith
  go_on-quiet more (w, crashed) b e = ground arith

  run_loop-idle :
      (ticks : List (Tick A B)) (w : Worker A B) (k : ℕ)
      → All IsQuiet ticks
      → IsIdle k w
      → k < cfg.empty_threshold
      → (run_loop cfg clock call ticks w).1
        ≡ (if leb cfg.empty_threshold (k + length ticks) then ended else running)
  unfolding run_loop
  run_loop-idle [] w k quiet idle below = ground arith
  run_loop-idle (t ∷ ticks) w k quiet idle below =
      let (idle', verdict) = iterate-quiet t w k quiet.0 idle in
      go_on-quiet (run_loop cfg clock call ticks) (iterate cfg clock call t w) _ verdict
      ∙ later (run_loop-idle ticks (iterate cfg clock call t w).0 (k + 1) quiet.1 idle')
    where
      later :
          {v : Verdict}
          → (k + 1 < cfg.empty_threshold
              → v ≡ (if leb cfg.empty_threshold (k + 1 + length ticks) then ended else running))
          → (if leb cfg.empty_threshold (k + 1) then ended else v)
            ≡ (if leb cfg.empty_threshold (k + suc (length ticks)) then ended else running)
      later rec = elim (Bool-cases (leb cfg.empty_threshold (k + 1))) [
        | inl full ↦ rw full (ground arith)
        | inr more ↦ rw more (
            rec (ground arith)
            ∙ (let e : k + 1 + length ticks ≡ k + suc (length ticks) = omega arith in rw e))
      ]

  -- Once upstream is done and nothing comes any more, the loop ends after exactly
  -- `empty_threshold` empty polls: not before, and not later.
  pub run_loop-drained :
      (ticks : List (Tick A B)) (chunk_size chunk_ms : ℕ)
      → All IsQuiet ticks
      → 0 < cfg.empty_threshold
      → (run_loop cfg clock call ticks (start [] chunk_size chunk_ms)).1
        ≡ (if leb cfg.empty_threshold (length ticks) then ended else running)
  unfolding start init
  run_loop-drained ticks chunk_size chunk_ms quiet some_poll =
      let none_yet : 0 + length ticks ≡ length ticks = omega arith in
      rw none_yet at
        (run_loop-idle ticks (start [] chunk_size chunk_ms) 0 quiet (refl, refl, refl) some_poll)
