-- ===== src/Threads/Tests.antt =====
-- Threads of a stage at concrete schedules.
use gpupipe.Prelude.{
  zero, suc, mass, ℕ, ◌+◌, ◌*◌, ◌≡◌, refl, ◌≢◌, true, false, none, some, List, [], ◌∷◌, arith,
  get_elem?,
}
use gpupipe.Types.{Msg, item, chunk, ctrl, end_of_stream, payloads}
use gpupipe.Queue.{ShmQueue, put}
use gpupipe.Channel.Input.{get, open_channel}
use gpupipe.Channel.Output.{init, maybe_flush, flush}
use gpupipe.Channel.Output.Order.{accepted}
use gpupipe.Worker.{Yield, Config, single, value, none_value, running}
use gpupipe.Worker.Loop.{start, process}
use gpupipe.Worker.Loop.Owed.{outputs}
use gpupipe.Worker.Exit.{returning}
use gpupipe.Threads.{idle, Turn, Thread, Pool, Move, arrives, turn, moves, spawn, stay}
use gpupipe.Threads.Once.{owned, arrived, moves-mass}
use gpupipe.Threads.Drained.{IsCalm, given_by, moves-given}
use gpupipe.Threads.Outputs.{moves-outputs, TurnLands}
use gpupipe.Threads.Exit.{run_thread_hook}

abbrev pairs : Config
pairs = record {
  batch_size = 2;
  drain = true;
  empty_threshold = 1;
  raise_errors = false;
  timing = true;
}

abbrev ms : ℕ → ℕ
ms k = 10 * k

abbrev calm_turn : Turn ℕ
calm_turn = record {
  stop = false;
  stop_after = false;
  drain_event = false;
  upstream_done = true;
  broken = false;
  late = false;
  late_after = true;
  gen_stop = none;
  age_fails = false;
  send_fails = none;
  flush_fails = none;
  answer = single (value 7);
}

-- Two threads: the first takes 1 and waits for more, the second unpacks the chunk, and so on.
abbrev schedule : List (Move ℕ ℕ)
schedule =
    turn 0 calm_turn
    ∷ turn 1 calm_turn
    ∷ arrives (item 4 ∷ [])
    ∷ turn 0 calm_turn
    ∷ turn 1 calm_turn
    ∷ turn 0 calm_turn
    ∷ turn 1 calm_turn
    ∷ turn 0 calm_turn
    ∷ turn 1 calm_turn
    ∷ turn 0 calm_turn
    ∷ []

abbrev queued : List (Msg ℕ)
queued = item 1 ∷ chunk (2 ∷ 3 ∷ []) ∷ ctrl end_of_stream ∷ []

abbrev two_threads : Pool ℕ ℕ
two_threads = moves pairs ms schedule (spawn 2 queued 1 50)

shares_the_queue : given_by two_threads.threads ≡ 1 ∷ 4 ∷ 2 ∷ 3 ∷ []
unfolding moves spawn start get open_channel init process maybe_flush flush
shares_the_queue = refl

moves-mass_example :
    owned (λ x. x) two_threads.threads + mass (λ x. x) (payloads two_threads.queue)
    ≡ mass (λ x. x) (payloads queued) + mass (λ x. x) (arrived schedule)
moves-mass_example =
    moves-mass (λ x. x) pairs ms 2 queued 1 50 schedule (tt, (omega arith, (tt, tt)))
      (refl, (refl, ((tt, tt), (refl, (refl, (refl, (refl, (refl, (refl, (refl, tt))))))))))

calm : IsCalm calm_turn
calm = record {
  not_stopped = refl;
  not_stopped_after = refl;
  not_drained = refl;
  not_broken = refl;
  sends_land = refl;
  age_checked = refl;
  mild = tt;
}

moves-given_example :
    mass (λ x. x) (given_by two_threads.threads) + mass (λ x. x) (payloads two_threads.queue)
    ≡ mass (λ x. x) (payloads queued) + mass (λ x. x) (arrived schedule)
unfolding moves spawn start get open_channel init process maybe_flush flush
moves-given_example =
    moves-given (λ x. x) pairs ms 2 queued 1 50 schedule refl (tt, (omega arith, (tt, tt)))
      (calm, (calm, ((tt, tt), (calm, (calm, (calm, (calm, (calm, (calm, (calm, tt))))))))))
      (λ e. absurd cc, (λ e. absurd cc, tt))

abbrev second : Thread ℕ ℕ
second = elim (get_elem? two_threads.threads 1) [ none ↦ stay idle (start [] 1 50) | some th ↦ th ]

lands : TurnLands calm_turn
lands = record { age_lands = refl; sends_land = refl; flush_lands = refl }

moves-outputs_example :
    (accepted second.worker.out_ch ≡ outputs second.worker.trace)
    × (second.status ≢ running → second.worker.out_ch.pending ≡ [])
unfolding moves spawn start get open_channel init process maybe_flush flush
moves-outputs_example =
    moves-outputs pairs ms 2 queued 1 50 schedule 1 second
      (lands, (lands, (tt, (lands, (lands, (lands, (lands, (lands, (lands, (lands, tt)))))))))) refl

abbrev small_queue : ShmQueue (Msg (Yield ℕ))
small_queue = record { maxsize = 2; items = item (value 1) ∷ [] }

-- Nobody takes anything during the first and the third put, and one message goes during the second.
abbrev takes : ℕ → ℕ
takes zero = 0
takes (suc zero) = 1
takes (suc (suc k)) = 0

drops_last :
    (run_thread_hook takes (returning (value 2 ∷ none_value ∷ value 3 ∷ [])) small_queue).1.items
    ≡ item (value 2) ∷ item none_value ∷ []
unfolding run_thread_hook put
drops_last = refl
