-- ===== src/Worker/Tests.antt =====
-- The run loop of a worker at concrete inputs: a stage that doubles its items, in batches of two.
use gpupipe.Prelude.{
  get_elem?, take, some, ℕ, ◌*◌, ◌≡◌, refl, List, [], ◌∷◌, ◌++◌, true, false, none, map, arith,
}
use gpupipe.Types.{item, chunk, payloads}
use gpupipe.Channel.Input.{InputChannel, open_channel, get}
use gpupipe.Channel.Input.Keeps.{IsSound}
use gpupipe.Channel.Output.Order.{accepted}
use gpupipe.Worker.{
  no_faults, reached, value, none_value, other, Outcome, generator, raises, not_asked, released,
  Config, Poll, Tick, Event, called, running, ended, cut_short,
}
use gpupipe.Worker.Batch.{filled, fill_batch}
use gpupipe.Worker.Batch.Fill.{Fills}
use gpupipe.Channel.Output.{init, send, maybe_flush}
use gpupipe.Worker.Pull.{pull}
use gpupipe.Worker.Pull.Keeps.{pull-keeps}
use gpupipe.Worker.Loop.{start, run_loop}
use gpupipe.Worker.Loop.Owed.{outputs}
use gpupipe.Worker.Loop.Outputs.{run_loop-outputs}
use gpupipe.Worker.Loop.Given.{Arrived, Conserved}
use gpupipe.Worker.Loop.Once.{run_loop-inputs}
use gpupipe.Worker.Loop.Shutdown.{run_loop-drained}
use gpupipe.Worker.Loop.Ended.{EndsBecause, empty_polls, run_loop-ended}
use gpupipe.Worker.Exit.{returning, shut_down}
use gpupipe.Worker.Exit.Delivery.{shut_down-delivers}

abbrev batching : Config
batching = record {
  batch_size = 2;
  drain = true;
  empty_threshold = 3;
  raise_errors = false;
  timing = true;
}

abbrev ms : ℕ → ℕ
ms k = 10 * k

-- The stage fails once it has been called before.
abbrev double : List (Event ℕ ℕ) → List ℕ → Outcome ℕ
double [] xs = generator (none_value ∷ map (λ x. value (2 * x)) xs) none
double (e ∷ es) xs = raises other

abbrev a_poll : Poll ℕ
a_poll = record { arrivals = item 6 ∷ []; late = false; late_after = false }

abbrev a_tick : Tick ℕ ℕ
a_tick = record {
  should_stop = false;
  drain_event = false;
  upstream_done = true;
  broken = false;
  arrivals = chunk (5 ∷ []) ∷ [];
  park = not_asked;
  polls = a_poll ∷ [];
  gen_stop = none;
  faults = no_faults;
}

abbrev quiet_tick : Tick ℕ ℕ
quiet_tick = record a_tick { arrivals = []; polls = [] }

abbrev parking_tick : Tick ℕ ℕ
parking_tick = record quiet_tick { park = released (value 77 ∷ []) }

abbrev ticks : List (Tick ℕ ℕ)
ticks = a_tick ∷ parking_tick ∷ a_tick ∷ []

first_batch :
    (run_loop batching ms double (a_tick ∷ []) (start [] 4 50)).0.trace
    ≡ called (5 ∷ 6 ∷ []) none (generator (none_value ∷ value 10 ∷ value 12 ∷ []) none) ∷ []
unfolding run_loop start get fill_batch cut_short
first_batch = refl

run_loop-outputs_example :
    accepted (run_loop batching ms double ticks (start [] 4 50)).0.out_ch
    ≡ outputs (run_loop batching ms double ticks (start [] 4 50)).0.trace
run_loop-outputs_example =
    run_loop-outputs batching ms double ticks [] 4 50 (refl, (refl, (refl, tt)))

run_loop-inputs_example :
    (came : List ℕ) × Arrived ticks came
    × Conserved (1 ∷ came) (run_loop batching ms double ticks (start (item 1 ∷ []) 4 50))
run_loop-inputs_example =
    run_loop-inputs batching ms double ticks (item 1 ∷ []) 4 50
      (
        (refl, refl),
        (omega arith, tt),
        ((tt, tt), tt),
        ((refl, refl), tt, tt, ((refl, refl), (omega arith, tt), ((tt, tt), tt), tt)),
      )
      (tt, tt)

run_loop-drained_example :
    (run_loop batching ms double (quiet_tick ∷ quiet_tick ∷ quiet_tick ∷ []) (start [] 4 50)).1
    ≡ ended
run_loop-drained_example =
    run_loop-drained batching ms double (quiet_tick ∷ quiet_tick ∷ quiet_tick ∷ []) 4 50
      (
        (refl, refl, refl, refl, refl, refl),
        ((refl, refl, refl, refl, refl, refl), ((refl, refl, refl, refl, refl, refl), tt)),
      )
      (omega arith)

abbrev last_flow : List (Tick ℕ ℕ)
last_flow = a_tick ∷ quiet_tick ∷ quiet_tick ∷ quiet_tick ∷ []

run_loop-ended_example :
    (t : Tick ℕ ℕ) × (i : ℕ) × (get_elem? last_flow i ≡ some t)
    × ((run_loop batching ms double (take i last_flow) (start [] 4 50)).1 ≡ running)
    × EndsBecause batching ms double t (empty_polls batching ms double 0 last_flow (start [] 4 50))
run_loop-ended_example =
    run_loop-ended batching ms double last_flow [] 4 50
      (unfold run_loop start get fill_batch cut_short in refl)

-- A put that raises loses its chunk, and the loop goes on.
loses_a_chunk :
    accepted
      (run_loop batching ms double
        (record a_tick { faults = record no_faults { send_fails = some (1, other) } }
          ∷ quiet_tick
          ∷ [])
        (start [] 2 50)).0.out_ch
    ≡ []
unfolding run_loop start get fill_batch cut_short reached send maybe_flush
loses_a_chunk = refl

shut_down-delivers_example :
    let w = (run_loop batching ms double ticks (start [] 4 50)).0 in
    let r = shut_down ms none none (returning (value 3 ∷ none_value ∷ [])) w in
    (r.1 ≡ ended)
    × (r.0.out_ch.pending ≡ [])
    × (payloads r.0.out_ch.queue ≡ outputs w.trace ++ value 3 ∷ [])
shut_down-delivers_example =
    shut_down-delivers batching ms double ticks [] 4 50 (returning (value 3 ∷ none_value ∷ []))
      (refl, (refl, (refl, tt)))

-- Two of three payloads are pulled.
pull-keeps_example :
    ((items : List ℕ) × (ch' : InputChannel ℕ) × ((pull 80
          (a_poll ∷ a_poll ∷ [])
          2
          (open_channel (item 4 ∷ item 5 ∷ []))
          (init {A = ℕ} 4 50)).0
        ≡ filled items ch')
      × IsSound ch'
      × Fills (a_poll ∷ a_poll ∷ []) 2 (open_channel (item 4 ∷ item 5 ∷ [])) [] (filled items ch'))
    × (accepted
          (pull 80
            (a_poll ∷ a_poll ∷ [])
            2
            (open_channel (item 4 ∷ item 5 ∷ []))
            (init {A = ℕ} 4 50)).1
        ≡ accepted (init {A = ℕ} 4 50))
unfolding open_channel
pull-keeps_example =
    pull-keeps 80 (a_poll ∷ a_poll ∷ []) 2 (open_channel (item 4 ∷ item 5 ∷ [])) (init 4 50)
      ((tt, tt), ((tt, tt), tt)) (record { is_deque = tt; non_empty = (tt, (tt, tt)) })
