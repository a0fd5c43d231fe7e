-- ===== src/Threads.antt =====
-- A stage with `thread=True`: `_threaded_worker_run` of src/pipe/workers.py. Its threads share the
-- input queue; a step is one operation of one thread on that queue, with what the thread does by
-- itself before the next one.
pub mod Holds
pub mod Steps
pub mod Once
pub mod Drained
pub mod Outputs
pub mod Exit
pub mod Root
mod Tests
use gpupipe.Prelude.{
  ℤ, pos, negsuc, String, str_eq, eq_iff, ℕ, zero, suc, ◌+◌, ◌-◌, ◌*◌, ◌/◌, ◌%◌, ◌≤◌, ◌<◌, min, max,
  ◌≡◌, refl, sym, ap, ◌∙◌, subst, ◌≢◌, ◌↔◌, ◌⊎◌, inl, inr, Bool, true, false, not, ◌&&◌, ◌||◌,
  Option, none, some, List, [], ◌∷◌, ◌++◌, map, append-nil, append_assoc, arith, ltb, leb, ◌==◌,
  if◌then◌else◌, ltb→lt, lt→ltb, leb→le, le→leb, Bool-cases, Option-cases, if_rule, length,
  is_empty, get_elem?, set, take, drop, replicate, length-append, length-nil, is_empty-nil,
  is_empty-length, take-append-drop, length-take, length-drop, length-replicate, length-set, All,
  All-append, drop-drop, drop-append, length-map, sum,
}
use gpupipe.Types.{Msg, item, ctrl, Sentinel, end_of_stream, worker_stop}
use gpupipe.Channel.Input.{
  InputChannel, open_channel, Read, payload, control, empty, index_error, attribute_error, get, put,
  requeue_buffered,
}
use gpupipe.Channel.Output.{OutputChannel, init, maybe_flush, flush}
use gpupipe.Worker.Emit.{flush_or_fail}
use gpupipe.Worker.{
  Yield, Error, connection, other, Outcome, Config, Event, Worker, Verdict, running, ended,
  broken_connection, left, crashed,
}
use gpupipe.Worker.Loop.{start, process, on_error}

-- What the environment shows to one step. `stop` is the test at the top of the loop, `stop_after`
-- the test of `should_stop` behind a get, and `answer` how the stage ends if it is called. The fields
-- `_fails` say which puts raise, if they are made, as in Faults.
pub record Turn {ℓ} (B : Type ℓ) : Type ℓ where
  pub stop : Bool
  pub stop_after : Bool
  pub drain_event : Bool
  pub upstream_done : Bool
  pub broken : Bool
  pub late : Bool
  pub late_after : Bool
  pub gen_stop : Option ℕ
  pub age_fails : Bool
  pub send_fails : Option (ℕ × Error)
  pub flush_fails : Option Error
  pub answer : Outcome B

-- What a thread has in hand between two operations on the shared queue: nothing, the batch that it
-- is filling, a batch that a WorkerStop has ended and the WorkerStop to put back, a message to put
-- back before it gives up its buffer, or only its buffer to give up.
pub data Hand {ℓ} (A : Type ℓ) : Type ℓ where
  idle requeueing : Hand A
  filling stopping : List A → Hand A
  returning : Msg A → Hand A

-- A thread: its channels and its counts, what it has in hand, and how it stands.
-- Its input channel names the shared queue; its output channel lists what this thread has put.
pub record Thread {ℓ} (A B : Type ℓ) : Type ℓ where
  pub worker : Worker A B
  pub hand : Hand A
  pub status : Verdict

module _ {ℓ} {A B : Type ℓ} where
  -- Every exit path flushes the partial chunk, which is lost if its put raises.
  unfoldable pub leave : Option Error → Verdict → Worker A B → Thread A B
  unfolding flush_or_fail
  leave fails v w = record {
    worker = record w { out_ch = (flush_or_fail fails w.out_ch).0 };
    hand = idle;
    status = v;
  }

  unfoldable pub stay : Hand A → Worker A B → Thread A B
  stay hand w = record { worker = w; hand = hand; status = running }

  unfoldable pub settle : Option Error → Worker A B × Verdict → Thread A B
  unfolding leave stay
  settle fails (w, running) = stay idle w
  settle fails (w, ended) = leave fails ended w
  settle fails (w, broken_connection) = leave fails broken_connection w
  settle fails (w, left) = leave fails left w
  settle fails (w, crashed) = leave fails crashed w

  -- The stage is called with the items.
  unfoldable pub work : Config → (ℕ → ℕ) → Turn B → List A → Worker A B → Thread A B
  unfolding settle
  work cfg clock t items w =
      settle t.flush_fails (process cfg clock (λ _ _. t.answer) t.send_fails t.gen_stop items w)

  unfoldable pub take_item : Config → (ℕ → ℕ) → Turn B → A → Worker A B → Thread A B
  unfolding work stay
  take_item cfg clock t a w =
      if ltb 0 cfg.batch_size then stay (filling (a ∷ [])) w else work cfg clock t (a ∷ []) w

  -- A thread that reads a WorkerStop goes on to give up its buffer.
  unfoldable pub take_control : Sentinel → Worker A B → Thread A B
  unfolding stay
  take_control end_of_stream w = stay idle w
  take_control worker_stop w = stay requeueing w

  -- What the thread does with a read at the top of its loop. A message that was read when the
  -- pipeline stops goes back on the shared queue.
  unfoldable pub take_read : Config → (ℕ → ℕ) → Turn B → Read A → Worker A B → Thread A B
  unfolding take_item take_control settle stay leave
  take_read cfg clock t (payload a) w =
      if t.stop_after
      then stay (returning (item a)) (record w { consecutive_empty = 0 })
      else take_item cfg clock t a (record w { consecutive_empty = 0 })
  take_read cfg clock t (control s) w =
      if t.stop_after
      then stay (returning (ctrl s)) (record w { consecutive_empty = 0 })
      else take_control s (record w { consecutive_empty = 0 })
  take_read cfg clock t empty w =
      if t.upstream_done && leb cfg.empty_threshold (w.consecutive_empty + 1)
      then leave t.flush_fails ended (record w { consecutive_empty = w.consecutive_empty + 1 })
      else stay idle (record w { consecutive_empty = w.consecutive_empty + 1 })
  take_read cfg clock t index_error w = settle t.flush_fails (on_error cfg other w)
  take_read cfg clock t attribute_error w = settle t.flush_fails (on_error cfg other w)

  -- The age check at the top of the loop.
  unfoldable pub check_age : (ℕ → ℕ) → Worker A B → Worker A B
  check_age clock w = record w {
    out_ch = maybe_flush (clock w.clock_reads) w.out_ch;
    clock_reads = w.clock_reads + 1;
  }

  unfoldable pub read_next : Config → (ℕ → ℕ) → Turn B → Worker A B → Thread A B
  unfolding take_read leave
  read_next cfg clock t w =
      if not cfg.drain && t.drain_event
      then leave t.flush_fails ended w
      else if t.broken
      then leave t.flush_fails ended w
      else take_read cfg clock t (get w.in_ch).0 (record w { in_ch = (get w.in_ch).1 })

  -- What a poll of a filling batch leads to.
  unfoldable pub take_poll : Config → (ℕ → ℕ) → Turn B → List A → Read A → Worker A B → Thread A B
  unfolding work stay settle
  take_poll cfg clock t b (payload a) w = stay (filling (b ++ a ∷ [])) w
  take_poll cfg clock t b (control end_of_stream) w = stay (filling b) w
  take_poll cfg clock t b (control worker_stop) w = stay (stopping b) w
  take_poll cfg clock t b empty w =
      if t.late_after then work cfg clock t b w else stay (filling b) w
  take_poll cfg clock t b index_error w = settle t.flush_fails (on_error cfg other w)
  take_poll cfg clock t b attribute_error w = settle t.flush_fails (on_error cfg other w)

  unfoldable pub fill_next : Config → (ℕ → ℕ) → Turn B → List A → Worker A B → Thread A B
  unfolding take_poll work settle
  fill_next cfg clock t b w =
      if leb cfg.batch_size (length b) || t.late
      then work cfg clock t b w
      else if t.broken
      then settle t.flush_fails (on_error cfg other w)
      else take_poll cfg clock t b (get w.in_ch).0 (record w { in_ch = (get w.in_ch).1 })

  -- The age check has something to put.
  unfoldable pub due : (ℕ → ℕ) → Worker A B → Bool
  unfolding check_age
  due clock w = not (is_empty w.out_ch.pending) && is_empty (check_age clock w).out_ch.pending

  -- No handler is around the age check.
  unfoldable pub age_check_raises : (ℕ → ℕ) → Worker A B → Thread A B
  unfolding check_age
  age_check_raises clock w = record {
    worker = record (check_age clock w) { out_ch = record w.out_ch { pending = [] } };
    hand = idle;
    status = crashed;
  }

  unfoldable pub next_step : Config → (ℕ → ℕ) → Turn B → Hand A → Worker A B → Thread A B
  unfolding fill_next read_next leave check_age due age_check_raises
  next_step cfg clock t idle w =
      if t.stop
      then leave t.flush_fails ended w
      else if t.age_fails && due clock w
      then age_check_raises clock w
      else read_next cfg clock t (check_age clock w)
  next_step cfg clock t (filling b) w = fill_next cfg clock t b w
  next_step cfg clock t (stopping b) w =
      work cfg clock t b (record w { in_ch = put (ctrl worker_stop) w.in_ch })
  next_step cfg clock t (returning m) w = stay requeueing (record w { in_ch = put m w.in_ch })
  next_step cfg clock t requeueing w =
      leave t.flush_fails ended (record w { in_ch = requeue_buffered w.in_ch })

  -- One step of a thread that still runs.
  unfoldable pub thread_step : Config → (ℕ → ℕ) → Turn B → Thread A B → Thread A B
  unfolding next_step
  thread_step cfg clock t th = next_step cfg clock t th.hand th.worker

unfoldable pub is_running : Verdict → Bool
is_running running = true
is_running ended = false
is_running broken_connection = false
is_running left = false
is_running crashed = false

-- The shared queue, oldest first, and the threads.
pub record Pool {ℓ} (A B : Type ℓ) : Type ℓ where
  pub queue : List (Msg A)
  pub threads : List (Thread A B)

-- Messages arrive on the shared queue, or thread `i` takes a step.
pub data Move {ℓ} (A B : Type ℓ) : Type ℓ where
  arrives : List (Msg A) → Move A B
  turn : ℕ → Turn B → Move A B

module _ {ℓ} {A B : Type ℓ} where
  -- The thread with the content of the shared queue in its hands.
  unfoldable pub attach : List (Msg A) → Thread A B → Thread A B
  attach q th = record th {
    worker = record th.worker { in_ch = record th.worker.in_ch { queue = q } };
  }

  replace : ℕ → Thread A B → Pool A B → Pool A B
  replace i th p = record { queue = th.worker.in_ch.queue; threads = set p.threads i th }

  unfoldable pub run_turn :
      Config → (ℕ → ℕ) → ℕ → Turn B → Option (Thread A B) → Pool A B → Pool A B
  unfolding thread_step attach replace is_running
  run_turn cfg clock i t none p = p
  run_turn cfg clock i t (some th) p =
      if is_running th.status then replace i (thread_step cfg clock t (attach p.queue th)) p else p

  unfoldable pub move : Config → (ℕ → ℕ) → Move A B → Pool A B → Pool A B
  unfolding run_turn
  move cfg clock (arrives ms) p = record p { queue = p.queue ++ ms }
  move cfg clock (turn i t) p = run_turn cfg clock i t (get_elem? p.threads i) p

  unfoldable pub moves : Config → (ℕ → ℕ) → List (Move A B) → Pool A B → Pool A B
  unfolding move
  moves cfg clock [] p = p
  moves cfg clock (m ∷ ms) p = moves cfg clock ms (move cfg clock m p)

  -- `num_threads` threads, each with channels of its own.
  unfoldable pub spawn : ℕ → List (Msg A) → ℕ → ℕ → Pool A B
  unfolding stay
  spawn num_threads q chunk_size chunk_ms = record {
    queue = q;
    threads = replicate num_threads (stay idle (start q chunk_size chunk_ms));
  }
