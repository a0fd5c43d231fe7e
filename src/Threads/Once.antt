-- ===== src/Threads/Once.antt =====
-- What all the threads of a stage do together with the payloads of the shared queue.
use gpupipe.Prelude.{
  mass, mass-append, ℕ, zero, suc, ◌+◌, ◌≡◌, refl, ap, true, false, Option, none, some, List, [],
  ◌∷◌, ◌++◌, arith, if_rule, get_elem?, set, replicate, All, All-append, All-set, All-get_elem?,
  All-replicate,
}
use gpupipe.Types.{Msg, payloads, payloads-append}
use gpupipe.Channel.Input.{contents, open_channel}
use gpupipe.Channel.Input.Reads.{NonEmpty}
use gpupipe.Channel.Input.Keeps.{IsDeque}
use gpupipe.Worker.{Config, Verdict, running, ended, broken_connection, left, crashed}
use gpupipe.Worker.Loop.{start}
use gpupipe.Worker.Loop.Given.{inputs}
use gpupipe.Threads.{
  idle, Turn, Thread, Pool, Move, arrives, turn, attach, is_running, replace, run_turn, move, moves,
  spawn, thread_step, stay,
}
use gpupipe.Threads.Holds.{in_hand, InHand, Holds}
use gpupipe.Threads.Steps.{thread_step-Holds}

running_status : (v : Verdict) → is_running v ≡ true → v ≡ running
unfolding is_running
running_status running e = refl
running_status ended e = absurd cc
running_status broken_connection e = absurd cc
running_status left e = absurd cc
running_status crashed e = absurd cc

module _ {ℓ} {A B : Type ℓ} where
  -- The payloads that arrive during the moves.
  abbrev pub arrived : List (Move A B) → List A
  arrived [] = []
  arrived (arrives ms ∷ rest) = payloads ms ++ arrived rest
  arrived (turn i t ∷ rest) = arrived rest

  -- No chunk that arrives is empty, and no get on the queue fails.
  abbrev pub IsWhole : Move A B → Type 0
  IsWhole (arrives ms) = All NonEmpty ms
  IsWhole (turn i t) = t.broken ≡ false

  abbrev pub Ready : Thread A B → Type 0
  Ready th = (th.status ≡ running → IsDeque th.worker.in_ch.buf) × InHand th.hand

  module _ (f : A → ℕ) where
    -- What a thread has given to the stage, has in hand, and has in its buffer.
    abbrev pub own : Thread A B → ℕ
    own th =
        mass f (inputs th.worker.trace)
        + mass f (in_hand th.hand)
        + mass f (contents th.worker.in_ch.buf)

    abbrev pub owned : List (Thread A B) → ℕ
    owned [] = 0
    owned (th ∷ ths) = own th + owned ths

    owned-set :
        (ths : List (Thread A B)) (i : ℕ) (th th' : Thread A B)
        → get_elem? ths i ≡ some th
        → owned (set ths i th') + own th ≡ owned ths + own th'
    owned-set [] i th th' at = cc
    owned-set (x ∷ ths) zero th th' at = let e : x ≡ th = cc in omega (arith, ap own e)
    owned-set (x ∷ ths) (suc i) th th' at = omega (arith, owned-set ths i th th' at)

    pub record PoolHolds (n : ℕ) (p : Pool A B) : Type ℓ where
      pub exact : owned p.threads + mass f (payloads p.queue) ≡ n
      pub non_empty : All NonEmpty p.queue
      pub ready : All Ready p.threads

    attach-Holds :
        (p : Pool A B) (i : ℕ) (th : Thread A B) (n : ℕ)
        → PoolHolds n p
        → get_elem? p.threads i ≡ some th
        → Holds f (own th + mass f (payloads p.queue)) (attach p.queue th)
    unfolding attach
    attach-Holds p i th n h at = record {
      exact = omega (arith, mass-append f (contents th.worker.in_ch.buf) (payloads p.queue));
      non_empty = h.non_empty;
      is_deque = (All-get_elem? Ready p.threads i th h.ready at).0;
      held = (All-get_elem? Ready p.threads i th h.ready at).1;
    }

    replace-PoolHolds :
        (p : Pool A B) (i : ℕ) (th th' : Thread A B) (n : ℕ)
        → PoolHolds n p
        → get_elem? p.threads i ≡ some th
        → Holds f (own th + mass f (payloads p.queue)) th'
        → PoolHolds n (replace i th' p)
    unfolding replace
    replace-PoolHolds p i th th' n h at held = record {
      exact = omega (
        arith,
        h.exact,
        held.exact,
        owned-set p.threads i th th' at,
        mass-append f (contents th'.worker.in_ch.buf) (payloads th'.worker.in_ch.queue),
      );
      non_empty = held.non_empty;
      ready = All-set Ready p.threads i th' h.ready (held.is_deque, held.held);
    }

    run_turn-PoolHolds :
        (cfg : Config) (clock : ℕ → ℕ) (i : ℕ) (t : Turn B) (o : Option (Thread A B)) (p : Pool A B)
        (n : ℕ)
        → t.broken ≡ false
        → get_elem? p.threads i ≡ o
        → PoolHolds n p
        → PoolHolds n (run_turn cfg clock i t o p)
    unfolding run_turn
    run_turn-PoolHolds cfg clock i t none p n whole at h = h
    run_turn-PoolHolds cfg clock i t (some th) p n whole at h =
        if_rule (PoolHolds n) (is_running th.status) _ p
          (λ e. replace-PoolHolds p i th (thread_step cfg clock t (attach p.queue th)) n h at (
            thread_step-Holds f cfg clock t (attach p.queue th) _ whole
              (unfold attach in running_status th.status e) (attach-Holds p i th n h at)))
          (λ _. h)

    moves-PoolHolds :
        (cfg : Config) (clock : ℕ → ℕ) (ms : List (Move A B)) (p : Pool A B) (n : ℕ)
        → All IsWhole ms
        → PoolHolds n p
        → PoolHolds (n + mass f (arrived ms)) (moves cfg clock ms p)
    unfolding moves move
    moves-PoolHolds cfg clock [] p n whole h = record {
      exact = omega (arith, h.exact);
      non_empty = h.non_empty;
      ready = h.ready;
    }
    moves-PoolHolds cfg clock (turn i t ∷ ms) p n whole h =
        moves-PoolHolds cfg clock ms (move cfg clock (turn i t) p) n whole.1
          (run_turn-PoolHolds cfg clock i t (get_elem? p.threads i) p n whole.0 refl h)
    moves-PoolHolds cfg clock (arrives new ∷ ms) p n whole h =
        let later =
          moves-PoolHolds cfg clock ms (record p { queue = p.queue ++ new })
            (n + mass f (payloads new)) whole.1
            (record {
              exact =
                  rw (payloads-append p.queue new)
                    (omega (arith, h.exact, mass-append f (payloads p.queue) (payloads new)));
              non_empty = All-append NonEmpty p.queue new h.non_empty whole.0;
              ready = h.ready;
            }) in
        record {
          exact = omega (arith, later.exact, mass-append f (payloads new) (arrived ms));
          non_empty = later.non_empty;
          ready = later.ready;
        }

    owned-replicate : (n : ℕ) (th : Thread A B) → own th ≡ 0 → owned (replicate n th) ≡ 0
    owned-replicate zero th e = refl
    owned-replicate (suc n) th e = omega (arith, owned-replicate n th e)

    spawn-PoolHolds :
        (num_threads : ℕ) (q : List (Msg A)) (chunk_size chunk_ms : ℕ)
        → All NonEmpty q
        → PoolHolds (mass f (payloads q)) (spawn num_threads q chunk_size chunk_ms)
    unfolding spawn stay start open_channel
    spawn-PoolHolds num_threads q chunk_size chunk_ms ne = record {
      exact =
          omega (arith, owned-replicate num_threads (stay idle (start q chunk_size chunk_ms)) refl);
      non_empty = ne;
      ready = All-replicate Ready num_threads _ ((λ _. tt), tt);
    }

    -- However the threads of a stage share the queue, no payload is lost or handed out twice: those
    -- given to the stage, those in their hands and buffers and those still on the queue are, as a
    -- multiset, those of the first queue and those that arrived. No chunk is empty and no get fails.
    pub moves-mass :
        (cfg : Config) (clock : ℕ → ℕ) (num_threads : ℕ) (q : List (Msg A))
        (chunk_size chunk_ms : ℕ) (ms : List (Move A B))
        → All NonEmpty q
        → All IsWhole ms
        → let p = moves cfg clock ms (spawn num_threads q chunk_size chunk_ms) in
          owned p.threads + mass f (payloads p.queue) ≡ mass f (payloads q) + mass f (arrived ms)
    moves-mass cfg clock num_threads q chunk_size chunk_ms ms ne whole =
        (moves-PoolHolds cfg clock ms _ _ whole
          (spawn-PoolHolds num_threads q chunk_size chunk_ms ne)).exact
