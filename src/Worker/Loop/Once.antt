-- ===== src/Worker/Loop/Once.antt =====
-- What a whole run of `_worker_run` does with the payloads it reads.
use gpupipe.Prelude.{
  ℕ, ◌≡◌, sym, inl, inr, List, [], ◌∷◌, ◌++◌, append-nil, append_assoc, take, All,
}
use gpupipe.Types.{Msg, payloads}
use gpupipe.Channel.Input.{open_channel}
use gpupipe.Channel.Input.Reads.{NonEmpty}
use gpupipe.Channel.Input.Keeps.{unread, IsSound}
use gpupipe.Worker.Batch.Fill.{arrivals}
use gpupipe.Worker.Loop.Given.{inputs, Arrived, stop, tick, TicksSound, Conserved, stays}
use gpupipe.Worker.Loop.Inputs.{Step, iterate-Step}
use gpupipe.Worker.{
  Outcome, Config, Tick, Event, Worker, Verdict, running, ended, broken_connection, left, crashed,
}
use gpupipe.Worker.Loop.{iterate, go_on, run_loop, start}

settled {ℓ} : {A : Type ℓ} (a m k u b : List A) → m ≡ [] → u ≡ k ++ m → a ++ m ++ k ≡ b → a ++ u ≡ b
settled a m k u b none_moved left_over all =
    rw (left_over, none_moved, append-nil) (rw (none_moved, append-nil) at all)

module _ {ℓ} {A B : Type ℓ} where
  abbrev Run : List A → List (Tick A B) → Worker A B × Verdict → Type ℓ
  Run before ticks r = (xs : List A) × Arrived ticks xs × Conserved (before ++ xs) r

  module _ (cfg : Config) (clock : ℕ → ℕ) (call : List (Event A B) → List A → Outcome B) where
    ends_here :
        (t : Tick A B) (ticks : List (Tick A B)) (w : Worker A B) (r : Worker A B × Verdict)
        → Step cfg clock call t w (unread w.in_ch ++ payloads t.arrivals) r
        → Run (inputs w.trace ++ unread w.in_ch) (t ∷ ticks) r
    ends_here t ticks w r (n, c) =
        (payloads t.arrivals ++ arrivals (take n t.polls) ++ [], tick n stop, rw same at c)
      where
        same :
            inputs w.trace ++ (unread w.in_ch ++ payloads t.arrivals ++ arrivals (take n t.polls))
            ≡ inputs w.trace
              ++ unread w.in_ch
              ++ (payloads t.arrivals ++ arrivals (take n t.polls) ++ [])
        same = simp (append_assoc, append-nil)

    goes_on :
        (t : Tick A B) (ticks : List (Tick A B)) (w : Worker A B) (r : Worker A B × Verdict)
        → ((w' : Worker A B)
            → IsSound w'.in_ch
            → Run (inputs w'.trace ++ unread w'.in_ch) ticks (run_loop cfg clock call ticks w'))
        → Step cfg clock call t w (unread w.in_ch ++ payloads t.arrivals) r
        → Run
            (inputs w.trace ++ unread w.in_ch)
            (t ∷ ticks)
            (go_on (run_loop cfg clock call ticks) r)
    unfolding go_on
    goes_on t ticks w (w', ended) rec st = ends_here t ticks w (w', ended) st
    goes_on t ticks w (w', broken_connection) rec st =
        ends_here t ticks w (w', broken_connection) st
    goes_on t ticks w (w', left) rec st = ends_here t ticks w (w', left) st
    goes_on t ticks w (w', crashed) rec st = ends_here t ticks w (w', crashed) st
    goes_on t ticks w (w', running) rec (n, c) =
        let (xs, came, c') = rec w' (c.sound (λ e. cc)) in
        (payloads t.arrivals ++ arrivals (take n t.polls) ++ xs, tick n came, rw (same xs) at c')
      where
        in_order :
            inputs w'.trace ++ unread w'.in_ch
            ≡ inputs w.trace ++ (unread w.in_ch ++ payloads t.arrivals ++ arrivals (take n t.polls))
        in_order =
            settled (inputs w'.trace) c.moved c.kept (unread w'.in_ch) _ (c.in_place (λ e. cc))
              c.left_over c.all

        same :
            (xs : List A)
            → inputs w'.trace ++ unread w'.in_ch ++ xs
              ≡ inputs w.trace
                ++ unread w.in_ch
                ++ (payloads t.arrivals ++ arrivals (take n t.polls) ++ xs)
        same xs = rw in_order (simp append_assoc)

    stops_now :
        (t : Tick A B) (ticks : List (Tick A B)) (w : Worker A B) (r : Worker A B × Verdict)
        → r ≡ (w, ended)
        → IsSound w.in_ch
        → Run
            (inputs w.trace ++ unread w.in_ch)
            (t ∷ ticks)
            (go_on (run_loop cfg clock call ticks) r)
    stops_now t ticks w r e s =
        rw e (unfold go_on in ([], stop, stays _ w ended (sym (append-nil _)) s))

    run_loop-Run :
        (ticks : List (Tick A B)) (w : Worker A B)
        → TicksSound ticks
        → IsSound w.in_ch
        → Run (inputs w.trace ++ unread w.in_ch) ticks (run_loop cfg clock call ticks w)
    unfolding run_loop
    run_loop-Run [] w ts s = ([], stop, stays _ w running (sym (append-nil _)) s)
    run_loop-Run (t ∷ ticks) w ts s =
        elim (iterate-Step cfg clock call t w ts.0.0 ts.0.1 ts.1 ts.2 s) [
          | inl e ↦ stops_now t ticks w (iterate cfg clock call t w) e s
          | inr st ↦
              goes_on t ticks w (iterate cfg clock call t w)
                (λ w' s'. run_loop-Run ticks w' ts.3 s') st
        ]

  -- Started on a queue `q`, and whatever arrives later, a worker gives its stage every payload
  -- exactly once and in order: the payloads given, then those it holds back or leaves unread, are
  -- those of `q` and those that arrived. Only a worker that leaves its pool by WorkerStop puts
  -- payloads back: what it had buffered goes to the end of the shared queue. No chunk is empty, no get
  -- raises while a batch fills, and no put raises behind a WorkerStop.
  pub run_loop-inputs :
      (cfg : Config) (clock : ℕ → ℕ) (call : List (Event A B) → List A → Outcome B)
      (ticks : List (Tick A B)) (q : List (Msg A)) (chunk_size chunk_ms : ℕ)
      → TicksSound ticks
      → All NonEmpty q
      → (came : List A) × Arrived ticks came
        × Conserved
            (payloads q ++ came)
            (run_loop cfg clock call ticks (start q chunk_size chunk_ms))
  unfolding start open_channel
  run_loop-inputs cfg clock call ticks q chunk_size chunk_ms ts ne =
      run_loop-Run cfg clock call ticks (start q chunk_size chunk_ms) ts
        (record { is_deque = tt; non_empty = ne })
