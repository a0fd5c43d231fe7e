-- ===== src/Threads/Steps.antt =====
-- What one step of a thread does with the payloads, for the thread loop of `_threaded_worker_run`.
use gpupipe.Prelude.{
  mass, mass-append, ℕ, ◌+◌, ◌≡◌, ap, false, not, ◌&&◌, ◌||◌, List, [], ◌∷◌, ◌++◌, arith, ltb, leb,
  if_rule, length, All, All-append,
}
use gpupipe.Types.{Msg, item, ctrl, Sentinel, end_of_stream, worker_stop, payloads, payloads-append}
use gpupipe.Channel.Input.{
  InputChannel, Read, payload, control, empty, index_error, attribute_error, get, put,
  requeue_buffered, contents,
}
use gpupipe.Channel.Input.Reads.{NonEmpty}
use gpupipe.Channel.Input.Keeps.{unread, read_out, get-unread, IsSound, Proper, get-IsSound}
use gpupipe.Worker.Batch.Fill.{unread-put_ctrl, put_ctrl-IsSound}
use gpupipe.Worker.{Config, Worker, running, ended}
use gpupipe.Worker.Loop.Given.{inputs}
use gpupipe.Threads.{
  Turn, Thread, Hand, idle, filling, stopping, returning, requeueing, stay, due, age_check_raises,
  take_item, take_control, take_read, check_age, read_next, take_poll, fill_next, next_step,
  thread_step,
}
use gpupipe.Threads.Holds.{
  in_hand, InHand, Holds, requeue-NonEmpty, mass-requeue, Holds-stay, Holds-leave, Holds-work,
}

module _ {ℓ} {A B : Type ℓ} (f : A → ℕ) where
  -- A message goes back on the shared queue.
  Holds-return :
      (m : Msg A) (w : Worker A B) (n : ℕ)
      → mass f (inputs w.trace) + mass f (payloads (m ∷ [])) + mass f (unread w.in_ch) ≡ n
      → NonEmpty m
      → IsSound w.in_ch
      → Holds f n (stay requeueing (record w { in_ch = put m w.in_ch }))
  unfolding put
  Holds-return m w n e ok s =
      let ch : InputChannel A = record w.in_ch { queue = w.in_ch.queue ++ m ∷ [] } in
      let ne : All NonEmpty ch.queue =
        All-append NonEmpty w.in_ch.queue (m ∷ []) s.non_empty (ok, tt) in
      let more : mass f (unread ch) ≡ mass f (unread w.in_ch) + mass f (payloads (m ∷ [])) =
        rw (payloads-append w.in_ch.queue (m ∷ [])) (
          omega (
            arith,
            mass-append f (contents w.in_ch.buf) (payloads w.in_ch.queue ++ payloads (m ∷ [])),
            mass-append f (payloads w.in_ch.queue) (payloads (m ∷ [])),
            mass-append f (contents w.in_ch.buf) (payloads w.in_ch.queue),
          )) in
      Holds-stay f n requeueing (record w { in_ch = ch }) (omega arith) tt
        (record { is_deque = s.is_deque; non_empty = ne })

  Holds-item :
      (cfg : Config) (clock : ℕ → ℕ) (t : Turn B) (a : A) (w : Worker A B) (n : ℕ)
      → mass f (inputs w.trace) + f a + mass f (unread w.in_ch) ≡ n
      → IsSound w.in_ch
      → Holds f n (take_item cfg clock t a w)
  unfolding take_item
  Holds-item cfg clock t a w n e s =
      if_rule (Holds f n) (ltb 0 cfg.batch_size) _ _
        (λ _. Holds-stay f n (filling (a ∷ [])) w (omega arith) tt s)
        (λ _. Holds-work f cfg clock t (a ∷ []) w n (omega arith) s)

  Holds-control :
      (c : Sentinel) (w : Worker A B) (n : ℕ)
      → mass f (inputs w.trace) + mass f (unread w.in_ch) ≡ n
      → IsSound w.in_ch
      → Holds f n (take_control c w)
  unfolding take_control
  Holds-control end_of_stream w n e s = Holds-stay f n idle w (omega arith) tt s
  Holds-control worker_stop w n e s = Holds-stay f n requeueing w (omega arith) tt s

  Holds-read :
      (cfg : Config) (clock : ℕ → ℕ) (t : Turn B) (r : Read A) (w : Worker A B) (n : ℕ)
      → mass f (inputs w.trace) + mass f (read_out r ++ unread w.in_ch) ≡ n
      → Proper r
      → IsSound w.in_ch
      → Holds f n (take_read cfg clock t r w)
  unfolding take_read
  Holds-read cfg clock t (payload a) w n e ok s =
      let w0 : Worker A B = record w { consecutive_empty = 0 } in
      if_rule (Holds f n) t.stop_after _ _
        (λ _. Holds-stay f n (returning (item a)) w0 (omega arith) tt s)
        (λ _. Holds-item cfg clock t a w0 n (omega arith) s)
  Holds-read cfg clock t (control c) w n e ok s =
      let w0 : Worker A B = record w { consecutive_empty = 0 } in
      if_rule (Holds f n) t.stop_after _ _
        (λ _. Holds-stay f n (returning (ctrl c)) w0 (omega arith) tt s)
        (λ _. Holds-control c w0 n e s)
  Holds-read cfg clock t empty w n e ok s =
      let w0 : Worker A B = record w { consecutive_empty = w.consecutive_empty + 1 } in
      if_rule (Holds f n) (t.upstream_done && leb cfg.empty_threshold (w.consecutive_empty + 1)) _ _
        (λ _. Holds-leave f n t.flush_fails ended w0 e s.non_empty (λ _. s.is_deque))
        (λ _. Holds-stay f n idle w0 (omega arith) tt s)
  Holds-read cfg clock t index_error w n e ok s = absurd ok
  Holds-read cfg clock t attribute_error w n e ok s = absurd ok

  Holds-read_next :
      (cfg : Config) (clock : ℕ → ℕ) (t : Turn B) (w : Worker A B) (n : ℕ)
      → mass f (inputs w.trace) + mass f (unread w.in_ch) ≡ n
      → IsSound w.in_ch
      → Holds f n (read_next cfg clock t w)
  unfolding read_next
  Holds-read_next cfg clock t w n e s =
      let (ok, s') = get-IsSound w.in_ch s in
      let gone = Holds-leave f n t.flush_fails ended w e s.non_empty (λ _. s.is_deque) in
      if_rule (Holds f n) (not cfg.drain && t.drain_event) _ _ (λ _. gone)
        (λ _.
          if_rule (Holds f n) t.broken _ _ (λ _. gone)
            (λ _.
              Holds-read cfg clock t (get w.in_ch).0 (record w { in_ch = (get w.in_ch).1 }) n
                (rw (get-unread w.in_ch) e) ok s'))

  Holds-poll :
      (cfg : Config) (clock : ℕ → ℕ) (t : Turn B) (b : List A) (r : Read A) (w : Worker A B) (n : ℕ)
      → mass f (inputs w.trace) + mass f b + mass f (read_out r ++ unread w.in_ch) ≡ n
      → Proper r
      → IsSound w.in_ch
      → Holds f n (take_poll cfg clock t b r w)
  unfolding take_poll
  Holds-poll cfg clock t b (payload a) w n e ok s =
      Holds-stay f n (filling (b ++ a ∷ [])) w (omega (arith, mass-append f b (a ∷ []))) tt s
  Holds-poll cfg clock t b (control end_of_stream) w n e ok s = Holds-stay f n (filling b) w e tt s
  Holds-poll cfg clock t b (control worker_stop) w n e ok s = Holds-stay f n (stopping b) w e tt s
  Holds-poll cfg clock t b empty w n e ok s =
      if_rule (Holds f n) t.late_after _ _ (λ _. Holds-work f cfg clock t b w n e s)
        (λ _. Holds-stay f n (filling b) w e tt s)
  Holds-poll cfg clock t b index_error w n e ok s = absurd ok
  Holds-poll cfg clock t b attribute_error w n e ok s = absurd ok

  Holds-fill_next :
      (cfg : Config) (clock : ℕ → ℕ) (t : Turn B) (b : List A) (w : Worker A B) (n : ℕ)
      → t.broken ≡ false
      → mass f (inputs w.trace) + mass f b + mass f (unread w.in_ch) ≡ n
      → IsSound w.in_ch
      → Holds f n (fill_next cfg clock t b w)
  unfolding fill_next
  Holds-fill_next cfg clock t b w n whole e s =
      let (ok, s') = get-IsSound w.in_ch s in
      if_rule (Holds f n) (leb cfg.batch_size (length b) || t.late) _ _
        (λ _. Holds-work f cfg clock t b w n e s)
        (λ _.
          if_rule (Holds f n) t.broken _ _ (λ h. absurd (ground arith))
            (λ _.
              Holds-poll cfg clock t b (get w.in_ch).0 (record w { in_ch = (get w.in_ch).1 }) n
                (rw (get-unread w.in_ch) e) ok s'))

  next_step-Holds :
      (cfg : Config) (clock : ℕ → ℕ) (t : Turn B) (hand : Hand A) (w : Worker A B) (n : ℕ)
      → t.broken ≡ false
      → mass f (inputs w.trace) + mass f (in_hand hand) + mass f (unread w.in_ch) ≡ n
      → InHand hand
      → IsSound w.in_ch
      → Holds f n (next_step cfg clock t hand w)
  unfolding next_step check_age age_check_raises
  next_step-Holds cfg clock t idle w n whole e ok s =
      if_rule (Holds f n) t.stop _ _
        (λ _. Holds-leave f n t.flush_fails ended w (omega arith) s.non_empty (λ _. s.is_deque))
        (λ _.
          if_rule (Holds f n) (t.age_fails && due clock w) _ _
            (λ _. record {
              exact = e;
              non_empty = s.non_empty;
              is_deque = λ _. s.is_deque;
              held = tt;
            })
            (λ _. Holds-read_next cfg clock t (check_age clock w) n (omega arith) s))
  next_step-Holds cfg clock t (filling b) w n whole e ok s =
      Holds-fill_next cfg clock t b w n whole e s
  next_step-Holds cfg clock t (stopping b) w n whole e ok s =
      Holds-work f cfg clock t b (record w { in_ch = put (ctrl worker_stop) w.in_ch }) n
        (omega (arith, ap (mass f) (unread-put_ctrl w.in_ch))) (put_ctrl-IsSound w.in_ch s)
  next_step-Holds cfg clock t (returning m) w n whole e ok s = Holds-return m w n e ok s
  next_step-Holds cfg clock t requeueing w n whole e ok s =
      Holds-leave f n t.flush_fails ended (record w { in_ch = requeue_buffered w.in_ch })
        (omega (arith, mass-requeue f w.in_ch)) (requeue-NonEmpty w.in_ch s.non_empty) (λ h. cc)

  -- One step of a thread loses no payload and repeats none.
  pub thread_step-Holds :
      (cfg : Config) (clock : ℕ → ℕ) (t : Turn B) (th : Thread A B) (n : ℕ)
      → t.broken ≡ false
      → th.status ≡ running
      → Holds f n th
      → Holds f n (thread_step cfg clock t th)
  unfolding thread_step
  thread_step-Holds cfg clock t th n whole runs h =
      next_step-Holds cfg clock t th.hand th.worker n whole h.exact h.held
        (record { is_deque = h.is_deque runs; non_empty = h.non_empty })
