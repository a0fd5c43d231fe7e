-- ===== src/Threads/Holds.antt =====
-- What a thread holds of the payloads of its stage.
use gpupipe.Prelude.{
  mass, mass-append, ℕ, ◌+◌, ◌≡◌, Option, List, [], ◌∷◌, ◌++◌, append-nil, arith, if◌then◌else◌,
  if_rule, is_empty, is_empty-length, All, All-append,
}
use gpupipe.Types.{chunk, payloads}
use gpupipe.Channel.Input.{InputChannel, requeue_buffered, contents}
use gpupipe.Channel.Input.Reads.{NonEmpty, requeue-keeps}
use gpupipe.Channel.Input.Keeps.{unread, IsSound, IsDeque}
use gpupipe.Worker.{
  Error, connection, other, Config, called, Worker, Verdict, running, ended, broken_connection,
  left, crashed,
}
use gpupipe.Worker.Loop.{process, on_error}
use gpupipe.Worker.Loop.Given.{inputs, inputs-append}
use gpupipe.Worker.Loop.Inputs.{process-Same}
use gpupipe.Threads.{
  Hand, idle, filling, stopping, returning, requeueing, Turn, Thread, leave, stay, settle, work,
}

abbrev pub in_hand {ℓ} : {A : Type ℓ} → Hand A → List A
in_hand idle = []
in_hand requeueing = []
in_hand (filling b) = b
in_hand (stopping b) = b
in_hand (returning m) = payloads (m ∷ [])

-- A message that goes back is no empty chunk.
abbrev pub InHand {ℓ} : {A : Type ℓ} → Hand A → Type 0
InHand idle = Unit
InHand requeueing = Unit
InHand (filling b) = Unit
InHand (stopping b) = Unit
InHand (returning m) = NonEmpty m

pub requeue-NonEmpty {ℓ} :
    {A : Type ℓ} (ch : InputChannel A)
    → All NonEmpty ch.queue
    → All NonEmpty (requeue_buffered ch).queue
unfolding requeue_buffered
requeue-NonEmpty {A = A} ch ne =
    if_rule (λ (c : InputChannel A). All NonEmpty c.queue) (is_empty (contents ch.buf)) ch _
      (λ _. ne)
      (λ e.
        All-append NonEmpty ch.queue (chunk (contents ch.buf) ∷ []) ne
          (is_empty-length (contents ch.buf) e, tt))

pub mass-requeue {ℓ} :
    {A : Type ℓ} (f : A → ℕ) (ch : InputChannel A)
    → mass f (unread (requeue_buffered ch)) ≡ mass f (unread ch)
mass-requeue f ch =
    let (emptied, queued) = requeue-keeps ch in
    rw (emptied, queued)
      (omega (
        arith,
        mass-append f (contents ch.buf) (payloads ch.queue),
        mass-append f (payloads ch.queue) (contents ch.buf),
      ))

module _ {ℓ} {A B : Type ℓ} (f : A → ℕ) where
  -- The payloads that the thread has given to the stage, has in hand, or can still read.
  abbrev pub total : Thread A B → ℕ
  total th =
      mass f (inputs th.worker.trace) + mass f (in_hand th.hand) + mass f (unread th.worker.in_ch)

  -- A thread whose payloads come to `n` and whose queue is in order; its own buffer is as long as it runs.
  pub record Holds (n : ℕ) (th : Thread A B) : Type ℓ where
    pub exact : total th ≡ n
    pub non_empty : All NonEmpty th.worker.in_ch.queue
    pub is_deque : th.status ≡ running → IsDeque th.worker.in_ch.buf
    pub held : InHand th.hand

  pub Holds-stay :
      (n : ℕ) (hand : Hand A) (w : Worker A B)
      → mass f (inputs w.trace) + mass f (in_hand hand) + mass f (unread w.in_ch) ≡ n
      → InHand hand
      → IsSound w.in_ch
      → Holds n (stay hand w)
  unfolding stay
  Holds-stay n hand w e ok s = record {
    held = ok;
    exact = e;
    non_empty = s.non_empty;
    is_deque = λ _. s.is_deque;
  }

  pub Holds-leave :
      (n : ℕ) (fails : Option Error) (v : Verdict) (w : Worker A B)
      → mass f (inputs w.trace) + mass f (unread w.in_ch) ≡ n
      → All NonEmpty w.in_ch.queue
      → (v ≡ running → IsDeque w.in_ch.buf)
      → Holds n (leave fails v w)
  unfolding leave
  Holds-leave n fails v w e ne d = record {
    held = tt;
    exact = omega arith;
    non_empty = ne;
    is_deque = d;
  }

  pub Holds-settle :
      (n : ℕ) (fails : Option Error) (r : Worker A B × Verdict)
      → mass f (inputs r.0.trace) + mass f (unread r.0.in_ch) ≡ n
      → IsSound r.0.in_ch
      → Holds n (settle fails r)
  unfolding settle
  Holds-settle n fails (w, running) e s = Holds-stay n idle w (omega arith) tt s
  Holds-settle n fails (w, ended) e s = Holds-leave n fails ended w e s.non_empty (λ _. s.is_deque)
  Holds-settle n fails (w, broken_connection) e s =
      Holds-leave n fails broken_connection w e s.non_empty (λ _. s.is_deque)
  Holds-settle n fails (w, left) e s = Holds-leave n fails left w e s.non_empty (λ _. s.is_deque)
  Holds-settle n fails (w, crashed) e s =
      Holds-leave n fails crashed w e s.non_empty (λ _. s.is_deque)

  pub Holds-work :
      (cfg : Config) (clock : ℕ → ℕ) (t : Turn B) (items : List A) (w : Worker A B) (n : ℕ)
      → mass f (inputs w.trace) + mass f items + mass f (unread w.in_ch) ≡ n
      → IsSound w.in_ch
      → Holds n (work cfg clock t items w)
  unfolding work
  Holds-work cfg clock t items w n e s =
      let (same_trace, same_in) =
        process-Same cfg clock (λ _ _. t.answer) t.send_fails t.gen_stop items w in
      let more : mass f (items ++ []) ≡ mass f items = rw append-nil in
      Holds-settle n t.flush_fails
        (process cfg clock (λ _ _. t.answer) t.send_fails t.gen_stop items w)
        (rw
          (
            same_trace,
            same_in,
            inputs-append w.trace (called items t.gen_stop t.answer ∷ []),
            mass-append f (inputs w.trace) (items ++ []),
            more,
          )
          e)
        (rw same_in s)

  pub Holds-error :
      (cfg : Config) (fails : Option Error) (e : Error) (w : Worker A B) (n : ℕ)
      → mass f (inputs w.trace) + mass f (unread w.in_ch) ≡ n
      → IsSound w.in_ch
      → Holds n (settle fails (on_error cfg e w))
  unfolding on_error
  Holds-error cfg fails connection w n h s = Holds-settle n fails (w, broken_connection) h s
  Holds-error cfg fails other w n h s =
      Holds-settle n fails (w, (if cfg.raise_errors then crashed else running)) h s
