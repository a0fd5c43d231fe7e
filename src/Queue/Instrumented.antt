-- ===== src/Queue/Instrumented.antt =====
-- `InstrumentedQueue` of src/pipe/queues.py, the counting wrapper that debug mode puts on each edge.
use gpupipe.Prelude.{ℕ, ◌+◌, ◌-◌, ◌≡◌, [], ◌∷◌, Option, none, some, arith, length, length-append}
use gpupipe.Queue.{ShmQueue}
use gpupipe.Queue

pub record InstrumentedQueue {ℓ} (M : Type ℓ) : Type ℓ where
  pub queue : ShmQueue (M × ℕ)
  pub items_put : ℕ
  pub items_got : ℕ
  pub total_transit : ℕ

module _ {ℓ} {M : Type ℓ} where
  counted_put : Option (ShmQueue (M × ℕ)) → InstrumentedQueue M → Option (InstrumentedQueue M)
  counted_put none q = none
  counted_put (some inner) q = some (record q { queue = inner; items_put = q.items_put + 1 })

  -- The message travels with the time of its put.
  unfoldable pub put : M → ℕ → InstrumentedQueue M → Option (InstrumentedQueue M)
  unfolding counted_put
  put m now q = counted_put (Queue.put (m, now) q.queue) q

  counted_get :
      ℕ
      → Option ((M × ℕ) × ShmQueue (M × ℕ))
      → InstrumentedQueue M
      → Option (M × InstrumentedQueue M)
  counted_get now none q = none
  counted_get now (some ((m, put_time), inner)) q = some (
    m,
    record q {
      queue = inner;
      items_got = q.items_got + 1;
      total_transit = q.total_transit + (now - put_time);
    },
  )

  unfoldable pub get : ℕ → InstrumentedQueue M → Option (M × InstrumentedQueue M)
  unfolding counted_get
  get now q = counted_get now (Queue.get q.queue) q

  -- Debug counters agree with the queue: what was put and not yet got is what the queue holds.
  abbrev pub IsCounted : InstrumentedQueue M → Type 0
  IsCounted q = q.items_put ≡ q.items_got + length q.queue.items

  -- A put that lands and a get that returns keep the counters in step with the queue; a put that
  -- raises `Full` and a get that raises `Empty` change neither.
  pub counters-IsCounted :
      (m : M) (now : ℕ) (q : InstrumentedQueue M)
      → IsCounted q
      → ((q' : InstrumentedQueue M)
          → put m now q ≡ some q'
          → IsCounted q' × (q'.items_got ≡ q.items_got))
        × ((a : M) (q' : InstrumentedQueue M)
            → get now q ≡ some (a, q')
            → IsCounted q' × (q'.items_put ≡ q.items_put))
  unfolding put get Queue.put Queue.get
  counters-IsCounted m now q v =
      (λ q' h. ground (arith, length-append q.queue.items ((m, now) ∷ [])), λ a q' h. ground arith)
