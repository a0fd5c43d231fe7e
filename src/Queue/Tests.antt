-- ===== src/Queue/Tests.antt =====
-- The edge queue and its wrappers at concrete inputs.
use gpupipe.Prelude.{ℕ, ◌≡◌, ◌≤◌, refl, List, [], ◌∷◌, ◌++◌, true, false, none, some, drop, arith}
use gpupipe.Queue.{ShmQueue}
use gpupipe.Queue.Retry.{Stall, put_retry}
use gpupipe.Queue.Retry.Delivery.{put_retry-delivers, put_retry-returns}
use gpupipe.Queue.Instrumented.{InstrumentedQueue}

abbrev two_full : ShmQueue ℕ
two_full = record { maxsize = 2; items = 1 ∷ 2 ∷ [] }

abbrev armed : Stall
armed = record { armed = true; since = none; fired = 0 }

-- Two failed attempts, 40 seconds apart, before the consumer takes one message.
abbrev slow_rounds : List (ℕ × ℕ)
slow_rounds = (0, 100) ∷ (0, 140) ∷ (1, 150) ∷ []

abbrev after_stall : Stall
after_stall = record { armed = false; since = some 100; fired = 1 }

abbrev three_behind : ShmQueue ℕ
three_behind = record { maxsize = 2; items = 2 ∷ 3 ∷ [] }

slow_put : put_retry 30 3 slow_rounds armed two_full ≡ some (after_stall, three_behind)
unfolding put_retry
slow_put = refl

put_retry-delivers_example :
    (k : ℕ) × (k ≤ 1)
    × (three_behind.items ≡ drop k two_full.items ++ 3 ∷ [])
    × (three_behind.maxsize ≡ 2)
put_retry-delivers_example =
    put_retry-delivers 30 3 slow_rounds armed two_full after_stall three_behind slow_put

put_retry-returns_example :
    (r : Stall × ShmQueue ℕ) × (put_retry 30 3 slow_rounds armed two_full ≡ some r)
put_retry-returns_example =
    put_retry-returns 30 3 slow_rounds armed two_full (omega arith) (omega arith)

abbrev counted_queue : InstrumentedQueue ℕ
counted_queue = record {
  queue = record { maxsize = 4; items = (8, 20) ∷ [] };
  items_put = 3;
  items_got = 2;
  total_transit = 9;
}
