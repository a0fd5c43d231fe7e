-- ===== src/Queue.antt =====
-- The queue on one pipeline edge: `ShmQueue` of src/pipe/shmqueue.py, whose capacity test is that of
-- `put` in rust/src/ring.rs. A message here is what `encode` made of the object put. The ring's bytes
-- are left out: a message that does not fit travels by spill, and the case that even its record or
-- the disk has no room is not modelled.
pub mod Bounded
pub mod Retry
pub mod Instrumented
pub mod Encode
mod Tests
use gpupipe.Prelude.{
  ℕ, Bool, List, [], ◌∷◌, ◌++◌, Option, none, some, ◌&&◌, ◌||◌, ltb, leb, ◌==◌, if◌then◌else◌,
  length,
}

pub record ShmQueue {ℓ} (M : Type ℓ) : Type ℓ where
  pub maxsize : ℕ
  pub items : List M

module _ {ℓ} {M : Type ℓ} where
  -- `none` is the exception `Full`.
  unfoldable pub put : M → ShmQueue M → Option (ShmQueue M)
  put m q =
      if q.maxsize == 0 || ltb (length q.items) q.maxsize
      then some (record q { items = q.items ++ m ∷ [] })
      else none

  take_front : ℕ → List M → Option (M × ShmQueue M)
  take_front n [] = none
  take_front n (m ∷ ms) = some (m, record { maxsize = n; items = ms })

  -- `none` is the exception `Empty`.
  unfoldable pub get : ShmQueue M → Option (M × ShmQueue M)
  unfolding take_front
  get q = take_front q.maxsize q.items

  unfoldable pub qsize : ShmQueue M → ℕ
  qsize q = length q.items

  unfoldable pub empty : ShmQueue M → Bool
  unfolding qsize
  empty q = qsize q == 0

  unfoldable pub full : ShmQueue M → Bool
  unfolding qsize
  full q = ltb 0 q.maxsize && leb q.maxsize (qsize q)
