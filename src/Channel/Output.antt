-- ===== src/Channel/Output.antt =====
-- `_OutputChannel` of src/pipe/queues.py. `queue` holds the messages that its puts have delivered,
-- oldest first: `_blocking_put` retries until the put lands (see Queue/Retry). Times are in ms.
pub mod Bounds
pub mod Order
pub mod Age
use gpupipe.Prelude.{
  ℕ, ◌+◌, ◌&&◌, ◌||◌, not, List, [], ◌∷◌, ◌++◌, leb, length, is_empty, if◌then◌else◌,
}
use gpupipe.Types.{Msg, item, chunk}

pub record OutputChannel {ℓ} (A : Type ℓ) : Type ℓ where
  pub queue : List (Msg A)
  pub chunk_size : ℕ
  pub chunk_s : ℕ
  pub pending : List A
  pub oldest : ℕ

module _ {ℓ} {A : Type ℓ} where
  unfoldable pub init : ℕ → ℕ → OutputChannel A
  init chunk_size chunk_ms = record {
    queue = [];
    chunk_size = chunk_size;
    chunk_s = chunk_ms;
    pending = [];
    oldest = 0;
  }

  unfoldable pub blocking_put : Msg A → OutputChannel A → OutputChannel A
  blocking_put m ch = record ch { queue = ch.queue ++ m ∷ [] }

  unfoldable pub flush : OutputChannel A → OutputChannel A
  unfolding blocking_put
  flush ch =
      if is_empty ch.pending
      then ch
      else blocking_put (chunk ch.pending) (record ch { pending = [] })

  -- The clock is read once to stamp a first pending payload, and again for the test.
  stamp : ℕ → OutputChannel A → OutputChannel A
  stamp now ch = if is_empty ch.pending then record ch { oldest = now } else ch

  hold : A → OutputChannel A → OutputChannel A
  hold payload ch = record ch { pending = ch.pending ++ payload ∷ [] }

  flush_if_due : ℕ → OutputChannel A → OutputChannel A
  unfolding flush
  flush_if_due now ch =
      if leb ch.chunk_size (length ch.pending) || leb (ch.oldest + ch.chunk_s) now
      then flush ch
      else ch

  unfoldable pub send : A → ℕ → ℕ → OutputChannel A → OutputChannel A
  unfolding stamp hold flush_if_due
  send payload stamped now ch =
      if leb ch.chunk_size 0
      then blocking_put (item payload) ch
      else flush_if_due now (hold payload (stamp stamped ch))

  unfoldable pub maybe_flush : ℕ → OutputChannel A → OutputChannel A
  unfolding flush
  maybe_flush now ch =
      if not (is_empty ch.pending) && leb (ch.oldest + ch.chunk_s) now then flush ch else ch

-- What a worker does with its channel, with the clock readings of each call.
pub data Op {ℓ} (A : Type ℓ) : Type ℓ where
  sends : A → ℕ → ℕ → Op A
  idles : ℕ → Op A
  flushes : Op A

module _ {ℓ} {A : Type ℓ} where
  unfoldable pub apply : Op A → OutputChannel A → OutputChannel A
  apply (sends a stamped now) ch = send a stamped now ch
  apply (idles now) ch = maybe_flush now ch
  apply flushes ch = flush ch

  unfoldable pub run : List (Op A) → OutputChannel A → OutputChannel A
  run [] ch = ch
  run (op ∷ ops) ch = run ops (apply op ch)

  -- The payloads that the worker sent, in order.
  abbrev pub sent : List (Op A) → List A
  sent [] = []
  sent (sends a stamped now ∷ ops) = a ∷ sent ops
  sent (idles now ∷ ops) = sent ops
  sent (flushes ∷ ops) = sent ops
