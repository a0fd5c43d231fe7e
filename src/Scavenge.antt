-- ===== src/Scavenge.antt =====
-- One slot of the scavenger in one poll: `_scavenger_thread`, `_park_worker`, `_freeze_worker`,
-- `_thaw_worker` and `_keep_acked_park` of src/pipe/scavenge.py. Memory is counted in MiB.
pub mod Slots
mod Tests
use gpupipe.Prelude.{
  ℕ, ◌+◌, Bool, true, false, not, ◌&&◌, ◌||◌, Option, none, some, List, [], ◌∷◌, ltb, leb, ◌==◌,
  if◌then◌else◌,
}

-- The flags of a slot. `park` is the shared value of the park handshake (0 run, 1 requested, 2
-- parked, 3 refused), none for a stage without `on_park`.
pub record Slot : Type 0 where
  pub frozen : Bool
  pub parked : Bool
  pub hold : Bool
  pub park : Option ℕ
  pub frozen_mib : ℕ

-- How a worker answers a park request: it acknowledges and nvidia-smi then shows what it still
-- holds, it refuses, or it does not answer in time.
pub data Answer : Type 0 where
  acked : ℕ → Answer
  refused late : Answer

-- What a poll finds out about the slot and its GPU, and how the tools that it runs end. `used` is
-- what the worker's process holds, none if nvidia-smi does not list it, and `fresh` what it holds
-- after a park that did not free all.
pub record Poll : Type 0 where
  pub is_alive : Bool
  pub foreign : Bool
  pub free_streak : ℕ
  pub used : Option ℕ
  pub fresh : Option ℕ
  pub answer : Answer
  pub hazard : Bool
  pub has_checkpoint : Bool
  pub host_available : Option ℕ
  pub gpu_free : Option ℕ
  pub lock_succeeds : Bool
  pub checkpoint_succeeds : Bool
  pub restore_succeeds : Bool
  pub unlock_succeeds : Bool

-- PARK_RESIDUAL_MIB, unless the environment sets another.
abbrev pub park_residual_mib : ℕ
park_residual_mib = 600

abbrev pub restore_margin_mib : ℕ
restore_margin_mib = 256

set_park : ℕ → Slot → Slot
set_park v s = record s { park = some v }

-- `_park_worker`: whether the worker is parked, and the slot.
park_worker : Answer → Slot → Bool × Slot
unfolding set_park
park_worker (acked still) s = (not (ltb park_residual_mib still), set_park 2 s)
park_worker refused s = (false, set_park 0 s)
park_worker late s = (false, set_park 0 s)

less_than : Option ℕ → ℕ → Bool
less_than none n = false
less_than (some a) n = ltb a n

unfoldable pub freeze_worker : Poll → ℕ → Bool
unfolding less_than
freeze_worker p mib =
    not (ltb 0 mib && less_than p.host_available mib) && p.lock_succeeds && p.checkpoint_succeeds

unfoldable pub thaw_worker : Poll → ℕ → Bool
unfolding less_than
thaw_worker p frozen_mib =
    not (ltb 0 frozen_mib && less_than p.gpu_free (frozen_mib + restore_margin_mib))
    && p.restore_succeeds
    && p.unlock_succeeds

is_parked_value : Option ℕ → Bool
is_parked_value none = false
is_parked_value (some v) = v == 2

keep_acked_park : Slot → Slot
unfolding is_parked_value
keep_acked_park s = if is_parked_value s.park then record s { parked = true } else s

-- The fallback of a claimed GPU: the checkpoint. `used` is what the process holds now.
checkpoint_with : Poll → Option ℕ → Slot → Slot
unfolding keep_acked_park freeze_worker
checkpoint_with p none s = s
checkpoint_with p (some mib) s =
    if not p.has_checkpoint
    then keep_acked_park s
    else if freeze_worker p mib
    then record s { frozen = true; frozen_mib = mib }
    else keep_acked_park s

checkpoint : Poll → Option ℕ → Slot → Slot
unfolding checkpoint_with
checkpoint p used s =
    if p.hazard then keep_acked_park s else checkpoint_with p used (record s { hold = true })

or_else : Option ℕ → Option ℕ → Option ℕ
or_else none old = old
or_else (some n) old = some n

after_park : Poll → Option ℕ → Bool × Slot → Slot
unfolding checkpoint or_else
after_park p used (parked, s) =
    if parked then record s { parked = true } else checkpoint p (or_else p.fresh used) s

-- A foreign process holds the GPU of a slot that is neither frozen nor parked.
claimed : Poll → Option ℕ → Option ℕ → Slot → Slot
unfolding after_park park_worker
claimed p none used s = checkpoint p used s
claimed p (some v) none s = checkpoint p none s
claimed p (some v) (some mib) s =
    after_park p (some mib) (park_worker p.answer (record s { hold = true }))

release_park : Slot → Slot
unfolding is_parked_value
release_park s = if is_parked_value s.park then record s { park = some 0 } else s

-- The GPU has been free for long enough.
freed : Poll → Slot → Slot
unfolding release_park thaw_worker set_park
freed p s =
    if s.parked
    then record (set_park 0 s) { parked = false; hold = false }
    else if s.frozen
    then (if thaw_worker p s.frozen_mib
        then record (release_park s) { frozen = false; hold = false }
        else s)
    else record s { hold = false }

unfoldable pub poll_slot : ℕ → Poll → Slot → Slot
unfolding claimed freed
poll_slot need_free_polls p s =
    if not p.is_alive
    then record s { frozen = false }
    else if p.foreign
    then (if s.frozen || s.parked then s else claimed p s.park p.used s)
    else if leb need_free_polls p.free_streak
    then freed p s
    else s

-- The slot over the polls of the thread.
unfoldable pub poll_all : ℕ → List Poll → Slot → Slot
unfolding poll_slot
poll_all need_free_polls [] s = s
poll_all need_free_polls (p ∷ ps) s = poll_all need_free_polls ps (poll_slot need_free_polls p s)

-- A worker whose `on_park` returns sets the value to 2 whatever the scavenger has done to it since.
unfoldable pub late_ack : Slot → Slot
unfolding set_park
late_ack s = set_park 2 s
