-- ===== src/Completion.antt =====
-- How the workers of a stage agree that it is finished: `_finish_worker` of src/pipe/workers.py.
pub mod Finish
pub mod Interleaving
mod Tests
use gpupipe.Prelude.{
  ℕ, zero, suc, ◌+◌, Bool, true, false, Option, none, some, List, [], ◌∷◌, ltb, if◌then◌else◌,
}
use gpupipe.Types.{Msg, ctrl, end_of_stream}
use gpupipe.Queue.{ShmQueue, put}
use gpupipe.Queue.Retry.{consume}

-- The shared state of a stage: its two counters (none: the worker runs without coordination), its
-- output queue and its done event.
pub record Stage {ℓ} (A : Type ℓ) : Type ℓ where
  pub end_counter : Option ℕ
  pub worker_count : Option ℕ
  pub out_queue : Option (ShmQueue (Msg A))
  pub done : Option Bool

first : List ℕ → ℕ
first [] = 0
first (k ∷ ks) = k

rest : List ℕ → List ℕ
rest [] = []
rest (k ∷ ks) = ks

set_event : Option Bool → Option Bool
set_event none = none
set_event (some b) = some true

-- `n_ends`: one per consumer on the final stage, else one.
unfoldable pub end_count : Bool → ℕ → ℕ
end_count is_final_stage expected_consumers = if is_final_stage then expected_consumers else 1

module _ {ℓ} {A : Type ℓ} where
  -- The loop that puts the End sentinels; `Full` ends it. `taken` says how many messages the
  -- consumers take before each put.
  unfoldable pub put_ends : ℕ → List ℕ → ShmQueue (Msg A) → ShmQueue (Msg A)
  unfolding first rest
  put_ends zero taken q = q
  put_ends (suc n) taken q = elim (put (ctrl end_of_stream) (consume (first taken) q)) [
    | none ↦ consume (first taken) q
    | some q' ↦ put_ends n (rest taken) q'
  ]

  ends_on : ℕ → List ℕ → Option (ShmQueue (Msg A)) → Option (ShmQueue (Msg A))
  ends_on n taken none = none
  ends_on n taken (some q) = some (put_ends n taken q)

  -- What follows the increment, for the counts that the worker has read.
  announce : Bool → ℕ → List ℕ → ℕ → ℕ → Stage A → Stage A
  unfolding ends_on set_event end_count
  announce final consumers taken finished current st =
      if ltb finished current then st else record st {
        out_queue = ends_on (end_count final consumers) taken st.out_queue;
        done = set_event st.done;
      }

  finish_with : Bool → ℕ → List ℕ → Option ℕ → Option ℕ → Stage A → Stage A
  unfolding announce
  finish_with final consumers taken none count st = st
  finish_with final consumers taken (some finished) none st = st
  finish_with final consumers taken (some finished) (some count) st =
      announce final consumers taken (finished + 1) count
        (record st { end_counter = some (finished + 1) })

  unfoldable pub finish_worker : Bool → ℕ → List ℕ → Stage A → Stage A
  unfolding finish_with
  finish_worker final consumers taken st =
      finish_with final consumers taken st.end_counter st.worker_count st

  -- `n` workers finish, one after the other.
  unfoldable pub finish_all : ℕ → Bool → ℕ → List ℕ → Stage A → Stage A
  finish_all zero final consumers taken st = st
  finish_all (suc n) final consumers taken st =
      finish_all n final consumers taken (finish_worker final consumers taken st)
