-- ===== src/Types.antt =====
-- `Sentinel` of src/pipe/types.py and the message shapes of src/pipe/queues.py.
use gpupipe.Prelude.{List, [], ◌∷◌, ◌++◌, ◌≡◌, refl, append_assoc}

pub data Sentinel : Type 0 where
  end_of_stream worker_stop : Sentinel

-- What one queue slot holds: a bare payload, a `Chunk` of payloads, or a control signal.
pub data Msg {ℓ} (A : Type ℓ) : Type ℓ where
  item : A → Msg A
  chunk : List A → Msg A
  ctrl : Sentinel → Msg A

module _ {ℓ} {A : Type ℓ} where
  -- The payloads that a list of messages carries, in order.
  abbrev pub payloads : List (Msg A) → List A
  payloads [] = []
  payloads (item a ∷ ms) = a ∷ payloads ms
  payloads (chunk xs ∷ ms) = xs ++ payloads ms
  payloads (ctrl s ∷ ms) = payloads ms

module _ {ℓ} {A : Type ℓ} where
  pub payloads-append : (ms ns : List (Msg A)) → payloads (ms ++ ns) ≡ payloads ms ++ payloads ns
  payloads-append [] ns = refl
  payloads-append (item a ∷ ms) ns = simp (payloads-append ms ns)
  payloads-append (chunk xs ∷ ms) ns = simp (payloads-append ms ns, append_assoc)
  payloads-append (ctrl s ∷ ms) ns = payloads-append ms ns
