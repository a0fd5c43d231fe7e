-- ===== src/Queue/Encode.antt =====
-- How a `ShmQueue` sends objects: `encode`, `put_encoded`, `get` and `_load` of
-- src/pipe/shmqueue.py. Pickling is Python's, and the payload store is used through its interface.
pub mod Trips
pub mod Uses
mod Tests
use gpupipe.Prelude.{
  ℤ, pos, negsuc, String, str_eq, eq_iff, ℕ, zero, suc, ◌+◌, ◌-◌, ◌*◌, ◌/◌, ◌%◌, ◌^◌, ◌≤◌, ◌<◌, min,
  max, ◌≡◌, refl, sym, ap, ◌∙◌, subst, ◌≢◌, ◌↔◌, ◌⊎◌, inl, inr, Bool, true, false, not, ◌&&◌, ◌||◌,
  Option, none, some, List, [], ◌∷◌, ◌++◌, map, append-nil, append_assoc, arith, ltb, leb, ◌==◌,
  if◌then◌else◌, ltb→lt, lt→ltb, leb→le, le→leb, Bool-cases, Option-cases, if_rule, length,
  is_empty, get_elem?, set, take, drop, replicate, length-append, length-nil, is_empty-nil,
  is_empty-length, take-append-drop, length-take, length-drop, length-replicate, length-set, All,
  All-append, drop-drop, drop-append, length-map, sum,
}
use gpupipe.Store.{Handle}
use gpupipe.Store.Payloads.{BlockStore}
use gpupipe.Queue.{ShmQueue}
use gpupipe.Queue

-- What the queue relies on from pickle: what was dumped can be loaded, and no pickle begins with a
-- zero byte.
pub record Pickle {ℓ} (O : Type ℓ) : Type ℓ where
  pub dumps : O → List ℕ
  pub loads : List ℕ → Option O
  pub dumps_handle : Handle → List ℕ
  pub loads_handle : List ℕ → Option Handle
  pub loads-dumps : (o : O) → loads (dumps o) ≡ some o
  pub loads-dumps_handle : (h : Handle) → loads_handle (dumps_handle h) ≡ some h
  pub starts_with_proto : (o : O) (rest : List ℕ) → dumps o ≢ 0 ∷ rest

-- A message as the ring carries it: its bytes, and whether it is to spill to disk.
abbrev pub Message : Type 0
Message = List ℕ × Bool

module _ {ℓ} {O : Type ℓ} (pickle : Pickle O) (blocks : BlockStore) where
  open pickle use {dumps, loads, dumps_handle, loads_handle}
  open blocks use {State, alloc_bytes, load_spilled}

  -- The bytes of a message that is too big for the ring's fast path.
  spill : List ℕ → Option Handle × State → Message × State
  spill bytes (none, s) = ((bytes, true), s)
  spill bytes (some h, s) = ((0 ∷ dumps_handle h, false), s)

  -- `maps` says whether the system maps a segment that the store asks for.
  unfoldable pub encode : ℕ → Bool → Bool → O → State → Message × State
  unfolding spill
  encode spill_at has_store maps o s =
      if ltb spill_at (length (dumps o)) && has_store
      then spill (dumps o) (alloc_bytes maps (dumps o) s)
      else ((dumps o, false), s)

  load_block : Option Handle → State → Option O × State
  load_block none s = (none, s)
  load_block (some h) s = (loads (load_spilled h s).0, (load_spilled h s).1)

  -- `_load`.
  unfoldable pub load : List ℕ → State → Option O × State
  unfolding load_block
  load [] s = (loads [], s)
  load (b ∷ bs) s = if b == 0 then load_block (loads_handle bs) s else (loads (b ∷ bs), s)

  -- `put`: none is the exception `Full`, which leaves the encoding behind in the store.
  unfoldable pub put :
      ℕ → Bool → Bool → O → ShmQueue Message × State → Option (ShmQueue Message) × State
  unfolding encode
  put spill_at has_store maps o (q, s) =
      (Queue.put (encode spill_at has_store maps o s).0 q, (encode spill_at has_store maps o s).1)

  load_front :
      Option (Message × ShmQueue Message) → State → Option (Option O × ShmQueue Message) × State
  load_front none s = (none, s)
  load_front (some (m, q)) s = (some ((load m.0 s).0, q), (load m.0 s).1)

  -- `get`: none is the exception `Empty`; the object is missing if it cannot be loaded.
  unfoldable pub get : ShmQueue Message × State → Option (Option O × ShmQueue Message) × State
  unfolding load_front
  get (q, s) = load_front (Queue.get q) s
