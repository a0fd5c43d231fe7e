-- ===== src/Store/Payloads.antt =====
-- Messages in the payload store: `alloc_bytes` and `load_spilled` of src/pipe/shmstore.py, which the
-- queues use through the interface `BlockStore`.
use gpupipe.Prelude.{
  ℕ, ◌≡◌, refl, subst, ◌≢◌, Bool, Option, none, some, List, [], ◌∷◌, arith, if◌then◌else◌, if_rule,
  length,
}
use gpupipe.Store.{Block, Store, Handle, alloc, share, release, release_in, give_up}
use gpupipe.Store.Sound.{IsSound}
use gpupipe.Store.Disjoint.{release-IsSound, alloc-IsSound}
use gpupipe.Store.Handles.{
  handle_of, names-handle_of, is_live, AreSingle, alloc-Adds, Adds, alloc-fresh, release-share,
  release_in-TakesOut, same_handle, names-differ, same_handle_refl, same_handle-other,
}

-- What a queue asks of a payload store. `content` is what a block in use holds.
pub record BlockStore : Type 1 where
  pub State : Type 0
  pub IsValid : State → Type 0
  pub content : Handle → State → Option (List ℕ)
  pub alloc_bytes : Bool → List ℕ → State → Option Handle × State
  pub load_spilled : Handle → State → List ℕ × State
  pub alloc_full :
      (maps : Bool) (bytes : List ℕ) (s : State)
      → IsValid s
      → (alloc_bytes maps bytes s).0 ≡ none
      → IsValid (alloc_bytes maps bytes s).1
        × ((k : Handle) → content k (alloc_bytes maps bytes s).1 ≡ content k s)
  pub alloc_fresh :
      (maps : Bool) (bytes : List ℕ) (s : State) (h : Handle)
      → IsValid s
      → (alloc_bytes maps bytes s).0 ≡ some h
      → IsValid (alloc_bytes maps bytes s).1
        × (content h s ≡ none)
        × (content h (alloc_bytes maps bytes s).1 ≡ some bytes)
        × ((k : Handle) → k ≢ h → content k (alloc_bytes maps bytes s).1 ≡ content k s)
  pub load_frees :
      (h : Handle) (bytes : List ℕ) (s : State)
      → IsValid s
      → content h s ≡ some bytes
      → IsValid (load_spilled h s).1
        × ((load_spilled h s).0 ≡ bytes)
        × (content h (load_spilled h s).1 ≡ none)
        × ((k : Handle) → k ≢ h → content k (load_spilled h s).1 ≡ content k s)

-- The store with the bytes of its blocks, those written last first.
pub record Shared : Type 0 where
  pub store : Store
  pub memory : List (Handle × List ℕ)

unfoldable pub read_block : Handle → List (Handle × List ℕ) → List ℕ
read_block h [] = []
read_block h ((k, bytes) ∷ memory) =
    let rest = read_block h memory in if same_handle h k then bytes else rest

-- The block of a new message: it is written, shared with the message, and let go.
write_block : List ℕ → Option Block × Store → List (Handle × List ℕ) → Option Handle × Shared
write_block bytes (none, st) memory = (none, record { store = st; memory = memory })
write_block bytes (some b, st) memory = (
  some (handle_of b),
  record {
    store = release (handle_of b) (share (handle_of b) st);
    memory = (handle_of b, bytes) ∷ memory;
  },
)

unfoldable pub alloc_bytes : Bool → List ℕ → Shared → Option Handle × Shared
unfolding write_block
alloc_bytes maps bytes s = write_block bytes (alloc maps (length bytes) s.store) s.memory

-- The block is adopted, read, and dropped.
unfoldable pub load_spilled : Handle → Shared → List ℕ × Shared
unfolding read_block
load_spilled h s = (read_block h s.memory, record s { store = release h s.store })

unfoldable pub content : Handle → Shared → Option (List ℕ)
unfolding read_block
content h s = if is_live h s.store.live then some (read_block h s.memory) else none

pub record IsValid (s : Shared) : Type 0 where
  pub sound : IsSound s.store
  pub single : AreSingle s.store.live

-- What an allocation comes to.
abbrev pub Allocates : Shared → List ℕ → Option Handle × Shared → Type 0
Allocates s bytes (none, s') = IsValid s' × ((k : Handle) → content k s' ≡ content k s)
Allocates s bytes (some h, s') =
    IsValid s'
    × (content h s ≡ none)
    × (content h s' ≡ some bytes)
    × ((k : Handle) → k ≢ h → content k s' ≡ content k s)

alloc_bytes-none :
    (maps : Bool) (bytes : List ℕ) (s : Shared) (st : Store)
    → IsValid s
    → alloc maps (length bytes) s.store ≡ (none, st)
    → Allocates s bytes (write_block bytes (none, st) s.memory)
unfolding write_block content
alloc_bytes-none maps bytes s st v e =
    let live : st.live ≡ s.store.live =
      subst (Adds s.store) e (alloc-Adds maps (length bytes) s.store v.sound.all_free) in
    (
      record {
        sound =
            subst (λ (r : Option Block × Store). IsSound r.1) e
              (alloc-IsSound maps (length bytes) s.store v.sound);
        single = rw live v.single;
      },
      λ k. rw live,
    )

alloc_bytes-some :
    (maps : Bool) (bytes : List ℕ) (s : Shared) (b : Block) (st : Store)
    → IsValid s
    → alloc maps (length bytes) s.store ≡ (some b, st)
    → Allocates s bytes (write_block bytes (some b, st) s.memory)
unfolding write_block content read_block is_live
alloc_bytes-some maps bytes s b st v e =
    let (live, one, new) = alloc-fresh maps (length bytes) s.store st b v.sound e in
    let same : release (handle_of b) (share (handle_of b) st) ≡ st =
      release-share b st s.store.live one live in
    let sound : IsSound st =
      subst (λ (r : Option Block × Store). IsSound r.1) e
        (alloc-IsSound maps (length bytes) s.store v.sound) in
    (
      record { sound = rw same sound; single = rw (same, live) (new, one, v.single) },
      ground (arith, new),
      rw (same, live) (ground (arith, names-handle_of b, same_handle_refl (handle_of b))),
      λ k other.
          rw (same, live)
            (ground (arith, names-differ k b other, same_handle-other k (handle_of b) other)),
    )

pub alloc_bytes-Allocates :
    (maps : Bool) (bytes : List ℕ) (s : Shared)
    → IsValid s
    → Allocates s bytes (alloc_bytes maps bytes s)
unfolding alloc_bytes
alloc_bytes-Allocates maps bytes s v = by_result (alloc maps (length bytes) s.store) refl
  where
    by_result :
        (r : Option Block × Store)
        → alloc maps (length bytes) s.store ≡ r
        → Allocates s bytes (write_block bytes r s.memory)
    by_result (none, st) e = alloc_bytes-none maps bytes s st v e
    by_result (some b, st) e = alloc_bytes-some maps bytes s b st v e

live_lost :
    (h : Handle) (s : Shared) (bytes : List ℕ)
    → content h s ≡ some bytes
    → read_block h s.memory ≡ bytes
unfolding content
live_lost h s bytes e = ground arith

live_give_up : (o : Option Block) (st : Store) → (give_up o st).live ≡ st.live
unfolding give_up
live_give_up none st = refl
live_give_up (some b) st =
    if_rule (λ (r : Store). r.live ≡ st.live) b.dedicated _ _ (λ _. refl) (λ _. refl)

pub load_spilled-frees :
    (h : Handle) (bytes : List ℕ) (s : Shared)
    → IsValid s
    → content h s ≡ some bytes
    → IsValid (load_spilled h s).1
      × ((load_spilled h s).0 ≡ bytes)
      × (content h (load_spilled h s).1 ≡ none)
      × ((k : Handle) → k ≢ h → content k (load_spilled h s).1 ≡ content k s)
unfolding load_spilled content release
load_spilled-frees h bytes s v e =
    let d = release_in h s.store.live in
    let t = release_in-TakesOut h s.store.live v.single in
    let live : (release h s.store).live ≡ d.rest =
      unfold release in live_give_up d.lost (record s.store { live = d.rest }) in
    (
      record { sound = release-IsSound h s.store v.sound; single = rw live t.single },
      ground arith,
      rw live (ground (arith, t.gone)),
      λ k other. rw (live, t.others k other),
    )

pub full-Allocates :
    (s : Shared) (bytes : List ℕ) (r : Option Handle × Shared)
    → Allocates s bytes r
    → r.0 ≡ none
    → IsValid r.1 × ((k : Handle) → content k r.1 ≡ content k s)
full-Allocates s bytes (none, s') a e = a
full-Allocates s bytes (some h, s') a e = absurd cc

pub fresh-Allocates :
    (s : Shared) (bytes : List ℕ) (r : Option Handle × Shared) (h : Handle)
    → Allocates s bytes r
    → r.0 ≡ some h
    → IsValid r.1
      × (content h s ≡ none)
      × (content h r.1 ≡ some bytes)
      × ((k : Handle) → k ≢ h → content k r.1 ≡ content k s)
fresh-Allocates s bytes (none, s') h a e = absurd cc
fresh-Allocates s bytes (some k, s') h a e = let same : k ≡ h = cc in rw same at a

-- The store of the pipeline is such a store.
abbrev pub shared_store : BlockStore
shared_store = record {
  State = Shared;
  IsValid = IsValid;
  content = content;
  alloc_bytes = alloc_bytes;
  load_spilled = load_spilled;
  alloc_full = λ maps bytes s v full.
      full-Allocates s bytes (alloc_bytes maps bytes s) (alloc_bytes-Allocates maps bytes s v) full;
  alloc_fresh = λ maps bytes s h v e.
      fresh-Allocates s bytes (alloc_bytes maps bytes s) h (alloc_bytes-Allocates maps bytes s v) e;
  load_frees = load_spilled-frees;
}
