-- ===== src/Store.antt =====
-- The payload store: the allocator of rust/src/store.rs, with the counters of its control segment
-- and the headers of its blocks. Other processes act on the same state, one operation at a time
-- under the lock. The bytes themselves are left to the operating system, which may refuse to map a
-- segment.
pub mod Classes
pub mod Cover
pub mod Sound
pub mod Disjoint
pub mod Handles
pub mod Payloads
pub mod Limits
pub mod Registered
mod Tests
use gpupipe.Prelude.{
  ℤ, pos, negsuc, String, str_eq, eq_iff, ℕ, zero, suc, ◌+◌, ◌-◌, ◌*◌, ◌/◌, ◌%◌, ◌^◌, ◌≤◌, ◌<◌, min,
  max, ◌≡◌, refl, sym, ap, ◌∙◌, subst, ◌≢◌, ◌↔◌, ◌⊎◌, inl, inr, Bool, true, false, not, ◌&&◌, ◌||◌,
  Option, none, some, List, [], ◌∷◌, ◌++◌, map, append-nil, append_assoc, arith, ltb, leb, ◌==◌,
  if◌then◌else◌, ltb→lt, lt→ltb, leb→le, le→leb, Bool-cases, Option-cases, if_rule, length,
  is_empty, get_elem?, set, take, drop, replicate, length-append, length-nil, is_empty-nil,
  is_empty-length, take-append-drop, length-take, length-drop, length-replicate, length-set, All,
  All-append, drop-drop, drop-append, length-map, sum,
}
use gpupipe.Store.Classes.{class_of, min_block}

-- A block: its place, its size class and size with the header, and its header: references and bytes
-- of payload. A dedicated block has a segment of its own.
pub record Block : Type 0 where
  pub dedicated : Bool
  pub seg : ℕ
  pub off : ℕ
  pub cls : ℕ
  pub size : ℕ
  pub rc : ℕ
  pub len : ℕ

-- The control segment. `free` lists the free blocks of all classes, those freed last first, and
-- `live` the blocks that somebody holds a reference to.
pub record Store : Type 0 where
  pub limit : ℕ
  pub seg_bytes : ℕ
  pub nreg : ℕ
  pub nded : ℕ
  pub cur : Option ℕ
  pub bump : ℕ
  pub used : ℕ
  pub free : List Block
  pub live : List Block

-- BLK_HDR, MAX_CLASS_BLOCK and DEDICATED_ALIGN.
abbrev pub blk_hdr : ℕ
blk_hdr = 64

abbrev pub max_class : ℕ
max_class = 2 ^ 26

abbrev pub dedicated_align : ℕ
dedicated_align = 65536

unfoldable pub round_up : ℕ → ℕ
round_up n = (n + 65535) / 65536 * 65536

-- `Store::new`.
unfoldable pub new_store : ℕ → ℕ → Store
unfolding round_up
new_store limit_bytes seg_bytes = record {
  limit = limit_bytes;
  seg_bytes = round_up (max seg_bytes (min_block * 16));
  nreg = 0;
  nded = 0;
  cur = none;
  bump = 0;
  used = 0;
  free = [];
  live = [];
}

unfoldable pub max_class_block : Store → ℕ
max_class_block st = min max_class (st.seg_bytes / 4)

-- A block that has just been handed out: one reference, and the length asked for.
unfoldable pub hand_out : ℕ → Block → Store → Option Block × Store
hand_out nbytes b st = (
  some (record b { rc = 1; len = nbytes }),
  record st { live = record b { rc = 1; len = nbytes } ∷ st.live },
)

-- `maps`: whether the system maps a new segment.
unfoldable pub alloc_dedicated : Bool → ℕ → Store → Option Block × Store
unfolding hand_out round_up
alloc_dedicated maps nbytes st =
    if ltb st.limit (st.used + round_up (blk_hdr + nbytes))
    then (none, st)
    else if maps
    then hand_out nbytes
        (record {
          dedicated = true;
          seg = st.nded;
          off = 0;
          cls = 0;
          size = round_up (blk_hdr + nbytes);
          rc = 0;
          len = 0;
        })
        (record st { nded = st.nded + 1; used = st.used + round_up (blk_hdr + nbytes) })
    else (none, record st { nded = st.nded + 1 })

-- The head of the free list of a class, and the free blocks without it.
unfoldable pub take_free : ℕ → List Block → Option (Block × List Block)
take_free cls [] = none
take_free cls (b ∷ bs) =
    let later = take_free cls bs in
    if b.cls == cls
    then some (b, bs)
    else elim later [ none ↦ none | some (c, rest) ↦ some (c, b ∷ rest) ]

unfoldable pub regular : ℕ → ℕ → ℕ → ℕ → Block
regular seg off cls size = record {
  dedicated = false;
  seg = seg;
  off = off;
  cls = cls;
  size = size;
  rc = 0;
  len = 0;
}

-- A new segment, from which the block is carved.
unfoldable pub grow : Bool → ℕ → ℕ → ℕ → Store → Option Block × Store
unfolding hand_out regular
grow maps cls size nbytes st =
    if ltb st.limit (st.used + st.seg_bytes)
    then (none, st)
    else if maps
    then hand_out nbytes (regular st.nreg 0 cls size) (record st {
      nreg = st.nreg + 1;
      used = st.used + st.seg_bytes;
      cur = some st.nreg;
      bump = size;
    })
    else (none, st)

-- The block is carved from the current segment if it still fits there.
unfoldable pub carve : Bool → ℕ → ℕ → ℕ → Option ℕ → Store → Option Block × Store
unfolding hand_out regular grow
carve maps cls size nbytes none st = grow maps cls size nbytes st
carve maps cls size nbytes (some cur) st =
    if leb (st.bump + size) st.seg_bytes
    then hand_out nbytes (regular cur st.bump cls size) (record st { bump = st.bump + size })
    else grow maps cls size nbytes st

unfoldable pub reuse : Bool → ℕ → ℕ → ℕ → Option (Block × List Block) → Store → Option Block × Store
unfolding hand_out carve
reuse maps cls size nbytes none st = carve maps cls size nbytes st.cur st
reuse maps cls size nbytes (some (b, rest)) st = hand_out nbytes b (record st { free = rest })

-- `Store::alloc`: a fresh block with room for `nbytes`, or none if the store is full.
unfoldable pub alloc : Bool → ℕ → Store → Option Block × Store
unfolding alloc_dedicated reuse take_free max_class_block
alloc maps nbytes st =
    if ltb (max_class_block st) (blk_hdr + nbytes)
    then alloc_dedicated maps nbytes st
    else let (cls, size) = class_of (blk_hdr + nbytes) in
      reuse maps cls size nbytes (take_free cls st.free) st

-- The handle that `Block::share` gives out: segment, offset and whether it is dedicated.
pub record Handle : Type 0 where
  pub at_dedicated : Bool
  pub at_seg : ℕ
  pub at_off : ℕ

unfoldable pub same_bool : Bool → Bool → Bool
same_bool true b = b
same_bool false b = not b

unfoldable pub names : Handle → Block → Bool
unfolding same_bool
names h b = same_bool h.at_dedicated b.dedicated && h.at_seg == b.seg && h.at_off == b.off

-- One more reference.
unfoldable pub share_in : Handle → List Block → List Block
unfolding names
share_in h [] = []
share_in h (b ∷ bs) =
    let rest = share_in h bs in if names h b then record b { rc = b.rc + 1 } ∷ bs else b ∷ rest

unfoldable pub share : Handle → Store → Store
unfolding share_in
share h st = record st { live = share_in h st.live }

-- The last reference to a block is gone, if `lost` names one.
pub record Dropped : Type 0 where
  pub lost : Option Block
  pub rest : List Block

unfoldable pub release_in : Handle → List Block → Dropped
unfolding names
release_in h [] = record { lost = none; rest = [] }
release_in h (b ∷ bs) =
    let later = release_in h bs in
    if names h b
    then (if leb b.rc 1
        then record { lost = some b; rest = bs }
        else record { lost = none; rest = record b { rc = b.rc - 1 } ∷ bs })
    else record { lost = later.lost; rest = b ∷ later.rest }

-- A dedicated segment is given back to the system, any other block to its free list.
unfoldable pub give_up : Option Block → Store → Store
give_up none st = st
give_up (some b) st =
    if b.dedicated then record st { used = st.used - b.size } else record st { free = b ∷ st.free }

-- `Drop` of a `Block`.
unfoldable pub release : Handle → Store → Store
unfolding release_in give_up
release h st =
    give_up (release_in h st.live).lost (record st { live = (release_in h st.live).rest })

-- The operations that any process may do, in any order.
pub data Op : Type 0 where
  allocate : Bool → ℕ → Op
  shared released : Handle → Op

unfoldable pub perform : Op → Store → Store
unfolding alloc share release
perform (allocate maps nbytes) st = (alloc maps nbytes st).1
perform (shared h) st = share h st
perform (released h) st = release h st

unfoldable pub perform_all : List Op → Store → Store
unfolding perform
perform_all [] st = st
perform_all (op ∷ ops) st = perform_all ops (perform op st)
