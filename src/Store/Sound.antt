-- ===== src/Store/Sound.antt =====
-- The allocator of the payload store hands out blocks that do not overlap.
use gpupipe.Prelude.{
  ℕ, ◌+◌, ◌*◌, ◌/◌, ◌≤◌, ◌<◌, min, ◌≡◌, refl, subst, inl, inr, Bool, false, Option, none, some,
  List, arith, ltb, leb, ◌==◌, if◌then◌else◌, if_rule, All,
}
use gpupipe.Store.{
  Block, Store, blk_hdr, max_class_block, max_class, round_up, hand_out, alloc_dedicated, regular,
  grow, carve, reuse, alloc,
}
use gpupipe.Store.Classes.{class_of, class_of-bounds, class_of-size, class_of-small, size_cases}
use gpupipe.Store.Cover.{
  cover, dedicated_bytes, OfClass, IsFree, IsLive, Takes, Taken, take_free-Takes, IsNumbered,
  IsNumbered-more,
}

-- How much of a regular segment has been carved: all of it, except in the current one.
abbrev pub is_current : ℕ → Option ℕ → Bool
is_current seg none = false
is_current seg (some c) = seg == c

abbrev pub carved : Store → ℕ → ℕ
carved st seg =
    if ltb seg st.nreg then (if is_current seg st.cur then st.bump else st.seg_bytes) else 0

abbrev pub CurExists : ℕ → Option ℕ → Type 0
CurExists nreg none = Unit
CurExists nreg (some c) = c < nreg

-- Each carved byte belongs to at most one block, live or free, and no other byte to any.
pub record IsSound (st : Store) : Type 0 where
  pub disjoint :
      (seg x : ℕ)
      → cover seg x st.live + cover seg x st.free ≤ (if ltb x (carved st seg) then 1 else 0)
  pub all_live : All IsLive st.live
  pub all_free : All IsFree st.free
  pub cur_exists : CurExists st.nreg st.cur
  pub bump_fits : st.bump ≤ st.seg_bytes
  pub roomy : 65536 ≤ st.seg_bytes
  pub accounted : st.used ≡ st.nreg * st.seg_bytes + dedicated_bytes st.live
  pub within : st.used ≤ st.limit
  pub numbered : All (IsNumbered st.nded) st.live

-- What an allocation returns: nothing, or a block with room for what was asked.
abbrev pub HasRoom : ℕ → Option Block → Type 0
HasRoom nbytes none = Unit
HasRoom nbytes (some b) = (b.len ≡ nbytes) × (blk_hdr + nbytes ≤ b.size) × (b.rc ≡ 1)

abbrev pub Good : ℕ → Option Block × Store → Type 0
Good nbytes r = IsSound r.1 × HasRoom nbytes r.0

round_up-le : (n : ℕ) → n ≤ round_up n
unfolding round_up
round_up-le n = omega arith

alloc_dedicated-Good :
    (maps : Bool) (nbytes : ℕ) (st : Store)
    → IsSound st
    → Good nbytes (alloc_dedicated maps nbytes st)
unfolding alloc_dedicated hand_out
alloc_dedicated-Good maps nbytes st v =
    if_rule (Good nbytes) (ltb st.limit (st.used + round_up (blk_hdr + nbytes))) _ _ (λ _. (v, tt))
      (λ fits.
        if_rule (Good nbytes) maps _ _
          (λ _. (
            record {
              disjoint = λ seg x. ground (arith, v.disjoint seg x);
              all_live = ((round_up-le (blk_hdr + nbytes), λ e. absurd cc), v.all_live);
              all_free = v.all_free;
              cur_exists = v.cur_exists;
              bump_fits = v.bump_fits;
              roomy = v.roomy;
              accounted = omega (arith, v.accounted);
              within = ground arith;
              numbered = (λ e. omega arith, IsNumbered-more st.nded st.live v.numbered);
            },
            (refl, round_up-le (blk_hdr + nbytes), refl),
          ))
          (λ _. (
            record {
              disjoint = v.disjoint;
              all_live = v.all_live;
              all_free = v.all_free;
              cur_exists = v.cur_exists;
              bump_fits = v.bump_fits;
              roomy = v.roomy;
              accounted = v.accounted;
              within = v.within;
              numbered = IsNumbered-more st.nded st.live v.numbered;
            },
            tt,
          )))

-- A regular block of a class with room for `nbytes`.
pub record Fits (cls size nbytes : ℕ) : Type 0 where
  pub total : ℕ
  pub is_class : class_of total ≡ (cls, size)
  pub room : blk_hdr + nbytes ≤ size

carve_current-Good :
    (cls size nbytes c : ℕ) (st : Store)
    → Fits cls size nbytes
    → st.cur ≡ some c
    → c < st.nreg
    → st.bump + size ≤ st.seg_bytes
    → IsSound st
    → Good nbytes
        (hand_out nbytes (regular c st.bump cls size) (record st { bump = st.bump + size }))
unfolding hand_out regular
carve_current-Good cls size nbytes c st f cur c_exists fits v = (
  record {
    disjoint = λ seg x. ground (arith, v.disjoint seg x);
    all_live = ((f.room, λ e. record { total = f.total; is_class = f.is_class }), v.all_live);
    all_free = v.all_free;
    cur_exists = v.cur_exists;
    bump_fits = fits;
    roomy = v.roomy;
    accounted = omega (arith, v.accounted);
    within = v.within;
    numbered = (λ e. absurd cc, v.numbered);
  },
  (refl, f.room, refl),
)

grow-Good :
    (maps : Bool) (cls size nbytes : ℕ) (st : Store)
    → Fits cls size nbytes
    → size ≤ st.seg_bytes
    → IsSound st
    → Good nbytes (grow maps cls size nbytes st)
unfolding grow hand_out regular
grow-Good maps cls size nbytes st f small v =
    if_rule (Good nbytes) (ltb st.limit (st.used + st.seg_bytes)) _ _ (λ _. (v, tt))
      (λ fits.
        if_rule (Good nbytes) maps _ _
          (λ _. (
            record {
              disjoint = λ seg x. ground (arith, v.disjoint seg x, v.bump_fits);
              all_live =
                  ((f.room, λ e. record { total = f.total; is_class = f.is_class }), v.all_live);
              all_free = v.all_free;
              cur_exists = omega arith;
              bump_fits = small;
              roomy = v.roomy;
              accounted = grind (arith, v.accounted);
              within = ground arith;
              numbered = (λ e. absurd cc, v.numbered);
            },
            (refl, f.room, refl),
          ))
          (λ _. (v, tt)))

carve-Good :
    (maps : Bool) (cls size nbytes : ℕ) (cur : Option ℕ) (st : Store)
    → Fits cls size nbytes
    → size ≤ st.seg_bytes
    → st.cur ≡ cur
    → IsSound st
    → Good nbytes (carve maps cls size nbytes cur st)
unfolding carve
carve-Good maps cls size nbytes none st f small e v = grow-Good maps cls size nbytes st f small v
carve-Good maps cls size nbytes (some c) st f small e v =
    if_rule (Good nbytes) (leb (st.bump + size) st.seg_bytes) _ _
      (λ h.
        carve_current-Good cls size nbytes c st f e (subst (CurExists st.nreg) e v.cur_exists)
          (ground arith) v)
      (λ _. grow-Good maps cls size nbytes st f small v)

same_size :
    (cls size nbytes : ℕ) (b : Block)
    → Fits cls size nbytes
    → b.cls ≡ cls
    → (c : OfClass b) → b.size ≡ size
same_size cls size nbytes b f same c =
    let e : (class_of c.total).0 ≡ (class_of f.total).0 = rw (c.is_class, f.is_class) same in
    let e' : (class_of c.total).1 ≡ (class_of f.total).1 = class_of-size c.total f.total e in
    rw (c.is_class, f.is_class) at e'

reuse_free-Good :
    (cls size nbytes : ℕ) (b : Block) (rest : List Block) (st : Store)
    → Fits cls size nbytes
    → Taken cls st.free b rest
    → IsSound st
    → Good nbytes (hand_out nbytes b (record st { free = rest }))
unfolding hand_out
reuse_free-Good cls size nbytes b rest st f t v =
    let same : b.size ≡ size = same_size cls size nbytes b f t.of_cls t.is_free.1 in
    (
      record {
        disjoint = λ seg x. omega (arith, v.disjoint seg x, t.cover_same seg x);
        all_live = (
          (
            omega (arith, f.room),
            λ e. record { total = t.is_free.1.total; is_class = t.is_free.1.is_class },
          ),
          v.all_live,
        );
        all_free = t.rest_free;
        cur_exists = v.cur_exists;
        bump_fits = v.bump_fits;
        roomy = v.roomy;
        accounted = ground (arith, v.accounted, t.is_free.0);
        within = v.within;
        numbered = (λ e. absurd (ground (arith, t.is_free.0)), v.numbered);
      },
      (refl, omega (arith, f.room), refl),
    )

reuse-Good :
    (maps : Bool) (cls size nbytes : ℕ) (o : Option (Block × List Block)) (st : Store)
    → Fits cls size nbytes
    → size ≤ st.seg_bytes
    → Takes cls st.free o
    → IsSound st
    → Good nbytes (reuse maps cls size nbytes o st)
unfolding reuse
reuse-Good maps cls size nbytes none st f small t v =
    carve-Good maps cls size nbytes st.cur st f small refl v
reuse-Good maps cls size nbytes (some (b, rest)) st f small t v =
    reuse_free-Good cls size nbytes b rest st f t v

small_class :
    (total seg_bytes : ℕ)
    → total ≤ seg_bytes / 4
    → 65536 ≤ seg_bytes
    → (class_of total).1 ≤ seg_bytes
small_class total seg_bytes small roomy = elim (size_cases total) [
  | inl tiny ↦ rw (class_of-small total tiny) (omega arith)
  | inr large ↦ omega (arith, (class_of-bounds total).1 large)
]

-- Whatever is asked for, an allocation from a sound store leaves it sound, and the block it hands
-- out, if any, has room for the bytes and one reference.
pub alloc-Good :
    (maps : Bool) (nbytes : ℕ) (st : Store) → IsSound st → Good nbytes (alloc maps nbytes st)
unfolding alloc max_class_block
alloc-Good maps nbytes st v =
    let (room, close, few) = class_of-bounds (blk_hdr + nbytes) in
    if_rule (Good nbytes) (ltb (min max_class (st.seg_bytes / 4)) (blk_hdr + nbytes)) _ _
      (λ _. alloc_dedicated-Good maps nbytes st v)
      (λ small.
        reuse-Good maps (class_of (blk_hdr + nbytes)).0 (class_of (blk_hdr + nbytes)).1 nbytes _ st
          (record { total = blk_hdr + nbytes; is_class = refl; room = room })
          (small_class (blk_hdr + nbytes) st.seg_bytes (ground arith) v.roomy)
          (take_free-Takes _ st.free v.all_free) v)
