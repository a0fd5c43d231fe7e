-- ===== src/Store/Cover.antt =====
-- Which byte of the segments of the payload store belongs to which blocks.
use gpupipe.Prelude.{
  ℕ, ◌+◌, ◌≤◌, ◌<◌, ◌≡◌, refl, true, false, not, ◌&&◌, Option, none, some, List, [], ◌∷◌, arith,
  ltb, leb, ◌==◌, if◌then◌else◌, if_rule, All,
}
use gpupipe.Store.{Block, Handle, names, take_free, share_in, Dropped, release_in}
use gpupipe.Store.Classes.{class_of}

-- 1 if the byte `x` of the regular segment `seg` belongs to the block, else 0.
abbrev pub covers : ℕ → ℕ → Block → ℕ
covers seg x b =
    if not b.dedicated && b.seg == seg && leb b.off x && ltb x (b.off + b.size) then 1 else 0

abbrev pub cover : ℕ → ℕ → List Block → ℕ
cover seg x [] = 0
cover seg x (b ∷ bs) = covers seg x b + cover seg x bs

-- The bytes of the dedicated segments.
abbrev pub dedicated_bytes : List Block → ℕ
dedicated_bytes [] = 0
dedicated_bytes (b ∷ bs) = (if b.dedicated then b.size else 0) + dedicated_bytes bs

-- A block of some size class.
pub record OfClass (b : Block) : Type 0 where
  pub total : ℕ
  pub is_class : class_of total ≡ (b.cls, b.size)

abbrev pub IsFree : Block → Type 0
IsFree b = (b.dedicated ≡ false) × OfClass b

abbrev pub IsLive : Block → Type 0
IsLive b = (64 + b.len ≤ b.size) × (b.dedicated ≡ false → OfClass b)

-- What taking a free block of a class does to the free blocks.
pub record Taken (cls : ℕ) (bs : List Block) (b : Block) (rest : List Block) : Type 0 where
  pub of_cls : b.cls ≡ cls
  pub cover_same : (seg x : ℕ) → covers seg x b + cover seg x rest ≡ cover seg x bs
  pub is_free : IsFree b
  pub rest_free : All IsFree rest

abbrev pub Takes : ℕ → List Block → Option (Block × List Block) → Type 0
Takes cls bs none = Unit
Takes cls bs (some (b, rest)) = Taken cls bs b rest

pass_over :
    (cls : ℕ) (c : Block) (cs : List Block) (o : Option (Block × List Block))
    → IsFree c
    → Takes cls cs o
    → Takes cls (c ∷ cs) (elim o [ none ↦ none | some (b, rest) ↦ some (b, c ∷ rest) ])
pass_over cls c cs none free t = tt
pass_over cls c cs (some (b, rest)) free t = record {
  of_cls = t.of_cls;
  cover_same = λ seg x. omega (arith, t.cover_same seg x);
  is_free = t.is_free;
  rest_free = (free, t.rest_free);
}

pub take_free-Takes : (cls : ℕ) (bs : List Block) → All IsFree bs → Takes cls bs (take_free cls bs)
unfolding take_free
take_free-Takes cls [] all = tt
take_free-Takes cls (c ∷ cs) all =
    if_rule (Takes cls (c ∷ cs)) (c.cls == cls) _ _
      (λ same. record {
        of_cls = ground arith;
        cover_same = λ seg x. refl;
        is_free = all.0;
        rest_free = all.1;
      })
      (λ _. pass_over cls c cs (take_free cls cs) all.0 (take_free-Takes cls cs all.1))

pub cover-share_in :
    (seg x : ℕ) (h : Handle) (bs : List Block) → cover seg x (share_in h bs) ≡ cover seg x bs
unfolding share_in
cover-share_in seg x h [] = refl
cover-share_in seg x h (b ∷ bs) = ground (arith, cover-share_in seg x h bs)

pub dedicated_bytes-share_in :
    (h : Handle) (bs : List Block) → dedicated_bytes (share_in h bs) ≡ dedicated_bytes bs
unfolding share_in
dedicated_bytes-share_in h [] = refl
dedicated_bytes-share_in h (b ∷ bs) = ground (arith, dedicated_bytes-share_in h bs)

-- The segment of a dedicated block is one of the first `n`.
abbrev pub IsNumbered : ℕ → Block → Type 0
IsNumbered n b = b.dedicated ≡ true → b.seg < n

pub IsNumbered-more :
    (n : ℕ) (bs : List Block) → All (IsNumbered n) bs → All (IsNumbered (n + 1)) bs
IsNumbered-more n [] all = tt
IsNumbered-more n (b ∷ bs) all = (λ e. omega (arith, all.0 e), IsNumbered-more n bs all.1)

pub share_in-IsNumbered :
    (n : ℕ) (h : Handle) (bs : List Block)
    → All (IsNumbered n) bs
    → All (IsNumbered n) (share_in h bs)
unfolding share_in
share_in-IsNumbered n h [] all = tt
share_in-IsNumbered n h (b ∷ bs) all =
    if_rule (All (IsNumbered n)) (names h b) _ _ (λ _. (all.0, all.1))
      (λ _. (all.0, share_in-IsNumbered n h bs all.1))

pub release_in-IsNumbered :
    (n : ℕ) (h : Handle) (bs : List Block)
    → All (IsNumbered n) bs
    → All (IsNumbered n) (release_in h bs).rest
unfolding release_in
release_in-IsNumbered n h [] all = tt
release_in-IsNumbered n h (b ∷ bs) all =
    if_rule (λ (d : Dropped). All (IsNumbered n) d.rest) (names h b) _ _
      (λ _.
        if_rule (λ (d : Dropped). All (IsNumbered n) d.rest) (leb b.rc 1) _ _ (λ _. all.1)
          (λ _. (all.0, all.1)))
      (λ _. (all.0, release_in-IsNumbered n h bs all.1))

pub share_in-IsLive : (h : Handle) (bs : List Block) → All IsLive bs → All IsLive (share_in h bs)
unfolding share_in
share_in-IsLive h [] all = tt
share_in-IsLive h (b ∷ bs) all =
    if_rule (All IsLive) (names h b) _ _
      (λ _. (
        (all.0.0, λ e. record { total = (all.0.1 e).total; is_class = (all.0.1 e).is_class }),
        all.1,
      ))
      (λ _. (all.0, share_in-IsLive h bs all.1))

-- What a release does to the live blocks: it loses at most one.
abbrev pub lost_cover : ℕ → ℕ → Option Block → ℕ
lost_cover seg x none = 0
lost_cover seg x (some b) = covers seg x b

abbrev pub lost_dedicated : Option Block → ℕ
lost_dedicated none = 0
lost_dedicated (some b) = if b.dedicated then b.size else 0

abbrev pub LostLive : Option Block → Type 0
LostLive none = Unit
LostLive (some b) = IsLive b

pub record Releases (bs : List Block) (d : Dropped) : Type 0 where
  pub cover_same : (seg x : ℕ) → lost_cover seg x d.lost + cover seg x d.rest ≡ cover seg x bs
  pub dedicated_same : lost_dedicated d.lost + dedicated_bytes d.rest ≡ dedicated_bytes bs
  pub rest_live : All IsLive d.rest
  pub lost_live : LostLive d.lost

pub release_in-Releases :
    (h : Handle) (bs : List Block) → All IsLive bs → Releases bs (release_in h bs)
unfolding release_in
release_in-Releases h [] all = record {
  cover_same = λ seg x. refl;
  dedicated_same = refl;
  rest_live = tt;
  lost_live = tt;
}
release_in-Releases h (b ∷ bs) all =
    let later = release_in-Releases h bs all.1 in
    if_rule (Releases (b ∷ bs)) (names h b) _ _
      (λ _.
        if_rule (Releases (b ∷ bs)) (leb b.rc 1) _ _
          (λ _. record {
            cover_same = λ seg x. refl;
            dedicated_same = refl;
            rest_live = all.1;
            lost_live = all.0;
          })
          (λ _. record {
            cover_same = λ seg x. omega arith;
            dedicated_same = omega arith;
            rest_live = (
              (all.0.0, λ e. record { total = (all.0.1 e).total; is_class = (all.0.1 e).is_class }),
              all.1,
            );
            lost_live = tt;
          }))
      (λ _. record {
        cover_same = λ seg x. omega (arith, later.cover_same seg x);
        dedicated_same = omega (arith, later.dedicated_same);
        rest_live = (all.0, later.rest_live);
        lost_live = later.lost_live;
      })
