-- ===== src/Store/Handles.antt =====
-- Which handles of the payload store name a live block.
use gpupipe.Prelude.{
  ℕ, ◌+◌, ◌≤◌, ◌≡◌, refl, sym, ap, ◌∙◌, subst, ◌≢◌, inl, inr, Bool, true, false, ◌&&◌, ◌||◌, Option,
  none, some, List, [], ◌∷◌, arith, ltb, leb, ◌==◌, Bool-cases, if_rule, All,
}
use gpupipe.Store.{
  Block, Store, Handle, names, same_bool, share_in, release_in, Dropped, alloc, alloc_dedicated,
  reuse, carve, grow, hand_out, regular, max_class_block, blk_hdr, round_up, share, release,
  give_up,
}
use gpupipe.Store.Cover.{cover, covers, IsLive, IsNumbered, IsFree, Takes, take_free-Takes}
use gpupipe.Store.Sound.{IsSound, Good, alloc-Good}

abbrev pub handle_of : Block → Handle
handle_of b = record { at_dedicated = b.dedicated; at_seg = b.seg; at_off = b.off }

unfoldable pub same_handle : Handle → Handle → Bool
unfolding same_bool
same_handle h k =
    same_bool h.at_dedicated k.at_dedicated && h.at_seg == k.at_seg && h.at_off == k.at_off

pub same_handle_refl : (h : Handle) → same_handle h h ≡ true
unfolding same_handle same_bool
same_handle_refl h = ground arith

pub same_handle-other : (h k : Handle) → h ≢ k → same_handle h k ≡ false
same_handle-other h k other = elim (Bool-cases (same_handle h k)) [
  | inl same ↦ absurd (other (unfold same_handle same_bool in ground arith))
  | inr differs ↦ differs
]

pub names-handle_of : (b : Block) → names (handle_of b) b ≡ true
unfolding names same_bool
names-handle_of b = ground arith

pub names-same : (h : Handle) (b : Block) → names h b ≡ true → h ≡ handle_of b
unfolding names same_bool
names-same h b e = ground arith

unfoldable pub is_live : Handle → List Block → Bool
is_live h [] = false
is_live h (b ∷ bs) = names h b || is_live h bs

-- Every live block has a handle of its own, and one reference.
abbrev pub AreSingle : List Block → Type 0
AreSingle [] = Unit
AreSingle (b ∷ bs) = (is_live (handle_of b) bs ≡ false) × (b.rc ≡ 1) × AreSingle bs

-- No live block stands where an uncovered byte is.
fresh_regular :
    (h : Handle) (bs : List Block)
    → h.at_dedicated ≡ false
    → cover h.at_seg h.at_off bs ≡ 0
    → All IsLive bs
    → is_live h bs ≡ false
unfolding is_live names same_bool
fresh_regular h [] own none_there all = refl
fresh_regular h (b ∷ bs) own none_there all =
    ground (arith, fresh_regular h bs own (omega arith) all.1, all.0.0)

fresh_dedicated :
    (n : ℕ) (h : Handle) (bs : List Block)
    → h.at_dedicated ≡ true
    → n ≤ h.at_seg
    → All (IsNumbered n) bs
    → is_live h bs ≡ false
unfolding is_live names same_bool
fresh_dedicated n h [] own new all = refl
fresh_dedicated n h (b ∷ bs) own new all =
    ground (arith, fresh_dedicated n h bs own new all.1, all.0)

-- What a successful or failed allocation does to the live blocks.
abbrev pub Adds : Store → Option Block × Store → Type 0
Adds st (none, st') = st'.live ≡ st.live
Adds st (some b, st') =
    (st'.live ≡ b ∷ st.live) × (b.rc ≡ 1) × (b.dedicated ≡ true → b.seg ≡ st.nded)

grow-Adds :
    (maps : Bool) (cls size nbytes : ℕ) (st : Store) → Adds st (grow maps cls size nbytes st)
unfolding grow hand_out regular
grow-Adds maps cls size nbytes st =
    if_rule (Adds st) (ltb st.limit (st.used + st.seg_bytes)) _ _ (λ _. refl)
      (λ _. if_rule (Adds st) maps _ _ (λ _. (refl, refl, λ e. absurd cc)) (λ _. refl))

carve-Adds :
    (maps : Bool) (cls size nbytes : ℕ) (cur : Option ℕ) (st : Store)
    → Adds st (carve maps cls size nbytes cur st)
unfolding carve hand_out regular
carve-Adds maps cls size nbytes none st = grow-Adds maps cls size nbytes st
carve-Adds maps cls size nbytes (some c) st =
    if_rule (Adds st) (leb (st.bump + size) st.seg_bytes) _ _ (λ _. (refl, refl, λ e. absurd cc))
      (λ _. grow-Adds maps cls size nbytes st)

reuse-Adds :
    (maps : Bool) (cls size nbytes : ℕ) (o : Option (Block × List Block)) (st : Store)
    → Takes cls st.free o
    → Adds st (reuse maps cls size nbytes o st)
unfolding reuse hand_out
reuse-Adds maps cls size nbytes none st t = carve-Adds maps cls size nbytes st.cur st
reuse-Adds maps cls size nbytes (some (b, rest)) st t =
    (refl, refl, λ e. absurd (ground (arith, t.is_free.0)))

pub alloc-Adds :
    (maps : Bool) (nbytes : ℕ) (st : Store) → All IsFree st.free → Adds st (alloc maps nbytes st)
unfolding alloc alloc_dedicated hand_out
alloc-Adds maps nbytes st all =
    if_rule (Adds st) (ltb (max_class_block st) (blk_hdr + nbytes)) _ _
      (λ _.
        if_rule (Adds st) (ltb st.limit (st.used + round_up (blk_hdr + nbytes))) _ _ (λ _. refl)
          (λ _. if_rule (Adds st) maps _ _ (λ _. (refl, refl, λ e. refl)) (λ _. refl)))
      (λ _. reuse-Adds maps _ _ nbytes _ st (take_free-Takes _ st.free all))

fresh_by_kind :
    (d : Bool) (b : Block) (n : ℕ) (bs : List Block)
    → b.dedicated ≡ d
    → (d ≡ true → n ≤ b.seg)
    → (d ≡ false → cover b.seg b.off bs ≡ 0)
    → All IsLive bs
    → All (IsNumbered n) bs
    → is_live (handle_of b) bs ≡ false
fresh_by_kind true b n bs e new none_there live numbered =
    fresh_dedicated n (handle_of b) bs e (new refl) numbered
fresh_by_kind false b n bs e new none_there live numbered =
    fresh_regular (handle_of b) bs e (none_there refl) live

-- A block that is handed out has a handle that no live block has.
pub alloc-fresh :
    (maps : Bool) (nbytes : ℕ) (st st' : Store) (b : Block)
    → IsSound st
    → alloc maps nbytes st ≡ (some b, st')
    → (st'.live ≡ b ∷ st.live) × (b.rc ≡ 1) × (is_live (handle_of b) st.live ≡ false)
alloc-fresh maps nbytes st st' b v e =
    let (live, one, numbered) : Adds st (some b, st') =
      subst (Adds st) e (alloc-Adds maps nbytes st v.all_free) in
    let (v', room) : Good nbytes (some b, st') =
      subst (Good nbytes) e (alloc-Good maps nbytes st v) in
    let taken : (seg x : ℕ) → covers seg x b + cover seg x st.live ≤ 1 =
      λ seg x. ground (arith, v'.disjoint seg x, ap (cover seg x) live) in
    (
      live,
      one,
      fresh_by_kind b.dedicated b st.nded st.live refl (λ d. omega (arith, numbered d))
          (λ d. ground (arith, taken b.seg b.off, d, room.1)) v.all_live v.numbered,
    )

is_live-share_in : (h k : Handle) (bs : List Block) → is_live k (share_in h bs) ≡ is_live k bs
unfolding is_live share_in names
is_live-share_in h k [] = refl
is_live-share_in h k (b ∷ bs) = ground (arith, is_live-share_in h k bs)

release_in-share_in :
    (b : Block) (bs : List Block)
    → b.rc ≡ 1
    → release_in (handle_of b) (share_in (handle_of b) (b ∷ bs))
      ≡ record { lost = none; rest = b ∷ bs }
unfolding share_in release_in
release_in-share_in b bs one = ground (arith, names-handle_of b)

-- Taking and giving back a second reference to the newest block changes nothing.
pub release-share :
    (b : Block) (st : Store) (bs : List Block)
    → b.rc ≡ 1
    → st.live ≡ b ∷ bs
    → release (handle_of b) (share (handle_of b) st) ≡ st
unfolding release share give_up
release-share b st bs one e =
    let r : release_in (handle_of b) (share_in (handle_of b) st.live)
        ≡ record { lost = none; rest = b ∷ bs } =
      rw e (release_in-share_in b bs one) in
    rw r (ap (λ live. record st { live = live }) (sym e))

names-other : (h k : Handle) (b : Block) → names h b ≡ true → k ≢ h → names k b ≡ false
names-other h k b same other = elim (Bool-cases (names k b)) [
  | inl also ↦ absurd (other (names-same k b also ∙ sym (names-same h b same)))
  | inr not_this ↦ not_this
]

pub names-differ : (k : Handle) (b : Block) → k ≢ handle_of b → names k b ≡ false
names-differ k b other = names-other (handle_of b) k b (names-handle_of b) other

-- What releasing the only reference to a block does: it takes that block, and no other, out of use.
pub record TakesOut (h : Handle) (bs : List Block) (d : Dropped) : Type 0 where
  pub gone : is_live h d.rest ≡ false
  pub others : (k : Handle) → k ≢ h → is_live k d.rest ≡ is_live k bs
  pub fewer : (k : Handle) → is_live k bs ≡ false → is_live k d.rest ≡ false
  pub single : AreSingle d.rest

pub release_in-TakesOut :
    (h : Handle) (bs : List Block) → AreSingle bs → TakesOut h bs (release_in h bs)
unfolding is_live release_in
release_in-TakesOut h [] all = record {
  gone = refl;
  others = λ k other. refl;
  fewer = λ k e. refl;
  single = tt;
}
release_in-TakesOut h (b ∷ bs) all =
    let later = release_in-TakesOut h bs all.2 in
    if_rule (TakesOut h (b ∷ bs)) (names h b) _ _
      (λ same.
        if_rule (TakesOut h (b ∷ bs)) (leb b.rc 1) _ _
          (λ _. record {
            gone = rw (names-same h b same) all.0;
            others = λ k other. ground (arith, names-other h k b same other);
            fewer = λ k e. ground arith;
            single = all.2;
          })
          (λ more. absurd (ground (arith, all.1))))
      (λ differs. record {
        gone = ground (arith, later.gone);
        others = λ k other. ground (arith, later.others k other);
        fewer = λ k e. ground (arith, later.fewer k);
        single = (later.fewer (handle_of b) all.0, all.1, later.single);
      })
