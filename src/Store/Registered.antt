-- ===== src/Store/Registered.antt =====
-- The segments whose names `PayloadStore` of src/pipe/shmstore.py registers when it creates the store.
use gpupipe.Prelude.{
  ℕ, ◌+◌, ◌*◌, ◌/◌, ◌≤◌, ◌<◌, ◌≡◌, refl, sym, ◌∙◌, Bool, Option, none, some, List, [], ◌∷◌, arith,
  ltb, leb, if_rule,
}
use gpupipe.Store.{
  Block, Store, Op, allocate, shared, released, new_store, alloc, alloc_dedicated, reuse, carve,
  grow, hand_out, max_class_block, blk_hdr, share, release, release_in, give_up, perform,
  perform_all,
}
use gpupipe.Store.Disjoint.{perform_all-IsSound, new_store-IsSound}

-- How many regular segments have their names registered.
unfoldable pub registered_segments : Store → ℕ
registered_segments st = st.limit / st.seg_bytes

abbrev SameSizes : Store → Store → Type 0
SameSizes st st' = (st'.limit ≡ st.limit) × (st'.seg_bytes ≡ st.seg_bytes)

abbrev Fixed : Store → Option Block × Store → Type 0
Fixed st r = SameSizes st r.1

grow-Fixed :
    (maps : Bool) (cls size nbytes : ℕ) (st : Store) → Fixed st (grow maps cls size nbytes st)
unfolding grow hand_out
grow-Fixed maps cls size nbytes st =
    if_rule (Fixed st) (ltb st.limit (st.used + st.seg_bytes)) _ _ (λ _. (refl, refl))
      (λ _. if_rule (Fixed st) maps _ _ (λ _. (refl, refl)) (λ _. (refl, refl)))

carve-Fixed :
    (maps : Bool) (cls size nbytes : ℕ) (cur : Option ℕ) (st : Store)
    → Fixed st (carve maps cls size nbytes cur st)
unfolding carve hand_out
carve-Fixed maps cls size nbytes none st = grow-Fixed maps cls size nbytes st
carve-Fixed maps cls size nbytes (some c) st =
    if_rule (Fixed st) (leb (st.bump + size) st.seg_bytes) _ _ (λ _. (refl, refl))
      (λ _. grow-Fixed maps cls size nbytes st)

reuse-Fixed :
    (maps : Bool) (cls size nbytes : ℕ) (o : Option (Block × List Block)) (st : Store)
    → Fixed st (reuse maps cls size nbytes o st)
unfolding reuse hand_out
reuse-Fixed maps cls size nbytes none st = carve-Fixed maps cls size nbytes st.cur st
reuse-Fixed maps cls size nbytes (some (b, rest)) st = (refl, refl)

alloc-Fixed : (maps : Bool) (nbytes : ℕ) (st : Store) → Fixed st (alloc maps nbytes st)
unfolding alloc alloc_dedicated hand_out
alloc-Fixed maps nbytes st =
    if_rule (Fixed st) (ltb (max_class_block st) (blk_hdr + nbytes)) _ _
      (λ _.
        if_rule (Fixed st) (ltb st.limit _) _ _ (λ _. (refl, refl))
          (λ _. if_rule (Fixed st) maps _ _ (λ _. (refl, refl)) (λ _. (refl, refl))))
      (λ _. reuse-Fixed maps _ _ nbytes _ st)

give_up-Fixed : (o : Option Block) (st : Store) → SameSizes st (give_up o st)
unfolding give_up
give_up-Fixed none st = (refl, refl)
give_up-Fixed (some b) st =
    if_rule (SameSizes st) b.dedicated _ _ (λ _. (refl, refl)) (λ _. (refl, refl))

perform-Fixed : (op : Op) (st : Store) → SameSizes st (perform op st)
unfolding perform share release
perform-Fixed (allocate maps nbytes) st = alloc-Fixed maps nbytes st
perform-Fixed (shared h) st = (refl, refl)
perform-Fixed (released h) st =
    give_up-Fixed (release_in h st.live).lost (record st { live = (release_in h st.live).rest })

perform_all-Fixed : (ops : List Op) (st : Store) → SameSizes st (perform_all ops st)
unfolding perform_all
perform_all-Fixed [] st = (refl, refl)
perform_all-Fixed (op ∷ ops) st =
    let (l, s) = perform-Fixed op st in
    let (l', s') = perform_all-Fixed ops (perform op st) in (l' ∙ l, s' ∙ s)

fits_in : (n s l s' l' : ℕ) → l' ≡ l → s' ≡ s → 0 < s' → n * s' ≤ l' → n ≤ l / s
fits_in n s l s' l' same_l same_s positive h =
    let positive' : 0 < s = omega arith in
    let h' : n * s ≤ l = rw (sym same_s, sym same_l) h in grind arith

-- The regular segments that any operations of any processes create are among those whose names were
-- registered when the store was created.
pub perform_all-registered :
    (limit_bytes seg_bytes : ℕ) (ops : List Op)
    → (perform_all ops (new_store limit_bytes seg_bytes)).nreg
      ≤ registered_segments (new_store limit_bytes seg_bytes)
unfolding registered_segments
perform_all-registered limit_bytes seg_bytes ops =
    let st = new_store limit_bytes seg_bytes in
    let v = perform_all-IsSound ops st (new_store-IsSound limit_bytes seg_bytes) in
    let (l, s) = perform_all-Fixed ops st in
    fits_in (perform_all ops st).nreg st.seg_bytes st.limit (perform_all ops st).seg_bytes
      (perform_all ops st).limit l s (omega (arith, v.roomy)) (omega (arith, v.within, v.accounted))
