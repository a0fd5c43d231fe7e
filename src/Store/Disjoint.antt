-- ===== src/Store/Disjoint.antt =====
-- The operations of the payload store keep it sound.
use gpupipe.Prelude.{ℕ, Bool, Option, none, some, List, [], ◌∷◌, arith, if_rule, All}
use gpupipe.Store.{
  Block, Store, Handle, Op, allocate, shared, released, new_store, round_up, alloc, share, release,
  release_in, give_up, perform, perform_all,
}
use gpupipe.Store.Cover.{
  cover-share_in, dedicated_bytes-share_in, share_in-IsLive, IsNumbered, share_in-IsNumbered,
  release_in-IsNumbered, Releases, release_in-Releases,
}
use gpupipe.Store.Sound.{IsSound, alloc-Good}

pub alloc-IsSound :
    (maps : Bool) (nbytes : ℕ) (st : Store) → IsSound st → IsSound (alloc maps nbytes st).1
alloc-IsSound maps nbytes st v = (alloc-Good maps nbytes st v).0

share-IsSound : (h : Handle) (st : Store) → IsSound st → IsSound (share h st)
unfolding share
share-IsSound h st v = record {
  disjoint = λ seg x. omega (arith, v.disjoint seg x, cover-share_in seg x h st.live);
  all_live = share_in-IsLive h st.live v.all_live;
  all_free = v.all_free;
  cur_exists = v.cur_exists;
  bump_fits = v.bump_fits;
  roomy = v.roomy;
  accounted = omega (arith, v.accounted, dedicated_bytes-share_in h st.live);
  within = v.within;
  numbered = share_in-IsNumbered st.nded h st.live v.numbered;
}

give_up-IsSound :
    (d : Option Block) (rest : List Block) (st : Store)
    → Releases st.live (record { lost = d; rest = rest })
    → All (IsNumbered st.nded) rest
    → IsSound st
    → IsSound (give_up d (record st { live = rest }))
unfolding give_up
give_up-IsSound none rest st r few v = record {
  disjoint = λ seg x. omega (arith, v.disjoint seg x, r.cover_same seg x);
  all_live = r.rest_live;
  all_free = v.all_free;
  cur_exists = v.cur_exists;
  bump_fits = v.bump_fits;
  roomy = v.roomy;
  accounted = omega (arith, v.accounted, r.dedicated_same);
  within = v.within;
  numbered = few;
}
give_up-IsSound (some b) rest st r few v =
    if_rule IsSound b.dedicated _ _
      (λ own_segment. record {
        disjoint = λ seg x. omega (arith, v.disjoint seg x, r.cover_same seg x);
        all_live = r.rest_live;
        all_free = v.all_free;
        cur_exists = v.cur_exists;
        bump_fits = v.bump_fits;
        roomy = v.roomy;
        accounted = ground (arith, v.accounted, r.dedicated_same);
        within = omega (arith, v.within);
        numbered = few;
      })
      (λ shared_segment. record {
        disjoint = λ seg x. omega (arith, v.disjoint seg x, r.cover_same seg x);
        all_live = r.rest_live;
        all_free = ((shared_segment, r.lost_live.1 shared_segment), v.all_free);
        cur_exists = v.cur_exists;
        bump_fits = v.bump_fits;
        roomy = v.roomy;
        accounted = ground (arith, v.accounted, r.dedicated_same);
        within = v.within;
        numbered = few;
      })

pub release-IsSound : (h : Handle) (st : Store) → IsSound st → IsSound (release h st)
unfolding release
release-IsSound h st v =
    give_up-IsSound (release_in h st.live).lost (release_in h st.live).rest st
      (release_in-Releases h st.live v.all_live)
      (release_in-IsNumbered st.nded h st.live v.numbered) v

perform-IsSound : (op : Op) (st : Store) → IsSound st → IsSound (perform op st)
unfolding perform
perform-IsSound (allocate maps nbytes) st v = alloc-IsSound maps nbytes st v
perform-IsSound (shared h) st v = share-IsSound h st v
perform-IsSound (released h) st v = release-IsSound h st v

pub perform_all-IsSound : (ops : List Op) (st : Store) → IsSound st → IsSound (perform_all ops st)
unfolding perform_all
perform_all-IsSound [] st v = v
perform_all-IsSound (op ∷ ops) st v =
    perform_all-IsSound ops (perform op st) (perform-IsSound op st v)

pub new_store-IsSound : (limit_bytes seg_bytes : ℕ) → IsSound (new_store limit_bytes seg_bytes)
unfolding new_store round_up
new_store-IsSound limit_bytes seg_bytes = record {
  disjoint = λ seg x. omega arith;
  all_live = tt;
  all_free = tt;
  cur_exists = tt;
  bump_fits = omega arith;
  roomy = omega arith;
  accounted = omega arith;
  within = omega arith;
  numbered = tt;
}
