-- ===== src/Store/Limits.antt =====
-- How large the shared memory of a pipeline is made: `_default_limit` and `PayloadStore` of
-- src/pipe/shmstore.py, `_ring_bytes` and `edge_ring_bytes` of src/pipe/shmqueue.py. A variable of
-- the environment is given as the bytes that it stands for.
use gpupipe.Prelude.{
  ℕ, zero, suc, ◌+◌, ◌*◌, ◌/◌, ◌^◌, ◌≤◌, min, max, ◌≡◌, ◌≢◌, inl, inr, true, Option, none, some,
  arith, ltb, leb, leb→le, Bool-cases, if_rule,
}
use gpupipe.Store.{
  Block, Store, new_store, alloc, reuse, carve, grow, hand_out, take_free, max_class_block,
  round_up, blk_hdr,
}

unfoldable pub default_limit : Option ℕ → Option ℕ → ℕ
default_limit (some bytes) free = bytes
default_limit none none = 2 * 2 ^ 30
default_limit none (some free) = min (free / 2) (16 * 2 ^ 30)

-- The bytes of a segment of the store of a pipeline.
unfoldable pub payload_seg_bytes : ℕ → ℕ
payload_seg_bytes limit = min (2 ^ 26) (max (2 ^ 20) (limit / 8))

-- `PayloadStore`, with no arguments.
unfoldable pub payload_store : ℕ → Store
unfolding payload_seg_bytes
payload_store limit = new_store limit (payload_seg_bytes limit)

unfoldable pub ring_bytes : Option ℕ → ℕ → ℕ
ring_bytes (some bytes) maxsize = bytes
ring_bytes none zero = 8 * 2 ^ 20
ring_bytes none (suc n) = min (max (suc n * 2 ^ 16) (2 ^ 20)) (16 * 2 ^ 20)

unfoldable pub edge_ring_bytes : Option ℕ → Option ℕ → ℕ → ℕ → ℕ
unfolding ring_bytes
edge_ring_bytes (some bytes) free maxsize n_edges = bytes
edge_ring_bytes none none maxsize n_edges = ring_bytes none maxsize
edge_ring_bytes none (some free) maxsize n_edges =
    max (2 ^ 16) (min (ring_bytes none maxsize) (free / 4 / max 1 n_edges))

share_of : (q n : ℕ) → n * (q / max 1 n) ≤ q
share_of q zero = omega arith
share_of q (suc n) = let e : max 1 (suc n) ≡ suc n = omega arith in rw e (grind arith)

least_share : (q n a r s : ℕ) → n * a ≤ q → n * s ≤ q → n * max a (min r s) ≤ q
least_share q n a r s h k = elim (Bool-cases (leb (min r s) a)) [
  | inl low ↦ let e : max a (min r s) ≡ a = ground arith in rw e h
  | inr high ↦ elim (Bool-cases (leb r s)) [
    | inl small ↦
        let e : max a (min r s) ≡ r = ground arith in rw e (grind (arith, leb→le r s small))
    | inr large ↦ let e : max a (min r s) ≡ s = ground arith in rw e k
  ]
]

-- All the rings of a pipeline together take at most a quarter of what is free, if that is enough for
-- the least ring of every edge.
pub edge_ring_bytes-quarter :
    (free maxsize n_edges : ℕ)
    → n_edges * 2 ^ 16 ≤ free / 4
    → n_edges * edge_ring_bytes none (some free) maxsize n_edges ≤ free / 4
unfolding edge_ring_bytes
edge_ring_bytes-quarter free maxsize n_edges enough =
    least_share (free / 4) n_edges (2 ^ 16) (ring_bytes none maxsize) (free / 4 / max 1 n_edges)
      enough (share_of (free / 4) n_edges)

payload_seg-fits : (limit : ℕ) → 2 ^ 20 ≤ limit → (payload_store limit).seg_bytes ≤ limit
unfolding payload_store new_store round_up
payload_seg-fits limit enough = omega arith

grow-serves :
    (cls size nbytes : ℕ) (st : Store)
    → st.used + st.seg_bytes ≤ st.limit
    → (grow true cls size nbytes st).0 ≢ none
unfolding grow hand_out
grow-serves cls size nbytes st fits =
    if_rule (λ (r : Option Block × Store). r.0 ≢ none) (ltb st.limit (st.used + st.seg_bytes)) _ _
      (λ h. absurd (ground arith)) (λ _ e. cc)

-- A store whose limit is at least 1 MiB has room for a first segment, and so serves its first
-- request for a block of a size class.
pub payload_store-serves :
    (limit nbytes : ℕ)
    → 2 ^ 20 ≤ limit
    → blk_hdr + nbytes ≤ max_class_block (payload_store limit)
    → (alloc true nbytes (payload_store limit)).0 ≢ none
unfolding payload_store new_store alloc reuse carve take_free
payload_store-serves limit nbytes enough small =
    if_rule (λ (r : Option Block × Store). r.0 ≢ none)
      (ltb (max_class_block (payload_store limit)) (blk_hdr + nbytes)) _ _
      (λ h. absurd (ground arith))
      (λ _.
        grow-serves _ _ nbytes (new_store limit (payload_seg_bytes limit))
          (omega (arith, payload_seg-fits limit enough)))
