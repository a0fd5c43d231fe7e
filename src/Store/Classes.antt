-- ===== src/Store/Classes.antt =====
-- The size classes of rust/src/store.rs: `class_of`.
use gpupipe.Prelude.{
  ℕ, zero, suc, ◌+◌, ◌-◌, ◌*◌, ◌/◌, ◌^◌, ◌≤◌, ◌<◌, ◌≡◌, refl, ◌⊎◌, inl, inr, arith, leb,
  if◌then◌else◌, leb→le, le→leb, Bool-cases, if_rule,
}
use native.Mathlib.Nat.{two-pow-succ}

-- MIN_BLOCK.
abbrev pub min_block : ℕ
min_block = 4096

-- The largest p from `p` on, with fuel, such that `2 ^ p` is at most `n`; the source has it as
-- `63 - leading_zeros`.
floor_log_from : ℕ → ℕ → ℕ → ℕ
floor_log_from zero p n = p
floor_log_from (suc fuel) p n =
    let next = floor_log_from fuel (p + 1) n in if leb (2 ^ (p + 1)) n then next else p

unfoldable pub floor_log : ℕ → ℕ
unfolding floor_log_from
floor_log n = floor_log_from n 0 n

-- The class of a block of `total` bytes, and the bytes that blocks of that class have.
unfoldable pub class_of : ℕ → ℕ × ℕ
unfolding floor_log
class_of total =
    if leb total min_block
    then (0, min_block)
    else let p = floor_log (total - 1) in
      let step = 2 ^ (p - 2) in
      let k = (total - 1 - 2 ^ p) / step in ((p - 12) * 4 + k + 1, 2 ^ p + (k + 1) * step)

floor_log_from-bounds :
    (fuel p n : ℕ)
    → 2 ^ p ≤ n
    → n < 2 ^ (p + fuel)
    → (2 ^ floor_log_from fuel p n ≤ n) × (n < 2 ^ (floor_log_from fuel p n + 1))
unfolding floor_log_from
floor_log_from-bounds zero p n low high =
    absurd (let e : p + 0 ≡ p = omega arith in omega (arith, rw e at high))
floor_log_from-bounds (suc fuel) p n low high =
    let e : p + 1 + fuel ≡ p + suc fuel = omega arith in
    if_rule (λ q. (2 ^ q ≤ n) × (n < 2 ^ (q + 1))) (leb (2 ^ (p + 1)) n) _ p
      (λ h. floor_log_from-bounds fuel (p + 1) n (ground arith) (rw e high))
      (λ h. (low, ground arith))

pow-grows : (n : ℕ) → n < 2 ^ n
pow-grows zero = omega arith
pow-grows (suc n) = omega (arith, pow-grows n, two-pow-succ n)

pow-double : (p : ℕ) → 2 ^ (p + 1) ≡ 2 * 2 ^ p
pow-double p = let e : p + 1 ≡ suc p = omega arith in rw e (omega (arith, two-pow-succ p))

pow_mono : (a b : ℕ) → a ≤ b → 2 ^ a ≤ 2 ^ b
pow_mono zero b h = omega (arith, pow-grows b)
pow_mono (suc a) zero h = absurd (omega arith)
pow_mono (suc a) (suc b) h =
    omega (arith, pow_mono a b (omega arith), two-pow-succ a, two-pow-succ b)

pow-reflects : (a b : ℕ) → 2 ^ a < 2 ^ b → a < b
pow-reflects a b h = ground (arith, pow_mono b a)

floor_log-bounds : (n : ℕ) → 0 < n → (2 ^ floor_log n ≤ n) × (n < 2 ^ (floor_log n + 1))
unfolding floor_log
floor_log-bounds n some_bytes =
    let e : 0 + n ≡ n = omega arith in
    floor_log_from-bounds n 0 n (omega arith) (rw e (pow-grows n))

div-bounds : (r s : ℕ) → 0 < s → ((r / s) * s ≤ r) × (r < (r / s + 1) * s)
div-bounds r s pos_s = (grind arith, grind arith)

div-lt_four : (r s : ℕ) → r < 4 * s → r / s < 4
div-lt_four r s h = grind arith

-- What the class of a block above the smallest is made of: the power of two below it, and the
-- quarter of it, `k`, that it falls in.
record Quarter (total : ℕ) : Type 0 where
  p : ℕ
  k : ℕ
  step : ℕ
  at_least : 12 ≤ p
  below : k < 4
  power : 2 ^ p ≡ 4 * step
  covers : total ≤ 2 ^ p + (k + 1) * step
  close : 2 ^ p + k * step < total
  index : class_of total ≡ ((p - 12) * 4 + k + 1, 2 ^ p + (k + 1) * step)
  exponent : step ≡ 2 ^ (p - 2)

four_steps : (p : ℕ) → 2 ≤ p → 2 ^ p ≡ 4 * 2 ^ (p - 2)
four_steps zero h = absurd (omega arith)
four_steps (suc zero) h = absurd (omega arith)
four_steps (suc (suc q)) h =
    let e : suc (suc q) - 2 ≡ q = omega arith in
    rw e (omega (arith, two-pow-succ q, two-pow-succ (suc q)))

quarter : (total : ℕ) → min_block < total → Quarter total
unfolding class_of
quarter total large =
    let p = floor_log (total - 1) in
    let (low, high) = floor_log-bounds (total - 1) (omega arith) in
    let twelve : 12 < p + 1 = pow-reflects 12 (p + 1) (omega arith) in
    let power = four_steps p (omega arith) in
    let step = 2 ^ (p - 2) in
    let k = (total - 1 - 2 ^ p) / step in
    let q = div-bounds (total - 1 - 2 ^ p) step (omega (arith, pow-grows (p - 2))) in
    record {
      p = p;
      k = k;
      step = step;
      at_least = omega arith;
      below = div-lt_four (total - 1 - 2 ^ p) step (omega (arith, pow-double p));
      power = power;
      covers = omega arith;
      close = omega arith;
      index = ground arith;
      exponent = refl;
    }

pub class_of-small : (total : ℕ) → total ≤ min_block → class_of total ≡ (0, min_block)
unfolding class_of
class_of-small total small = rw (le→leb total min_block small)

pub size_cases : (total : ℕ) → (total ≤ min_block) ⊎ (min_block < total)
size_cases total = elim (Bool-cases (leb total min_block)) [
  | inl small ↦ inl (leb→le total min_block small)
  | inr large ↦ inr (ground arith)
]

pub class_of-bounds :
    (total : ℕ)
    → (total ≤ (class_of total).1)
      × (min_block < total → 4 * (class_of total).1 < 5 * total)
      × (total ≤ 2 ^ 26 → (class_of total).0 < 64)
class_of-bounds total = elim (size_cases total) [
  | inl small ↦ rw (class_of-small total small) (small, λ h. absurd (omega arith), λ h. omega arith)
  | inr large ↦
      let q = quarter total large in
      rw q.index (
        q.covers,
        λ h. omega (arith, q.power, q.close),
        λ h. omega (arith, pow-reflects q.p 26 (omega (arith, q.close)), q.below),
      )
]

both_large :
    (a b : ℕ) (p : Quarter a) (q : Quarter b)
    → (class_of a).0 ≡ (class_of b).0
    → (class_of a).1 ≡ (class_of b).1
both_large a b p q same =
    let e : (p.p - 12) * 4 + p.k + 1 ≡ (q.p - 12) * 4 + q.k + 1 = rw (p.index, q.index) at same in
    let same_p : p.p ≡ q.p = omega (arith, p.at_least, q.at_least, p.below, q.below) in
    let same_k : p.k ≡ q.k = omega arith in
    rw (p.index, q.index) (rw (p.exponent, q.exponent, same_p, same_k))

-- Above the smallest class and up to 64 MiB, a block has the bytes asked for, wastes less than a
-- quarter of them, and has its class among the 64 free lists.
pub class_of-waste :
    (total : ℕ)
    → min_block < total
    → total ≤ 2 ^ 26
    → (total ≤ (class_of total).1)
      × (4 * (class_of total).1 < 5 * total)
      × ((class_of total).0 < 64)
class_of-waste total above below =
    let (room, waste, listed) = class_of-bounds total in (room, waste above, listed below)

-- Blocks of one class have one size, so that a free block of a class serves any request of it.
pub class_of-size : (a b : ℕ) → (class_of a).0 ≡ (class_of b).0 → (class_of a).1 ≡ (class_of b).1
class_of-size a b same = elim (size_cases a) [
  | inl small_a ↦ elim (size_cases b) [
    | inl small_b ↦ rw (class_of-small a small_a, class_of-small b small_b)
    | inr large_b ↦
        let q = quarter b large_b in
        absurd (
          let e : 0 ≡ (q.p - 12) * 4 + q.k + 1 = rw (class_of-small a small_a, q.index) at same in
          omega arith)
  ]
  | inr large_a ↦ elim (size_cases b) [
    | inl small_b ↦
        let q = quarter a large_a in
        absurd (
          let e : (q.p - 12) * 4 + q.k + 1 ≡ 0 = rw (class_of-small b small_b, q.index) at same in
          omega arith)
    | inr large_b ↦ both_large a b (quarter a large_a) (quarter b large_b) same
  ]
]
