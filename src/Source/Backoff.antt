-- ===== src/Source/Backoff.antt =====
-- The delays of `_SourceBackoff`.
use gpupipe.Prelude.{◌^◌, ℕ, zero, suc, ◌+◌, ◌*◌, ◌<◌, min, ◌≡◌, true, some, arith, get_elem?}
use gpupipe.Source.{SourceBackoff, wait, delays}

get_elem?-delays :
    (n k : ℕ) (b : SourceBackoff)
    → k < n
    → get_elem? (delays n b) k ≡ some (min (b.base * 2 ^ (b.failures + k)) 60000)
unfolding delays wait
get_elem?-delays zero k b small = absurd (omega arith)
get_elem?-delays (suc n) zero b small = let e : b.failures + 0 ≡ b.failures = omega arith in rw e
get_elem?-delays (suc n) (suc k) b small =
    let e : b.failures + suc k ≡ b.failures + 1 + k = omega arith in
    rw e (get_elem?-delays n k (record b { failures = b.failures + 1 }) (omega arith))

-- A call after progress waits for the base delay; and the calls after it that make none wait twice
-- as long each time, up to a minute.
pub delays-doubling :
    (n k : ℕ) (b : SourceBackoff)
    → k < n
    → ((wait true b).0 ≡ min b.base 60000)
      × (get_elem? (delays n (wait true b).1) k ≡ some (min (b.base * 2 ^ (k + 1)) 60000))
delays-doubling n k b small =
    let e : 1 + k ≡ k + 1 = omega arith in
    (
      unfold wait in ground arith,
      unfold wait in rw e at (get_elem?-delays n k (record b { failures = 1 }) small),
    )
