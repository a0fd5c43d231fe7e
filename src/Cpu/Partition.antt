-- ===== src/Cpu/Partition.antt =====
-- The slices of `_cpu_chunk`, taken together.
use gpupipe.Prelude.{
  ℕ, zero, suc, ◌+◌, ◌*◌, ◌/◌, ◌%◌, ◌≤◌, ◌<◌, min, ◌≡◌, refl, sym, ap, ◌∙◌, ◌⊎◌, inl, inr, some,
  List, [], ◌∷◌, ◌++◌, arith, length, get_elem?, take, drop, length-take, length-drop,
}
use gpupipe.Cpu.{
  Slice, unpinned, index_error, cores, one_core, slice, chunk_start, chunk_size, cpu_chunk_of,
  cpu_chunk,
}

module _ {ℓ} {A : Type ℓ} where
  take-add : (a b : ℕ) (xs : List A) → take (a + b) xs ≡ take a xs ++ take b (drop a xs)
  take-add zero b xs = let e : 0 + b ≡ b = omega arith in rw e
  take-add (suc a) b [] = take-nil (suc a + b) ∙ sym (take-nil b)
    where
      take-nil : (n : ℕ) → take {A = A} n [] ≡ []
      take-nil zero = refl
      take-nil (suc n) = refl
  take-add (suc a) b (x ∷ xs) =
      let e : suc a + b ≡ suc (a + b) = omega arith in rw (e, take-add a b xs)

  take-all : (n : ℕ) (xs : List A) → length xs ≤ n → take n xs ≡ xs
  take-all zero [] h = refl
  take-all zero (x ∷ xs) h = absurd (omega arith)
  take-all (suc n) [] h = refl
  take-all (suc n) (x ∷ xs) h = ap (λ ys. x ∷ ys) (take-all n xs (omega arith))

  take-suc :
      (k : ℕ) (xs : List A)
      → k < length xs
      → (x : A) × (get_elem? xs k ≡ some x) × (take (suc k) xs ≡ take k xs ++ x ∷ [])
  take-suc k [] h = absurd (omega arith)
  take-suc zero (x ∷ xs) h = (x, refl, refl)
  take-suc (suc k) (x ∷ xs) h =
      let (y, e, t) = take-suc k xs (omega arith) in (y, e, ap (λ ys. x ∷ ys) t)

abbrev pub cores_of : Slice → List ℕ
cores_of unpinned = []
cores_of index_error = []
cores_of (cores cs) = cs

-- The cores of the first `k` workers, one slice after the other.
unfoldable pub assigned : List ℕ → ℕ → ℕ → List ℕ
assigned pool m zero = []
assigned pool m (suc k) = assigned pool m k ++ cores_of (cpu_chunk (some pool) k m)

chunk_start-suc : (n m k : ℕ) → chunk_start n m (suc k) ≡ chunk_start n m k + chunk_size n m k
unfolding chunk_start chunk_size
chunk_start-suc n m k = grind arith

chunk_start-end : (n m : ℕ) → 0 < m → chunk_start n m m ≡ n
unfolding chunk_start
chunk_start-end n m some_worker = grind arith

cpu_chunk-fewer :
    (pool : List ℕ) (m k : ℕ)
    → m < length pool
    → cpu_chunk (some pool) k m
      ≡ cores (take (chunk_size (length pool) m k) (drop (chunk_start (length pool) m k) pool))
unfolding cpu_chunk cpu_chunk_of slice
cpu_chunk-fewer [] m k less = absurd (omega arith)
cpu_chunk-fewer (c ∷ pool) m k less = ground arith

cpu_chunk-same :
    (pool : List ℕ) (k : ℕ)
    → k < length pool
    → cpu_chunk (some pool) k (length pool) ≡ one_core (get_elem? pool k)
unfolding cpu_chunk cpu_chunk_of
cpu_chunk-same [] k less = absurd (omega arith)
cpu_chunk-same (c ∷ pool) k less =
    let e : k % suc (length pool) ≡ k = grind arith in rw e (ground arith)

assigned-fewer :
    (pool : List ℕ) (m k : ℕ)
    → m < length pool
    → assigned pool m k ≡ take (chunk_start (length pool) m k) pool
unfolding assigned
assigned-fewer pool m zero less =
    unfold chunk_start in
    (let e : 0 * (length pool / m) + min 0 (length pool % m) ≡ 0 = omega arith in rw e)
assigned-fewer pool m (suc k) less = rw (
  cpu_chunk-fewer pool m k less,
  chunk_start-suc (length pool) m k,
  take-add (chunk_start (length pool) m k) (chunk_size (length pool) m k) pool,
  assigned-fewer pool m k less,
)

assigned-same :
    (pool : List ℕ) (k : ℕ) → k ≤ length pool → assigned pool (length pool) k ≡ take k pool
unfolding assigned one_core
assigned-same pool zero some_core = refl
assigned-same pool (suc k) some_core =
    let (x, e, t) = take-suc k pool some_core in
    rw (t, cpu_chunk-same pool k some_core, e, assigned-same pool k (omega arith))

-- The slices of all the workers, one after the other, are the pool: with at most as many workers
-- as cores, every core of the pool belongs to exactly one worker, and no core is left over.
pub assigned-all : (pool : List ℕ) (m : ℕ) → 0 < m → m ≤ length pool → assigned pool m m ≡ pool
assigned-all pool m some_worker enough = elim (le-cases m (length pool) enough) [
  | inl less ↦
      assigned-fewer pool m m less
      ∙ rw (chunk_start-end (length pool) m some_worker) (take-all (length pool) pool (omega arith))
  | inr same ↦
      rw same
        (assigned-same pool (length pool) (omega arith) ∙ take-all (length pool) pool (omega arith))
]
  where
    le-cases : (a b : ℕ) → a ≤ b → (a < b) ⊎ (a ≡ b)
    le-cases a b h = grind arith

mul_mono : (a b q : ℕ) → a ≤ b → a * q ≤ b * q
mul_mono a b q h = grind arith

chunk_start-le : (n m k : ℕ) → k < m → chunk_start n m k + chunk_size n m k ≤ n
unfolding chunk_start
chunk_start-le n m k worker = omega (
  arith,
  mul_mono (suc k) m (n / m) worker,
  chunk_start-suc n m k,
  chunk_start-end n m (omega arith),
)

one_per_worker : (n m : ℕ) → 0 < m → m ≤ n → 0 < n / m
one_per_worker n m some_worker enough = grind arith

chunk_size-bounds : (n m k : ℕ) → (n / m ≤ chunk_size n m k) × (chunk_size n m k ≤ n / m + 1)
unfolding chunk_size
chunk_size-bounds n m k = ground arith

length-fewer :
    (pool : List ℕ) (m k : ℕ)
    → m < length pool
    → k < m
    → length (cores_of (cpu_chunk (some pool) k m)) ≡ chunk_size (length pool) m k
length-fewer pool m k less worker = rw (cpu_chunk-fewer pool m k less) (
    omega (
      arith,
      length-take (chunk_size (length pool) m k) (drop (chunk_start (length pool) m k) pool),
      length-drop (chunk_start (length pool) m k) pool,
      chunk_start-le (length pool) m k worker,
    ))

-- With fewer workers than cores each worker gets a slice of n / m cores, or of one more, and so
-- at least one.
pub length-cpu_chunk :
    (pool : List ℕ) (m k : ℕ)
    → m < length pool
    → k < m
    → (0 < length (cores_of (cpu_chunk (some pool) k m)))
      × (length pool / m ≤ length (cores_of (cpu_chunk (some pool) k m)))
      × (length (cores_of (cpu_chunk (some pool) k m)) ≤ length pool / m + 1)
length-cpu_chunk pool m k less worker = ground (
  arith,
  length-fewer pool m k less worker,
  chunk_size-bounds (length pool) m k,
  one_per_worker (length pool) m,
)

get_elem?-some : (xs : List ℕ) (i : ℕ) → i < length xs → (c : ℕ) × (get_elem? xs i ≡ some c)
get_elem?-some xs i h = let (c, e, _) = take-suc i xs h in (c, e)

-- With at least as many workers as cores the workers share the cores round robin: worker k runs on
-- the single core k mod n of the pool.
pub cpu_chunk-round_robin :
    (pool : List ℕ) (m k : ℕ)
    → 0 < length pool
    → length pool ≤ m
    → (c : ℕ) × (get_elem? pool (k % length pool) ≡ some c)
      × (cpu_chunk (some pool) k m ≡ cores (c ∷ []))
unfolding cpu_chunk cpu_chunk_of one_core
cpu_chunk-round_robin [] m k some_core many = absurd (omega arith)
cpu_chunk-round_robin (c ∷ pool) m k some_core many =
    let (x, e) = get_elem?-some (c ∷ pool) (k % suc (length pool)) (grind arith) in
    (x, e, ground arith)
