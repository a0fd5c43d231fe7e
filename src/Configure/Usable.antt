-- ===== src/Configure/Usable.antt =====
-- The stages that `Pipe.add` accepts.
use gpupipe.Prelude.{
  ℤ, pos, negsuc, ℕ, zero, suc, ◌*◌, ◌<◌, ◌≡◌, refl, subst, inl, inr, Bool, true, false, ◌&&◌,
  Option, none, some, List, [], ◌∷◌, arith, ltb, ◌==◌, Bool-cases, if_rule, length, All,
}
use gpupipe.Configure.{
  Request, Box, Added, clamp_root, range_from, single_gpu, resolve_gpus, resolve_cpus, exists,
  all_exist, pool_exists, has_pool, pool_size, allowed, with_pools, add,
}

abbrev pub InRange : ℕ → ℤ → Type 0
InRange count (pos k) = k < count
InRange count (negsuc k) = ⊥

-- A pool is missing, or it has at least one id and all its ids exist.
abbrev pub PoolFits : ℕ → Option (List ℤ) → Type 0
PoolFits count none = Unit
PoolFits count (some zs) = (0 < length zs) × All (InRange count) zs

abbrev NonEmptyPool : Option (List ℤ) → Type 0
NonEmptyPool none = Unit
NonEmptyPool (some zs) = 0 < length zs

abbrev Resolved : Option (Option (List ℤ)) → Type 0
Resolved none = Unit
Resolved (some pool) = NonEmptyPool pool

all_exist-InRange : (count : ℕ) (zs : List ℤ) → all_exist count zs ≡ true → All (InRange count) zs
unfolding all_exist exists
all_exist-InRange count [] e = tt
all_exist-InRange count (pos k ∷ zs) e = (ground arith, all_exist-InRange count zs (ground arith))
all_exist-InRange count (negsuc k ∷ zs) e = absurd (ground arith)

pool_exists-PoolFits :
    (count : ℕ) (pool : Option (List ℤ))
    → NonEmptyPool pool
    → pool_exists count pool ≡ true
    → PoolFits count pool
unfolding pool_exists
pool_exists-PoolFits count none n e = tt
pool_exists-PoolFits count (some zs) n e = (n, all_exist-InRange count zs e)

resolve_gpus-Resolved :
    (count : ℕ) (gpus : Option (List ℤ)) (pergpu : Bool) (gpu_id : Option ℤ)
    → Resolved (resolve_gpus count gpus pergpu gpu_id)
unfolding resolve_gpus single_gpu range_from
resolve_gpus-Resolved count (some []) pergpu gpu_id = tt
resolve_gpus-Resolved count (some (g ∷ gs)) pergpu gpu_id = omega arith
resolve_gpus-Resolved zero none true gpu_id = tt
resolve_gpus-Resolved (suc n) none true gpu_id =
    if_rule Resolved (ltb 0 (suc n)) _ (some none) (λ _. omega arith) (λ _. tt)
resolve_gpus-Resolved count none false none = tt
resolve_gpus-Resolved count none false (some g) = omega arith

resolve_cpus-Resolved : (cpus : Option (List ℤ)) → Resolved (resolve_cpus cpus)
unfolding resolve_cpus
resolve_cpus-Resolved none = tt
resolve_cpus-Resolved (some []) = tt
resolve_cpus-Resolved (some (c ∷ cs)) = omega arith

-- What a stage that was added promises to the code that starts it.
pub record IsUsable (box : Box) (stages : ℕ) (r : Request) (j : Added) : Type 0 where
  pub gpus_fit : PoolFits box.gpu_count j.gpus
  pub cpus_fit : PoolFits box.cpu_count j.cpus
  pub whole_process :
      j.scavenge ≡ true → (j.thread ≡ false) × (0 < stages) × (has_pool j.gpus ≡ true)
  pub worker_total : j.num_workers ≡ (clamp_root (stages == 0) r).workers * pool_size j.gpus

pooled : Request → Option (List ℤ) → Option (List ℤ) → Added
pooled r gpus cpus = record {
  num_workers = r.workers * pool_size gpus;
  thread = r.thread;
  gpus = gpus;
  cpus = cpus;
  cpu_threads = r.cpu_threads;
  scavenge = r.scavenge && has_pool gpus;
  hang_timeout = r.hang_timeout;
}

pooled-IsUsable :
    (box : Box) (stages : ℕ) (r : Request) (gpus cpus : Option (List ℤ))
    → allowed (stages == 0) (clamp_root (stages == 0) r) ≡ true
    → NonEmptyPool gpus
    → NonEmptyPool cpus
    → pool_exists box.gpu_count gpus ≡ true
    → pool_exists box.cpu_count cpus ≡ true
    → IsUsable box stages r (pooled (clamp_root (stages == 0) r) gpus cpus)
unfolding pooled
pooled-IsUsable box stages r gpus cpus ok g c eg ec = record {
  gpus_fit = pool_exists-PoolFits box.gpu_count gpus g eg;
  cpus_fit = pool_exists-PoolFits box.cpu_count cpus c ec;
  whole_process = λ e. unfold allowed in (ground arith, ground arith, ground arith);
  worker_total = refl;
}

with_pools-IsUsable :
    (box : Box) (stages : ℕ) (r : Request) (gpus cpus : Option (Option (List ℤ))) (j : Added)
    → allowed (stages == 0) (clamp_root (stages == 0) r) ≡ true
    → Resolved gpus
    → Resolved cpus
    → with_pools box (clamp_root (stages == 0) r) gpus cpus ≡ some j
    → IsUsable box stages r j
unfolding with_pools pooled
with_pools-IsUsable box stages r none cpus j ok g c e = cc
with_pools-IsUsable box stages r (some gpus) none j ok g c e = cc
with_pools-IsUsable box stages r (some gpus) (some cpus) j ok g c e =
    elim (Bool-cases (pool_exists box.gpu_count gpus && pool_exists box.cpu_count cpus)) [
      | inr refused ↦ absurd (ground arith)
      | inl both ↦
          (let same : pooled (clamp_root (stages == 0) r) gpus cpus ≡ j = ground arith in
            subst (IsUsable box stages r) same
              (pooled-IsUsable box stages r gpus cpus ok g c (ground arith) (ground arith)))
    ]

-- A stage that `add` accepts has only GPUs and CPUs that exist, never an empty pool; a scavenge
-- stage is a process, not a thread, not the root, and has a GPU; and it gets `workers` workers per
-- GPU of its pool, where a root that asked for more than one, or for one per GPU, counts as one.
pub add-IsUsable :
    (box : Box) (stages : ℕ) (r : Request) (j : Added)
    → add box stages r ≡ some j
    → IsUsable box stages r j
unfolding add
add-IsUsable box stages r j e =
    let r' = clamp_root (stages == 0) r in
    elim (Bool-cases (allowed (stages == 0) r')) [
      | inr refused ↦ absurd (ground arith)
      | inl ok ↦
          with_pools-IsUsable box stages r _ _ j ok
            (resolve_gpus-Resolved box.gpu_count r'.gpus r'.pergpu r'.gpu_id)
            (resolve_cpus-Resolved r'.cpus) (ground arith)
    ]
