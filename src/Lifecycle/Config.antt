-- ===== src/Lifecycle/Config.antt =====
-- The checks and sizes of `start`, src/pipe/lifecycle.py.
use gpupipe.Prelude.{
  ℕ, zero, suc, ◌+◌, ◌*◌, ◌≤◌, ◌<◌, max, ◌≡◌, refl, ◌↔◌, inl, inr, Bool, true, false, some, List,
  [], ◌∷◌, ◌++◌, arith, Bool-cases, length, replicate,
}
use gpupipe.Lifecycle.{
  Job, breaks_prefix, outq_size, worker_count, Spawn, spawn_from, spawn_stage, or_zero,
}

abbrev pub drains : List Job → List Bool
drains [] = []
drains (j ∷ jobs) = j.drain ∷ drains jobs

breaks_prefix-seen :
    (jobs : List Job) → breaks_prefix true jobs ≡ false → drains jobs ≡ replicate (length jobs) true
unfolding breaks_prefix
breaks_prefix-seen [] e = refl
breaks_prefix-seen (j ∷ jobs) e = ground (arith, breaks_prefix-seen jobs)

breaks_prefix-all :
    (n : ℕ) (jobs : List Job) → drains jobs ≡ replicate n true → breaks_prefix true jobs ≡ false
unfolding breaks_prefix
breaks_prefix-all n [] e = refl
breaks_prefix-all zero (j ∷ jobs) e = cc
breaks_prefix-all (suc n) (j ∷ jobs) e = ground (arith, breaks_prefix-all n jobs)

prefix_of :
    (jobs : List Job)
    → breaks_prefix false jobs ≡ false
    → (a : ℕ) × (b : ℕ) × (drains jobs ≡ replicate a false ++ replicate b true)
unfolding breaks_prefix
prefix_of [] e = (0, 0, refl)
prefix_of (j ∷ jobs) e = elim (Bool-cases j.drain) [
  | inl drain ↦ (0, suc (length jobs), ground (arith, breaks_prefix-seen jobs))
  | inr no_drain ↦ (let (a, b, same) = prefix_of jobs (ground arith) in (suc a, b, ground arith))
]

breaks_prefix-drains :
    (a b : ℕ) (jobs : List Job)
    → drains jobs ≡ replicate a false ++ replicate b true
    → breaks_prefix false jobs ≡ false
unfolding breaks_prefix
breaks_prefix-drains a b [] e = refl
breaks_prefix-drains zero zero (j ∷ jobs) e = cc
breaks_prefix-drains zero (suc b) (j ∷ jobs) e = ground (arith, breaks_prefix-all b jobs)
breaks_prefix-drains (suc a) b (j ∷ jobs) e = ground (arith, breaks_prefix-drains a b jobs)

-- A list of jobs is accepted exactly when its drain flags are some number of False, and then True
-- only: the stages that stop on drain form a prefix.
pub breaks_prefix-prefix :
    (jobs : List Job)
    → (breaks_prefix false jobs ≡ false)
      ↔ ((a : ℕ) × (b : ℕ) × (drains jobs ≡ replicate a false ++ replicate b true))
breaks_prefix-prefix jobs = (prefix_of jobs, λ h. breaks_prefix-drains h.0 h.1 jobs h.2)

-- Each edge that has a capacity in items keeps one: a queue of `outq_size` chunks holds at most the
-- larger of `outqn` and one chunk, and a single chunk more would exceed `outqn`; and it has at least one slot.
pub outq_size-items :
    (outqn chunk : ℕ)
    → 0 < outqn
    → 1 < chunk
    → (0 < outq_size (some outqn) chunk)
      × (outq_size (some outqn) chunk * chunk ≤ max outqn chunk)
      × (outqn < (outq_size (some outqn) chunk + 1) * chunk)
unfolding outq_size or_zero
outq_size-items outqn chunk some_items chunked = grind arith

length-spawn_from : (gpus : List ℕ) (k n : ℕ) → length (spawn_from gpus k n) ≡ n
unfolding spawn_from
length-spawn_from gpus k zero = refl
length-spawn_from gpus k (suc n) = omega (arith, length-spawn_from gpus (k + 1) n)

abbrev pub threads : List Spawn → ℕ
threads [] = 0
threads (s ∷ ss) = s.num_threads + threads ss

threads-spawn_from : (gpus : List ℕ) (k n : ℕ) → threads (spawn_from gpus k n) ≡ n
unfolding spawn_from
threads-spawn_from gpus k zero = refl
threads-spawn_from gpus k (suc n) = omega (arith, threads-spawn_from gpus (k + 1) n)

-- A stage gets exactly as many processes as its worker count says, the number that its workers
-- count up to when they finish; and together they run `num_workers` threads.
pub spawn_stage-count :
    (j : Job)
    → (length (spawn_stage j) ≡ worker_count j) × (threads (spawn_stage j) ≡ j.num_workers)
unfolding spawn_stage worker_count
spawn_stage-count j =
    ground
      (arith, length-spawn_from j.gpus 0 j.num_workers, threads-spawn_from j.gpus 0 j.num_workers)
