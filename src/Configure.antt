-- ===== src/Configure.antt =====
-- `Pipe.add` of src/pipe/pipe.py: the checks of a stage's request, and the stage that it records.
pub mod Usable
mod Tests
use gpupipe.Prelude.{
  ℕ, zero, suc, ◌+◌, ◌*◌, Bool, true, false, not, ◌&&◌, ◌||◌, Option, none, some, List, [], ◌∷◌,
  ltb, leb, ◌==◌, if◌then◌else◌, length, is_empty, ℤ, pos, negsuc,
}

-- The arguments of `add` that it checks or resolves. `hang_timeout` is in seconds.
pub record Request : Type 0 where
  pub workers : ℕ
  pub pergpu : Bool
  pub thread : Bool
  pub gpu_id : Option ℤ
  pub gpus : Option (List ℤ)
  pub cpus : Option (List ℤ)
  pub cpu_threads : Option ℤ
  pub scavenge : Bool
  pub hang_timeout : Option ℤ

-- What the machine has.
pub record Box : Type 0 where
  pub gpu_count : ℕ
  pub cpu_count : ℕ

-- The resolved part of the job that is appended.
pub record Added : Type 0 where
  pub num_workers : ℕ
  pub thread : Bool
  pub gpus : Option (List ℤ)
  pub cpus : Option (List ℤ)
  pub cpu_threads : Option ℤ
  pub scavenge : Bool
  pub hang_timeout : Option ℤ

-- A root stage that asks for several workers, or for one per GPU, gets one.
unfoldable pub clamp_root : Bool → Request → Request
clamp_root is_root r =
    if is_root && (ltb 1 r.workers || r.pergpu) then record r { workers = 1; pergpu = false } else r

range_from : ℕ → ℕ → List ℤ
range_from k zero = []
range_from k (suc n) = pos k ∷ range_from (k + 1) n

single_gpu : Option ℤ → Option (List ℤ)
single_gpu none = none
single_gpu (some g) = some (g ∷ [])

-- The GPU pool, with none for ValueError and `some none` for a CPU stage.
resolve_gpus : ℕ → Option (List ℤ) → Bool → Option ℤ → Option (Option (List ℤ))
unfolding range_from single_gpu
resolve_gpus count (some []) pergpu gpu_id = none
resolve_gpus count (some (g ∷ gs)) pergpu gpu_id = some (some (g ∷ gs))
resolve_gpus count none pergpu gpu_id =
    if pergpu
    then (if ltb 0 count then some (some (range_from 0 count)) else some none)
    else some (single_gpu gpu_id)

resolve_cpus : Option (List ℤ) → Option (Option (List ℤ))
resolve_cpus none = some none
resolve_cpus (some []) = none
resolve_cpus (some (c ∷ cs)) = some (some (c ∷ cs))

exists : ℕ → ℤ → Bool
exists count (pos k) = ltb k count
exists count (negsuc k) = false

all_exist : ℕ → List ℤ → Bool
unfolding exists
all_exist count [] = true
all_exist count (z ∷ zs) = exists count z && all_exist count zs

-- `bad` is empty.
unfoldable pub pool_exists : ℕ → Option (List ℤ) → Bool
unfolding all_exist
pool_exists count none = true
pool_exists count (some zs) = all_exist count zs

is_positive : ℤ → Bool
is_positive (pos zero) = false
is_positive (pos (suc n)) = true
is_positive (negsuc n) = false

-- None is allowed.
positive_if_given : Option ℤ → Bool
unfolding is_positive
positive_if_given none = true
positive_if_given (some z) = is_positive z

given : Option ℤ → Bool
given none = false
given (some z) = true

unfoldable pub has_pool : Option (List ℤ) → Bool
has_pool none = false
has_pool (some zs) = true

-- `workers` is a multiplier per GPU.
unfoldable pub pool_size : Option (List ℤ) → ℕ
pool_size none = 1
pool_size (some zs) = length zs

-- The checks that need no pool.
unfoldable pub allowed : Bool → Request → Bool
unfolding given positive_if_given
allowed is_root r =
    not (r.scavenge && (r.thread || is_root))
    && not (given r.hang_timeout && (r.thread || is_root))
    && positive_if_given r.hang_timeout
    && positive_if_given r.cpu_threads

with_pools : Box → Request → Option (Option (List ℤ)) → Option (Option (List ℤ)) → Option Added
unfolding has_pool pool_size pool_exists
with_pools box r none cpus = none
with_pools box r (some gpus) none = none
with_pools box r (some gpus) (some cpus) =
    if pool_exists box.gpu_count gpus && pool_exists box.cpu_count cpus
    then some (record {
      num_workers = r.workers * pool_size gpus;
      thread = r.thread;
      gpus = gpus;
      cpus = cpus;
      cpu_threads = r.cpu_threads;
      scavenge = r.scavenge && has_pool gpus;
      hang_timeout = r.hang_timeout;
    })
    else none

-- `add` to a pipe of `stages` stages; none is ValueError. Which error comes first is left out.
unfoldable pub add : Box → ℕ → Request → Option Added
unfolding clamp_root resolve_gpus resolve_cpus allowed with_pools
add box stages r =
    let r' = clamp_root (stages == 0) r in
    if allowed (stages == 0) r'
    then with_pools box r' (resolve_gpus box.gpu_count r'.gpus r'.pergpu r'.gpu_id)
        (resolve_cpus r'.cpus)
    else none
