-- ===== src/Cpu.antt =====
-- CPU pinning: `_cpu_chunk` and the thread count of `_setup_cpu`, src/pipe/workers.py.
pub mod Partition
mod Tests
use gpupipe.Prelude.{
  ℕ, zero, suc, ◌+◌, ◌*◌, ◌/◌, ◌%◌, min, Option, none, some, List, [], ◌∷◌, ltb, leb, if◌then◌else◌,
  length, is_empty, get_elem?, take, drop,
}

-- `unpinned` is the result None; `index_error` is the exception of a list access.
pub data Slice : Type 0 where
  unpinned index_error : Slice
  cores : List ℕ → Slice

one_core : Option ℕ → Slice
one_core none = index_error
one_core (some c) = cores (c ∷ [])

slice : List ℕ → ℕ → ℕ → Slice
slice pool start size = cores (take size (drop start pool))

unfoldable pub chunk_start : ℕ → ℕ → ℕ → ℕ
chunk_start n m k = k * (n / m) + min k (n % m)

unfoldable pub chunk_size : ℕ → ℕ → ℕ → ℕ
chunk_size n m k = n / m + (if ltb k (n % m) then 1 else 0)

cpu_chunk_of : List ℕ → ℕ → ℕ → Slice
unfolding one_core slice chunk_start chunk_size
cpu_chunk_of pool worker_idx num_workers =
    if is_empty pool
    then unpinned
    else if leb (length pool) num_workers
    then one_core (get_elem? pool (worker_idx % length pool))
    else slice pool (chunk_start (length pool) num_workers worker_idx)
        (chunk_size (length pool) num_workers worker_idx)

-- A stage without a `cpus=` pool has the pool None.
unfoldable pub cpu_chunk : Option (List ℕ) → ℕ → ℕ → Slice
unfolding cpu_chunk_of
cpu_chunk none worker_idx num_workers = unpinned
cpu_chunk (some pool) worker_idx num_workers = cpu_chunk_of pool worker_idx num_workers

threads_of_affinity : Option (List ℕ) → ℕ
threads_of_affinity none = 2
threads_of_affinity (some []) = 2
threads_of_affinity (some (c ∷ cs)) = length (c ∷ cs)

-- The thread count of a worker: an explicit `cpu_threads`, else the size of its core set, else 2.
unfoldable pub thread_count : Option (List ℕ) → Option ℕ → ℕ
unfolding threads_of_affinity
thread_count affinity none = threads_of_affinity affinity
thread_count affinity (some zero) = threads_of_affinity affinity
thread_count affinity (some (suc n)) = suc n
