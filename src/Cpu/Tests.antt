-- ===== src/Cpu/Tests.antt =====
-- CPU pinning at concrete inputs.
use gpupipe.Prelude.{ℕ, ◌≡◌, refl, List, [], ◌∷◌, some, arith}
use gpupipe.Cpu.{cores, cpu_chunk}
use gpupipe.Cpu.Partition.{assigned, assigned-all}

abbrev five_cores : List ℕ
five_cores = 2 ∷ 3 ∷ 5 ∷ 7 ∷ 11 ∷ []

second_worker : cpu_chunk (some five_cores) 1 2 ≡ cores (7 ∷ 11 ∷ [])
unfolding cpu_chunk
second_worker = refl

assigned-all_example : assigned five_cores 2 2 ≡ five_cores
assigned-all_example = assigned-all five_cores 2 (omega arith) (omega arith)
