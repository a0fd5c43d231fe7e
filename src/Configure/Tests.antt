-- ===== src/Configure/Tests.antt =====
-- `Pipe.add` at concrete inputs, on a machine with two GPUs and eight CPUs.
use gpupipe.Prelude.{◌≡◌, refl, false, none, some, [], ◌∷◌, pos}
use gpupipe.Configure.{Request, Box, Added, add}
use gpupipe.Configure.Usable.{IsUsable, add-IsUsable}

abbrev two_gpus : Box
two_gpus = record { gpu_count = 2; cpu_count = 8 }

-- A root stage with a list of two GPUs.
abbrev gpu_root : Request
gpu_root = record {
  workers = 4;
  pergpu = false;
  thread = false;
  gpu_id = none;
  gpus = some (pos 0 ∷ pos 1 ∷ []);
  cpus = none;
  cpu_threads = none;
  scavenge = false;
  hang_timeout = none;
}

-- It gets two workers.
abbrev two_roots : Added
two_roots = record {
  num_workers = 2;
  thread = false;
  gpus = some (pos 0 ∷ pos 1 ∷ []);
  cpus = none;
  cpu_threads = none;
  scavenge = false;
  hang_timeout = none;
}

added : add two_gpus 0 gpu_root ≡ some two_roots
unfolding add
added = refl

add-IsUsable_example : IsUsable two_gpus 0 gpu_root two_roots
add-IsUsable_example = add-IsUsable two_gpus 0 gpu_root two_roots added
