-- ===== src/Autoscale/Tests.antt =====
-- Runs of the autoscaler at concrete loads.
use gpupipe.Prelude.{
  ℕ, ◌*◌, ◌≡◌, refl, true, false, none, some, List, [], ◌∷◌, arith, get_elem?, All,
}
use gpupipe.Autoscale.{
  defaults, Load, Stage, up, down, Cpu, Sample, autoscaler_thread, read_cpu, cooling, out_blocked,
  active_workers, max_of,
}
use gpupipe.Autoscale.Cooldown.{IsPaced, AlwaysSpared, autoscaler_thread-IsPaced}
use gpupipe.Autoscale.Pressure.{HotLoad, autoscaler_thread-sustained}

abbrev busy : Load
busy = record {
  finished_workers = 0;
  in_queue = some (9, 10);
  out_queue = some (1, 10);
  stop_lands = true;
}

abbrev calm : Load
calm = record {
  finished_workers = 0;
  in_queue = some (1, 10);
  out_queue = some (10, 10);
  stop_lands = true;
}

abbrev blocked : Load
blocked = record {
  finished_workers = 0;
  in_queue = some (9, 10);
  out_queue = some (9, 10);
  stop_lands = true;
}

abbrev two_workers : Stage
two_workers = record {
  job = record { autoscale = true; max_workers = some 4; min_workers = none };
  high_pressure = 0;
  low_pressure = 0;
  last_scale = none;
  worker_count = 2;
  spawn_count = 2;
  log = [];
}

abbrev at_second : ℕ → Load → Sample
at_second n load = record { now = n * 1000; cpu = some (n * 50, n * 100); loads = load ∷ [] }

abbrev at_rest : Cpu
at_rest = record { prev = some (0, 0); saturated = false }

abbrev three_busy : List Sample
three_busy = at_second 1 busy ∷ at_second 2 busy ∷ at_second 3 busy ∷ []

scales_up :
    autoscaler_thread defaults three_busy at_rest (two_workers ∷ [])
    ≡ record two_workers {
      last_scale = some 3000;
      worker_count = 3;
      spawn_count = 3;
      log = (3000, up) ∷ [];
    }
      ∷ []
unfolding autoscaler_thread
scales_up = refl

-- A full input queue behind a blocked output queue does not start the low count again.
keeps_low_count :
    autoscaler_thread defaults
      (at_second 1 calm
        ∷ at_second 2 calm
        ∷ at_second 3 calm
        ∷ at_second 4 calm
        ∷ at_second 5 blocked
        ∷ at_second 6 calm
        ∷ [])
      at_rest
      (two_workers ∷ [])
    ≡ record two_workers { last_scale = some 6000; worker_count = 1; log = (6000, down) ∷ [] } ∷ []
unfolding autoscaler_thread
keeps_low_count = refl

autoscaler_thread-IsPaced_example :
    All (IsPaced defaults) (autoscaler_thread defaults three_busy at_rest (two_workers ∷ []))
    × AlwaysSpared defaults three_busy at_rest (two_workers ∷ [])
autoscaler_thread-IsPaced_example =
    autoscaler_thread-IsPaced defaults three_busy at_rest (two_workers ∷ [])
      (record { marked = refl; spaced = tt }, tt)

is_hot : (now : ℕ) → HotLoad defaults two_workers now busy
unfolding active_workers max_of cooling out_blocked
is_hot now = record {
  size = 9;
  capacity = 10;
  autoscales = refl;
  rested = refl;
  alive = omega arith;
  below_max = omega arith;
  queue = refl;
  bounded = omega arith;
  full = omega arith;
  room = refl;
}

autoscaler_thread-sustained_example :
    (st' : Stage) × (get_elem? (autoscaler_thread defaults three_busy at_rest (two_workers ∷ [])) 0
      ≡ some st')
    × (st'.worker_count ≡ 3)
unfolding read_cpu
autoscaler_thread-sustained_example =
    autoscaler_thread-sustained defaults 0 three_busy at_rest (two_workers ∷ []) two_workers refl
      refl (omega arith) (omega arith) (is_hot 1000, (is_hot 2000, (is_hot 3000, tt)))
