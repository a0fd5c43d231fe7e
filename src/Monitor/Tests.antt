-- ===== src/Monitor/Tests.antt =====
-- The health monitor at concrete inputs.
use gpupipe.Prelude.{◌≡◌, refl, List, [], ◌∷◌, true, false, none, some, pos, negsuc, get_elem?, All}
use gpupipe.Monitor.{
  Proc, is_hung, kill_hung_workers, Crash, crashed_workers, History, scan, is_serious, recent,
  entries,
}
use gpupipe.Monitor.Crashes.{scan-asks}
use gpupipe.Monitor.Hung.{Has, kill_hung_workers-finds}

-- `a` has crashed twice within the window and once before; `b` never.
abbrev two_crashes : History
two_crashes = ("a", (10, pos 1) ∷ (500, pos 1) ∷ (600, pos 1) ∷ []) ∷ []

abbrev both_crashed : List Crash
both_crashed =
    record { idx = 0; worker = "b"; code = pos 1 }
    ∷ record { idx = 1; worker = "a"; code = negsuc 8 }
    ∷ []

scan-asks_example : (scan 700 both_crashed two_crashes).0 ≡ true
unfolding is_serious recent entries
scan-asks_example = scan-asks 700 both_crashed two_crashes ((refl, tt), (tt, tt))

abbrev one_crash : History
one_crash = ("a", (10, pos 1) ∷ []) ∷ []

abbrev stuck : Proc
stuck = record {
  worker_id = "a";
  is_alive = true;
  exitcode = none;
  busy_since = 10;
  hang_timeout = some 30;
}

abbrev quick : Proc
quick = record {
  worker_id = "b";
  is_alive = true;
  exitcode = none;
  busy_since = 95;
  hang_timeout = some 30;
}

hung_process : is_hung 100 [] stuck ≡ true
unfolding is_hung
hung_process = refl

kill_hung_workers-finds_example :
    (is_hung 100 [] stuck ≡ true
      → Has
          (record { idx = 1; worker = "a"; code = negsuc 8 })
          (crashed_workers 0 (kill_hung_workers 100 [] (quick ∷ stuck ∷ []))))
    × (is_hung 100 [] stuck ≡ false
        → get_elem? (kill_hung_workers 100 [] (quick ∷ stuck ∷ [])) 1 ≡ some stuck)
    × All (λ q. is_hung 100 [] q ≡ false) (kill_hung_workers 100 [] (quick ∷ stuck ∷ []))
kill_hung_workers-finds_example = kill_hung_workers-finds 100 [] 0 1 (quick ∷ stuck ∷ []) stuck refl
