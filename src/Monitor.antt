-- ===== src/Monitor.antt =====
-- The health monitor of src/pipe/monitors.py: one pass over the workers. Times are in seconds.
pub mod Crashes
pub mod Hung
mod Tests
use gpupipe.Prelude.{
  ℕ, zero, suc, ◌+◌, ◌-◌, Bool, true, false, not, ◌&&◌, ◌||◌, Option, none, some, List, [], ◌∷◌,
  ◌++◌, ltb, leb, ◌==◌, if◌then◌else◌, length, ℤ, pos, negsuc, String, str_eq, is_empty,
}

-- A worker process. `busy_since` is 0 between calls; `hang_timeout` is none without a watch.
pub record Proc : Type 0 where
  pub worker_id : String
  pub is_alive : Bool
  pub exitcode : Option ℤ
  pub busy_since : ℕ
  pub hang_timeout : Option ℕ

mem_id : String → List String → Bool
mem_id k [] = false
mem_id k (id ∷ ids) = if str_eq id k then true else mem_id k ids

overdue : ℕ → ℕ → Option ℕ → Bool
overdue now started none = false
overdue now started (some timeout) = ltb 0 started && ltb timeout (now - started)

-- `held` are the workers that the scavenger has frozen or parked.
unfoldable pub is_hung : ℕ → List String → Proc → Bool
unfolding mem_id overdue
is_hung now held p =
    not (mem_id p.worker_id held) && p.is_alive && overdue now p.busy_since p.hang_timeout

-- SIGKILL: the exit code is -9.
unfoldable pub kill : Proc → Proc
kill p = record p { is_alive = false; exitcode = some (negsuc 8); busy_since = 0 }

unfoldable pub kill_hung_workers : ℕ → List String → List Proc → List Proc
unfolding is_hung kill
kill_hung_workers now held [] = []
kill_hung_workers now held (p ∷ ps) =
    (if is_hung now held p then kill p else p) ∷ kill_hung_workers now held ps

-- A crashed worker: its place in the list, its id and its exit code.
pub record Crash : Type 0 where
  pub idx : ℕ
  pub worker : String
  pub code : ℤ

is_zero : ℤ → Bool
is_zero (pos zero) = true
is_zero (pos (suc n)) = false
is_zero (negsuc n) = false

note_exit : ℕ → String → Option ℤ → List Crash → List Crash
unfolding is_zero
note_exit i id none cs = cs
note_exit i id (some e) cs =
    if is_zero e then cs else record { idx = i; worker = id; code = e } ∷ cs

unfoldable pub crashed_workers : ℕ → List Proc → List Crash
unfolding note_exit
crashed_workers i [] = []
crashed_workers i (p ∷ ps) =
    let rest = crashed_workers (i + 1) ps in
    if p.is_alive then rest else note_exit i p.worker_id p.exitcode rest

-- `crash_history`, a dict as an association list: the times and codes of the crashes of a worker.
abbrev pub History : Type 0
History = List (String × List (ℕ × ℤ))

unfoldable pub entries : String → History → List (ℕ × ℤ)
entries id [] = []
entries id ((k, es) ∷ h) = if str_eq k id then es else entries id h

-- Assigns to an entry, which it adds if it is missing.
unfoldable pub assign : String → List (ℕ × ℤ) → History → History
assign id es [] = (id, es) ∷ []
assign id es ((k, old) ∷ h) =
    let rest = assign id es h in if str_eq k id then (k, es) ∷ h else (k, old) ∷ rest

-- CRASH_WINDOW and MAX_CRASHES_IN_WINDOW.
abbrev pub crash_window : ℕ
crash_window = 300

abbrev pub max_crashes_in_window : ℕ
max_crashes_in_window = 3

unfoldable pub recent : ℕ → List (ℕ × ℤ) → List (ℕ × ℤ)
recent now [] = []
recent now ((t, e) ∷ es) =
    let rest = recent now es in if ltb (now - t) crash_window then (t, e) ∷ rest else rest

unfoldable pub record_crash : ℕ → Crash → History → History
unfolding recent entries assign
record_crash now c h = assign c.worker (recent now (entries c.worker h ++ (now, c.code) ∷ [])) h

-- SIGSEGV and SIGBUS: -11 and -7.
unfoldable pub is_serious : ℤ → Bool
is_serious (pos n) = false
is_serious (negsuc n) = n == 10 || n == 6

-- The loop over the crashed workers: whether a full restart is needed, and the history. It stops at
-- the first worker that needs one.
unfoldable pub scan : ℕ → List Crash → History → Bool × History
unfolding record_crash is_serious entries
scan now [] h = (false, h)
scan now (c ∷ cs) h =
    let later = scan now cs (record_crash now c h) in
    if is_serious c.code
    then (true, record_crash now c h)
    else if leb max_crashes_in_window (length (entries c.worker (record_crash now c h)))
    then (true, record_crash now c h)
    else later

-- What a pass does: nothing, a full restart, or a restart of each crashed worker in its place.
pub data Action : Type 0 where
  healthy full_restart : Action
  restart_each : List Crash → Action

-- A full restart that succeeds clears the history.
decide : Bool → Bool → Bool → List Crash → Bool × History → Action × History
decide allow_full_restart draining restart_succeeds cs (needed, h) =
    if needed && allow_full_restart && not draining
    then (full_restart, (if restart_succeeds then [] else h))
    else (restart_each cs, h)

-- One pass: hung workers are killed first, and the scan finds them among the crashed.
unfoldable pub health_check :
    ℕ → ℕ → List String → Bool → Bool → Bool → List Proc → History → Action × History
unfolding kill_hung_workers crashed_workers scan decide
health_check now clock held allow_full_restart draining restart_succeeds procs h =
    let cs = crashed_workers 0 (kill_hung_workers now held procs) in
    if is_empty cs
    then (healthy, h)
    else decide allow_full_restart draining restart_succeeds cs (scan clock cs h)
