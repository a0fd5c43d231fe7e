-- ===== src/Monitor/Crashes.antt =====
-- The crash history of `_health_monitor_thread`.
use gpupipe.Prelude.{
  ℤ, String, str_eq, eq_iff, ℕ, ◌+◌, ◌<◌, ◌≡◌, refl, ap, Bool, false, ◌||◌, List, [], ◌∷◌, ◌++◌,
  arith, leb, if◌then◌else◌, if_rule, length, All,
}
use gpupipe.Monitor.{
  Crash, History, entries, assign, recent, record_crash, is_serious, scan, max_crashes_in_window,
}

entries-assign :
    (k id : String) (es : List (ℕ × ℤ)) (h : History)
    → entries k (assign id es h) ≡ (if str_eq id k then es else entries k h)
unfolding entries assign
entries-assign k id es [] = refl
entries-assign k id es ((j, old) ∷ h) =
    ground (arith, entries-assign k id es h, eq_iff j id, eq_iff j k, eq_iff id k)

length-recent :
    (now : ℕ) (e : ℤ) (es : List (ℕ × ℤ))
    → length (recent now (es ++ (now, e) ∷ [])) ≡ length (recent now es) + 1
unfolding recent
length-recent now e [] = ground arith
length-recent now e (x ∷ es) = ground (arith, length-recent now e es)

-- How many crashes of a worker the history has within the window that ends now.
abbrev pub recent_crashes : ℕ → String → History → ℕ
recent_crashes now id h = length (recent now (entries id h))

-- A crash that asks for a full restart: a segmentation fault or bus error, or the third crash of
-- that worker within the window.
abbrev pub asks_restart : ℕ → History → Crash → Bool
asks_restart now h c =
    is_serious c.code || leb max_crashes_in_window (recent_crashes now c.worker h + 1)

abbrev pub any_asks : ℕ → History → List Crash → Bool
any_asks now h [] = false
any_asks now h (c ∷ cs) = asks_restart now h c || any_asks now h cs

abbrev pub Others : String → List Crash → Type 0
Others id cs = All (λ d. str_eq id d.worker ≡ false) cs

-- Each worker stands once in the list.
abbrev pub Distinct : List Crash → Type 0
Distinct [] = Unit
Distinct (c ∷ cs) = Others c.worker cs × Distinct cs

entries-record_crash :
    (now : ℕ) (c : Crash) (h : History)
    → entries c.worker (record_crash now c h)
      ≡ recent now (entries c.worker h ++ (now, c.code) ∷ [])
unfolding record_crash
entries-record_crash now c h = ground (
  arith,
  entries-assign c.worker c.worker (recent now (entries c.worker h ++ (now, c.code) ∷ [])) h,
  eq_iff c.worker c.worker,
)

any_asks-record_crash :
    (now : ℕ) (c : Crash) (cs : List Crash) (h : History)
    → Others c.worker cs
    → any_asks now (record_crash now c h) cs ≡ any_asks now h cs
unfolding record_crash
any_asks-record_crash now c [] h o = refl
any_asks-record_crash now c (d ∷ cs) h o = rw (
  entries-assign d.worker c.worker (recent now (entries c.worker h ++ (now, c.code) ∷ [])) h,
  o.0,
  any_asks-record_crash now c cs h o.1,
)

-- A full restart is found needed exactly when some crashed worker asks for one by its exit code, or
-- by its third crash within the window, if no worker stands twice in the list of the crashed.
pub scan-asks :
    (now : ℕ) (cs : List Crash) (h : History) → Distinct cs → (scan now cs h).0 ≡ any_asks now h cs
unfolding scan
scan-asks now [] h d = refl
scan-asks now (c ∷ cs) h d = ground (
  arith,
  scan-asks now cs (record_crash now c h) d.1,
  any_asks-record_crash now c cs h d.0,
  ap length (entries-record_crash now c h),
  length-recent now c.code (entries c.worker h),
)

abbrev pub IsCalm : History → Type 0
IsCalm h = All (λ (p : String × List (ℕ × ℤ)). length p.1 < max_crashes_in_window) h

assign-IsCalm :
    (id : String) (es : List (ℕ × ℤ)) (h : History)
    → length es < max_crashes_in_window
    → IsCalm h
    → IsCalm (assign id es h)
unfolding assign
assign-IsCalm id es [] small calm = (small, tt)
assign-IsCalm id es ((k, old) ∷ h) small calm =
    if_rule IsCalm (str_eq k id) _ _ (λ _. (small, calm.1))
      (λ _. (calm.0, assign-IsCalm id es h small calm.1))

-- As long as no pass finds a full restart needed, every worker has at most two crashes on record:
-- a worker is restarted in its place at most twice within a window.
pub scan-IsCalm :
    (now : ℕ) (cs : List Crash) (h : History)
    → (scan now cs h).0 ≡ false
    → IsCalm h
    → IsCalm (scan now cs h).1
unfolding scan
scan-IsCalm now [] h e calm = calm
scan-IsCalm now (c ∷ cs) h e₀ calm₀ =
    if_rule Calmer (is_serious c.code) _ _ (λ _ e _. absurd (ground arith))
      (λ _.
        if_rule Calmer
          (leb max_crashes_in_window (length (entries c.worker (record_crash now c h)))) _ _
          (λ _ e _. absurd (ground arith))
          (λ few e calm. scan-IsCalm now cs (record_crash now c h) e (
            unfold record_crash in
            assign-IsCalm c.worker _ h (ground (arith, ap length (entries-record_crash now c h)))
              calm)))
      e₀ calm₀
  where
    Calmer : Bool × History → Type 0
    Calmer r = r.0 ≡ false → IsCalm h → IsCalm r.1
