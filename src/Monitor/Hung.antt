-- ===== src/Monitor/Hung.antt =====
-- `_kill_hung_workers` and the scan for crashed workers after it.
use gpupipe.Prelude.{
  ℤ, negsuc, String, ℕ, zero, suc, ◌+◌, ◌≡◌, refl, ◌⊎◌, inl, inr, true, false, Option, none, some,
  List, [], ◌∷◌, arith, if◌then◌else◌, if_rule, get_elem?, All,
}
use gpupipe.Monitor.{
  Proc, is_hung, kill, kill_hung_workers, Crash, crashed_workers, note_exit, is_zero,
}

abbrev pub Has : Crash → List Crash → Type 0
Has c [] = ⊥
Has c (d ∷ cs) = (c ≡ d) ⊎ Has c cs

Has-note_exit :
    (c : Crash) (i : ℕ) (id : String) (e : Option ℤ) (cs : List Crash)
    → Has c cs
    → Has c (note_exit i id e cs)
unfolding note_exit
Has-note_exit c i id none cs h = h
Has-note_exit c i id (some e) cs h =
    if_rule (Has c) (is_zero e) cs (record { idx = i; worker = id; code = e } ∷ cs) (λ _. h)
      (λ _. inr h)

Has-crashed :
    (c : Crash) (i : ℕ) (p : Proc) (ps : List Proc)
    → Has c (crashed_workers (i + 1) ps)
    → Has c (crashed_workers i (p ∷ ps))
unfolding crashed_workers
Has-crashed c i p ps h =
    if_rule (Has c) p.is_alive _ _ (λ _. h) (λ _. Has-note_exit c i p.worker_id p.exitcode _ h)

Has-killed :
    (i : ℕ) (p : Proc) (ps : List Proc)
    → Has
        (record { idx = i; worker = p.worker_id; code = negsuc 8 })
        (crashed_workers i (kill p ∷ ps))
unfolding crashed_workers kill note_exit
Has-killed i p ps = inl refl

not_hung-kill : (now : ℕ) (held : List String) (p : Proc) → is_hung now held (kill p) ≡ false
unfolding is_hung kill
not_hung-kill now held p = ground arith

none_hung :
    (now : ℕ) (held : List String) (ps : List Proc)
    → All (λ q. is_hung now held q ≡ false) (kill_hung_workers now held ps)
unfolding kill_hung_workers
none_hung now held [] = tt
none_hung now held (p ∷ ps) = (
  if_rule (λ q. is_hung now held q ≡ false) (is_hung now held p) (kill p) p
      (λ _. not_hung-kill now held p) (λ e. e),
  none_hung now held ps,
)

kept-kill_hung_workers :
    (now : ℕ) (held : List String) (i : ℕ) (ps : List Proc) (p : Proc)
    → get_elem? ps i ≡ some p
    → is_hung now held p ≡ false
    → get_elem? (kill_hung_workers now held ps) i ≡ some p
unfolding kill_hung_workers
kept-kill_hung_workers now held i [] p e h = cc
kept-kill_hung_workers now held zero (q ∷ ps) p e h = ground arith
kept-kill_hung_workers now held (suc i) (q ∷ ps) p e h = kept-kill_hung_workers now held i ps p e h

Has-kill_hung_workers :
    (now : ℕ) (held : List String) (j i : ℕ) (ps : List Proc) (p : Proc)
    → get_elem? ps i ≡ some p
    → is_hung now held p ≡ true
    → Has
        (record { idx = j + i; worker = p.worker_id; code = negsuc 8 })
        (crashed_workers j (kill_hung_workers now held ps))
unfolding kill_hung_workers
Has-kill_hung_workers now held j i [] p e h = cc
Has-kill_hung_workers now held j zero (q ∷ ps) p e h =
    let same : p ≡ q = cc in
    let here : j + 0 ≡ j = omega arith in
    rw (here, same) (rw (rw same at h) (Has-killed j q (kill_hung_workers now held ps)))
Has-kill_hung_workers now held j (suc i) (q ∷ ps) p e h =
    let there : j + suc i ≡ j + 1 + i = omega arith in
    rw there (
      Has-crashed _ j (if is_hung now held q then kill q else q) (kill_hung_workers now held ps)
        (Has-kill_hung_workers now held (j + 1) i ps p e h))

-- A worker that sits in one call for longer than its `hang_timeout`, and that the scavenger does not
-- hold, is among the crashed of the same pass, under its place, its id and the code of a SIGKILL; any
-- other worker is left as it is; and afterwards no worker is hung.
pub kill_hung_workers-finds :
    (now : ℕ) (held : List String) (first_idx i : ℕ) (ps : List Proc) (p : Proc)
    → get_elem? ps i ≡ some p
    → (is_hung now held p ≡ true
        → Has
            (record { idx = first_idx + i; worker = p.worker_id; code = negsuc 8 })
            (crashed_workers first_idx (kill_hung_workers now held ps)))
      × (is_hung now held p ≡ false → get_elem? (kill_hung_workers now held ps) i ≡ some p)
      × All (λ q. is_hung now held q ≡ false) (kill_hung_workers now held ps)
kill_hung_workers-finds now held first_idx i ps p e = (
  Has-kill_hung_workers now held first_idx i ps p e,
  kept-kill_hung_workers now held i ps p e,
  none_hung now held ps,
)
