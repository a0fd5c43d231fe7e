-- ===== src/Queue/Retry.antt =====
-- `_put_retry` of src/pipe/queues.py. The environment is a list of rounds: how many messages the
-- consumers take before an attempt, and the clock that the producer reads after a failed one.
pub mod Delivery
use gpupipe.Prelude.{
  ℕ, ◌+◌, ◌-◌, ◌≤◌, ◌<◌, ◌≡◌, refl, ap, ◌∙◌, sym, zero, suc, Bool, true, false, List, [], ◌∷◌, ◌++◌,
  Option, none, some, arith, leb, if◌then◌else◌, length, length-append, drop, length-drop,
  Option-cases, inl, inr, if_rule,
}
use gpupipe.Queue.{ShmQueue, put}

-- `on_stall` is armed until it has fired; `since` is the time of the first failed attempt.
pub record Stall : Type 0 where
  pub armed : Bool
  pub since : Option ℕ
  pub fired : ℕ

note_armed : ℕ → ℕ → Option ℕ → Stall → Stall
note_armed stall_s now none st = record st { since = some now }
note_armed stall_s now (some t0) st =
    if leb (t0 + stall_s) now then record st { armed = false; fired = st.fired + 1 } else st

unfoldable pub note_full : ℕ → ℕ → Stall → Stall
unfolding note_armed
note_full stall_s now st = if st.armed then note_armed stall_s now st.since st else st

module _ {ℓ} {M : Type ℓ} where
  abbrev pub consume : ℕ → ShmQueue M → ShmQueue M
  consume k q = record q { items = drop k q.items }

  -- `none`: still blocked when the rounds end.
  unfoldable pub put_retry : ℕ → M → List (ℕ × ℕ) → Stall → ShmQueue M → Option (Stall × ShmQueue M)
  unfolding note_full put
  put_retry stall_s m [] st q = none
  put_retry stall_s m ((taken, now) ∷ rounds) st q = elim (put m (consume taken q)) [
    | some q' ↦ some (st, q')
    | none ↦ put_retry stall_s m rounds (note_full stall_s now st) (consume taken q)
  ]

-- How many messages the consumers take in all the rounds.
abbrev pub total : List (ℕ × ℕ) → ℕ
total [] = 0
total ((taken, now) ∷ rounds) = taken + total rounds
