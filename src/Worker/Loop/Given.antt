-- ===== src/Worker/Loop/Given.antt =====
-- The payloads that the calls of a stage were given, and what a run makes of all payloads.
use gpupipe.Prelude.{
  none, ℕ, ◌≡◌, refl, sym, ◌≢◌, List, [], ◌∷◌, ◌++◌, append-nil, append_assoc, take, All,
}
use gpupipe.Types.{payloads}
use gpupipe.Channel.Input.Reads.{NonEmpty}
use gpupipe.Channel.Input.Keeps.{unread, IsSound}
use gpupipe.Worker.Batch.Fill.{arrivals, ArriveSound}
use gpupipe.Worker.{Tick, Event, called, parked, Worker, Verdict, left}

module _ {ℓ} {A B : Type ℓ} where
  -- The items given to the stage, call by call.
  abbrev pub given : Event A B → List A
  given (called items limit o) = items
  given (parked ys) = []

  abbrev pub inputs : List (Event A B) → List A
  inputs [] = []
  inputs (e ∷ es) = given e ++ inputs es

  pub inputs-append : (es es' : List (Event A B)) → inputs (es ++ es') ≡ inputs es ++ inputs es'
  inputs-append [] es' = refl
  inputs-append (e ∷ es) es' = rw (inputs-append es es', append_assoc)

  -- What may have arrived during some of the iterations, in order: all of an iteration's messages,
  -- and those of the polls that its batch made.
  pub data Arrived : List (Tick A B) → List A → Type ℓ where
    stop : {ts : List (Tick A B)} → Arrived ts []
    tick :
        {t : Tick A B} {ts : List (Tick A B)} {xs : List A} (n : ℕ)
        → Arrived ts xs
        → Arrived (t ∷ ts) (payloads t.arrivals ++ arrivals (take n t.polls) ++ xs)

  -- No chunk that arrives is empty, no get raises while a batch fills, and no put raises when a
  -- WorkerStop has been read.
  abbrev pub TicksSound : List (Tick A B) → Type 0
  TicksSound [] = Unit
  TicksSound (t ∷ ts) =
      ((t.faults.fill_fails ≡ none) × (t.faults.stop_fails ≡ none))
      × All NonEmpty t.arrivals
      × ArriveSound t.polls
      × TicksSound ts

  -- What an iteration that has read `u` from its channel, or a run, makes of the payloads: those
  -- given to the stage and those left over are the ones it began with and those that arrived. Only
  -- a WorkerStop moves payloads, those of the local buffer, to the end of the shared queue.
  pub record Conserved (before : List A) (r : Worker A B × Verdict) : Type ℓ where
    pub moved : List A
    pub kept : List A
    pub all : inputs r.0.trace ++ moved ++ kept ≡ before
    pub left_over : unread r.0.in_ch ≡ kept ++ moved
    pub in_place : r.1 ≢ left → moved ≡ []
    pub sound : r.1 ≢ left → IsSound r.0.in_ch

  pub stays :
      (before : List A) (w : Worker A B) (v : Verdict)
      → inputs w.trace ++ unread w.in_ch ≡ before
      → IsSound w.in_ch
      → Conserved before (w, v)
  stays before w v e s = record {
    moved = [];
    kept = unread w.in_ch;
    all = rw append-nil e;
    left_over = sym (append-nil (unread w.in_ch));
    in_place = λ _. refl;
    sound = λ _. s;
  }
