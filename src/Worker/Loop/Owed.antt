-- ===== src/Worker/Loop/Owed.antt =====
-- The payloads that the calls of a stage owe to the next one.
use gpupipe.Prelude.{◌≡◌, refl, List, [], ◌∷◌, ◌++◌, append_assoc}
use gpupipe.Channel.Output.{OutputChannel}
use gpupipe.Channel.Output.Bounds.{IsValid}
use gpupipe.Channel.Output.Order.{accepted}
use gpupipe.Worker.{Yield, Event, called, parked, values, yielded}

module _ {ℓ} {A B : Type ℓ} where
  -- The payloads that an event of the trace owes to the next stage.
  abbrev pub owed : Event A B → List (Yield B)
  owed (called items limit o) = values (yielded limit o)
  owed (parked ys) = values ys

  abbrev pub outputs : List (Event A B) → List (Yield B)
  outputs [] = []
  outputs (e ∷ es) = owed e ++ outputs es

  pub outputs-append : (es es' : List (Event A B)) → outputs (es ++ es') ≡ outputs es ++ outputs es'
  outputs-append [] es' = refl
  outputs-append (e ∷ es) es' = rw (outputs-append es es', append_assoc)

  -- The channel has accepted `base` and then what the events owe.
  pub record Tracks (base : List (Yield B)) (ch : OutputChannel (Yield B)) (es : List (Event A B))
      : Type ℓ where
    pub valid : IsValid ch
    pub exact : accepted ch ≡ base ++ outputs es
