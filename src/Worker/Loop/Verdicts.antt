-- ===== src/Worker/Loop/Verdicts.antt =====
-- How one call of the stage lets the loop of `_worker_run` go on.
use gpupipe.Prelude.{ℕ, ◌≡◌, refl, false, Option, none, some, List, arith}
use gpupipe.Worker.{
  Config, Worker, running, connection, other, Outcome, nothing, single, listed, generator, raises,
}
use gpupipe.Worker.Emit.{emit_or_fail}
use gpupipe.Worker.Loop.{process, on_error, on_outcome, emitted, generated, emit, end_generator}

-- A call that does not break a connection.
abbrev pub IsMild {ℓ} : {B : Type ℓ} → Outcome B → Type 0
IsMild nothing = Unit
IsMild (single y) = Unit
IsMild (listed ys) = Unit
IsMild (generator ys (some connection)) = ⊥
IsMild (generator ys (some other)) = Unit
IsMild (generator ys none) = Unit
IsMild (raises connection) = ⊥
IsMild (raises other) = Unit

pub process-running {ℓ} :
    {A B : Type ℓ} (cfg : Config) (clock : ℕ → ℕ) (limit : Option ℕ) (o : Outcome B)
    (items : List A) (w : Worker A B)
    → cfg.raise_errors ≡ false
    → IsMild o
    → (process cfg clock (λ _ _. o) none limit items w).1 ≡ running
unfolding process on_outcome on_error end_generator emitted generated emit emit_or_fail
process-running cfg clock limit nothing items w calm mild = refl
process-running cfg clock limit (single y) items w calm mild = refl
process-running cfg clock limit (listed ys) items w calm mild = refl
process-running cfg clock limit (raises connection) items w calm mild = absurd mild
process-running cfg clock limit (raises other) items w calm mild = ground arith
process-running cfg clock limit (generator ys none) items w calm mild = ground arith
process-running cfg clock limit (generator ys (some connection)) items w calm mild = absurd mild
process-running cfg clock limit (generator ys (some other)) items w calm mild = ground arith
