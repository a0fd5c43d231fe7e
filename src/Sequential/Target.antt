-- ===== src/Sequential/Target.antt =====
-- `_seq_push` of src/pipe/sequential.py, and the `push` of the parallel mode.
use gpupipe.Prelude.{
  ℤ, pos, negsuc, String, str_eq, ℕ, ◌+◌, ◌≤◌, ◌<◌, ◌≡◌, refl, ◌↔◌, ◌⊎◌, inl, inr, ◌||◌, Option,
  none, some, List, [], ◌∷◌, arith, leb, if◌then◌else◌,
}
use gpupipe.Push.{
  StageRef, boolean, index, name, type_error, value_error, Result, ok, raised, ◌>>=◌, target_index,
}
use gpupipe.Push.Resolve.{position, Means, target_index-Means}

-- `seq_stage_names.index(name)`, from the name at place `i`.
unfoldable pub name_index : ℕ → String → List String → Result ℤ
name_index i nm [] = raised value_error
name_index i nm (k ∷ names) =
    let rest = name_index (i + 1) nm names in if str_eq k nm then ok (pos i) else rest

seq_index : List String → StageRef → Result ℤ
unfolding name_index
seq_index names (boolean b) = raised type_error
seq_index names (index z) = ok z
seq_index names (name nm) = name_index 0 nm names

seq_check : ℕ → ℤ → Result ℕ
seq_check count (negsuc j) = raised value_error
seq_check count (pos j) = if leb j 0 || leb count j then raised value_error else ok j

-- The stage that a sequential push appends its item for, with `count` stages.
unfoldable pub seq_target : ℕ → List String → StageRef → Result ℕ
unfolding seq_index seq_check
seq_target count names stage = do idx ← seq_index names stage; seq_check count idx

as_index : Option ℕ → Result ℤ
as_index none = raised value_error
as_index (some i) = ok (pos i)

name_index-position :
    (i : ℕ) (nm : String) (names : List String)
    → name_index i nm names ≡ as_index (position i nm names)
unfolding name_index position as_index
name_index-position i nm [] = refl
name_index-position i nm (k ∷ names) = ground (arith, name_index-position (i + 1) nm names)

seq_target-Means :
    (n : ℕ) (names : List String) (stage : StageRef) (i : ℕ)
    → (seq_target n names stage ≡ ok i) ↔ (Means names stage i × (0 < i) × (i < n))
unfolding seq_target seq_index seq_check as_index
seq_target-Means n names (boolean b) i = (λ h. ground arith, λ h. ground arith)
seq_target-Means n names (index (pos j)) i = (λ h. ground arith, λ h. ground arith)
seq_target-Means n names (index (negsuc j)) i = (λ h. ground arith, λ h. ground arith)
seq_target-Means n names (name nm) i =
    rw (name_index-position 0 nm names) (λ h. ground arith, λ h. ground arith)

-- With as many queues as stages, the parallel push accepts what the sequential push accepts, for the
-- same stage, and one index more: the number of stages, whose queue is the final output queue.
pub seq_target-target_index :
    (n : ℕ) (names : List String) (stage : StageRef) (i : ℕ)
    → (target_index n names stage ≡ ok i)
      ↔ ((seq_target n names stage ≡ ok i) ⊎ (Means names stage i × (i ≡ n) × (0 < n)))
seq_target-target_index n names stage i =
    let (parallel, bools) = target_index-Means n names stage i in
    let sequential = seq_target-Means n names stage i in
    (
      λ h. elim (less_or_same i n (parallel.0 h).2) [
        | inl less ↦ inl (sequential.1 ((parallel.0 h).0, (parallel.0 h).1, less))
        | inr same ↦ inr ((parallel.0 h).0, same, omega (arith, (parallel.0 h).1))
      ],
      λ h. elim h [
        | inl e ↦
            parallel.1 ((sequential.0 e).0, (sequential.0 e).1, omega (arith, (sequential.0 e).2))
        | inr (m, same, some_stage) ↦ parallel.1 (m, omega arith, omega arith)
      ],
    )
  where
    less_or_same : (a b : ℕ) → a ≤ b → (a < b) ⊎ (a ≡ b)
    less_or_same a b h = grind arith
