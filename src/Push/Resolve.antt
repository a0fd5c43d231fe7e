-- ===== src/Push/Resolve.antt =====
-- How `push` of src/pipe/workers.py resolves its stage argument.
use gpupipe.Prelude.{
  pos, negsuc, String, str_eq, eq_iff, ℕ, ◌+◌, ◌≤◌, ◌<◌, ◌≡◌, refl, ◌↔◌, inl, inr, Bool, Option,
  none, some, List, [], ◌∷◌, arith, if◌then◌else◌, Option-cases,
}
use gpupipe.Push.{
  StageRef, boolean, index, name, type_error, ok, raised, find_name, add_last, setdefault,
  name_table, or_raise, stage_index, check_index, target_index,
}

-- The first stage of that name, counted from `i`.
unfoldable pub position : ℕ → String → List String → Option ℕ
position i nm [] = none
position i nm (k ∷ names) = if str_eq k nm then some i else position (i + 1) nm names

abbrev or_else : Option ℕ → Option ℕ → Option ℕ
or_else (some i) o = some i
or_else none o = o

find_name-add_last :
    (nm k : String) (i : ℕ) (d : List (String × ℕ))
    → find_name nm (add_last k i d)
      ≡ or_else (find_name nm d) (if str_eq k nm then some i else none)
unfolding find_name add_last
find_name-add_last nm k i [] = refl
find_name-add_last nm k i ((j, x) ∷ d) = ground (arith, find_name-add_last nm k i d)

find_name-setdefault :
    (nm k : String) (i : ℕ) (d : List (String × ℕ))
    → find_name nm (setdefault k i d)
      ≡ or_else (find_name nm d) (if str_eq k nm then some i else none)
unfolding setdefault
find_name-setdefault nm k i d = elim (Option-cases (find_name k d)) [
  | inl e ↦ rw (e, setdefault) (find_name-add_last nm k i d)
  | inr (j, e) ↦ rw (e, setdefault) (kept j e)
]
  where
    kept :
        (j : ℕ)
        → find_name k d ≡ some j
        → find_name nm d ≡ or_else (find_name nm d) (if str_eq k nm then some i else none)
    kept j e = ground (arith, eq_iff k nm)

find_name-name_table :
    (nm : String) (i : ℕ) (names : List String) (d : List (String × ℕ))
    → find_name nm (name_table i names d) ≡ or_else (find_name nm d) (position i nm names)
unfolding name_table position
find_name-name_table nm i [] d = ground arith
find_name-name_table nm i (k ∷ names) d =
    ground (
      arith,
      find_name-name_table nm (i + 1) names (setdefault k i d),
      find_name-setdefault nm k i d,
    )

-- The stage that a reference means: an int is itself, a name is the first stage so called.
abbrev pub Means : List String → StageRef → ℕ → Type 0
Means names (boolean b) i = ⊥
Means names (index (pos j)) i = j ≡ i
Means names (index (negsuc j)) i = ⊥
Means names (name nm) i = position 0 nm names ≡ some i

-- A push to one of `n` queues is accepted for stage `i` exactly when the reference means `i` and
-- stage `i` has an input queue, 0 < i ≤ n; TypeError is raised exactly for a bool.
pub target_index-Means :
    (n : ℕ) (names : List String) (stage : StageRef) (i : ℕ)
    → ((target_index n names stage ≡ ok i) ↔ (Means names stage i × (0 < i) × (i ≤ n)))
      × ((target_index n names stage ≡ raised type_error) ↔ ((b : Bool) × (stage ≡ boolean b)))
unfolding target_index stage_index check_index or_raise
target_index-Means n names (boolean b) i =
    ((λ h. ground arith, λ h. ground arith), (λ h. (b, refl), λ h. refl))
target_index-Means n names (index (pos j)) i =
    ((λ h. ground arith, λ h. ground arith), (λ h. ground arith, λ h. ground arith))
target_index-Means n names (index (negsuc j)) i =
    ((λ h. ground arith, λ h. ground arith), (λ h. ground arith, λ h. ground arith))
target_index-Means n names (name nm) i =
    rw (find_name-name_table nm 0 names [])
      ((λ h. ground arith, λ h. ground arith), (λ h. ground arith, λ h. ground arith))
