-- ===== src/Push.antt =====
-- `worker.push(stage, item)`: `_make_push` of src/pipe/workers.py.
pub mod Resolve
pub mod Delivery
mod Tests
use gpupipe.Prelude.{
  ℕ, zero, suc, ◌+◌, ◌-◌, Bool, true, false, not, Option, none, some, List, [], ◌∷◌, ◌||◌, leb,
  ◌==◌, ltb, if◌then◌else◌, length, get_elem?, set, ℤ, pos, negsuc, String, str_eq,
}
use gpupipe.Queue.{ShmQueue, put}
use gpupipe.Queue.Retry.{consume}

-- The `stage` argument: a bool is refused, an int is an index, and a string, a worker class or a
-- worker instance stands for a stage name.
pub data StageRef : Type 0 where
  boolean : Bool → StageRef
  index : ℤ → StageRef
  name : String → StageRef

pub data PushError : Type 0 where
  type_error value_error : PushError

pub data Result {ℓ} (A : Type ℓ) : Type ℓ where
  ok : A → Result A
  raised : PushError → Result A

infixl 5 ◌>>=◌
abbrev pub ◌>>=◌ {ℓ κ} : {A : Type ℓ} {B : Type κ} → Result A → (A → Result B) → Result B
ok a >>= f = f a
raised e >>= f = raised e

-- `name_to_idx`, a dict as an association list in insertion order.
unfoldable pub find_name : String → List (String × ℕ) → Option ℕ
find_name nm [] = none
find_name nm ((k, i) ∷ d) = if str_eq k nm then some i else find_name nm d

add_last : String → ℕ → List (String × ℕ) → List (String × ℕ)
add_last nm i [] = (nm, i) ∷ []
add_last nm i (e ∷ d) = e ∷ add_last nm i d

setdefault : String → ℕ → List (String × ℕ) → List (String × ℕ)
unfolding find_name add_last
setdefault nm i d = elim (find_name nm d) [ none ↦ add_last nm i d | some j ↦ d ]

name_table : ℕ → List String → List (String × ℕ) → List (String × ℕ)
unfolding setdefault
name_table i [] d = d
name_table i (nm ∷ names) d = name_table (i + 1) names (setdefault nm i d)

or_raise : Option ℕ → Result ℕ
or_raise none = raised value_error
or_raise (some i) = ok i

stage_index : List String → StageRef → Result ℤ
unfolding name_table find_name or_raise
stage_index names (boolean b) = raised type_error
stage_index names (index i) = ok i
stage_index names (name nm) = do i ← or_raise (find_name nm (name_table 0 names [])); ok (pos i)

-- `idx <= 0 or idx >= len(all_queues) + 1` raises ValueError.
check_index : ℕ → ℤ → Result ℕ
check_index n (negsuc i) = raised value_error
check_index n (pos i) = if leb i 0 || leb (n + 1) i then raised value_error else ok i

unfoldable pub target_index : ℕ → List String → StageRef → Result ℕ
unfolding stage_index check_index
target_index n names stage = do i ← stage_index names stage; check_index n i

-- What the environment does before and after one attempt: whether stop is requested, how many
-- messages the consumers of the target take, and the clock that a failed attempt reads.
pub record Round : Type 0 where
  pub stop : Bool
  pub taken : ℕ
  pub now : ℕ

expired : Option ℕ → ℕ → Bool
expired none now = false
expired (some deadline) now = leb deadline now

plus : Option ℕ → ℕ → Option ℕ
plus none now = none
plus (some timeout) now = some (now + timeout)

module _ {ℓ} {A : Type ℓ} where
  -- `none`: still trying when the rounds end.
  unfoldable pub push_loop : A → Option ℕ → List Round → ShmQueue A → Option (Bool × ShmQueue A)
  unfolding expired
  push_loop a deadline [] q = none
  push_loop a deadline (r ∷ rounds) q = elim r.stop [
    | true ↦ some (false, q)
    | false ↦ elim (put a (consume r.taken q)) [
      | some q' ↦ some (true, q')
      | none ↦ elim (expired deadline r.now) [
        | true ↦ some (false, consume r.taken q)
        | false ↦ push_loop a deadline rounds (consume r.taken q)
      ]
    ]
  ]

  put_once : A → ShmQueue A → Bool × ShmQueue A
  put_once a q = elim (put a q) [ some q' ↦ (true, q') | none ↦ (false, q) ]

  attempt : A → Bool → Option ℕ → ℕ → List Round → ShmQueue A → Option (Bool × ShmQueue A)
  unfolding put_once push_loop plus
  attempt a block timeout start rounds q =
      if not block then some (put_once a q) else push_loop a (plus timeout start) rounds q

  store : List (ShmQueue A) → ℕ → Option (Bool × ShmQueue A) → Option (Bool × List (ShmQueue A))
  store queues i none = none
  store queues i (some (done, q)) = some (done, set queues i q)

  push_at :
      List (ShmQueue A)
      → A
      → Bool
      → Option ℕ
      → ℕ
      → List Round
      → ℕ
      → Option (Bool × List (ShmQueue A))
  unfolding attempt store
  push_at queues a block timeout start rounds i = elim (get_elem? queues i) [
    | none ↦ none
    | some q ↦ store queues i (attempt a block timeout start rounds q)
  ]

  -- The whole call: `start` is the clock when the deadline is set.
  unfoldable pub push :
      List (ShmQueue A)
      → List String
      → StageRef
      → Option A
      → Bool
      → Option ℕ
      → ℕ
      → List Round
      → Result (Option (Bool × List (ShmQueue A)))
  unfolding target_index push_at
  push queues names stage none block timeout start rounds = ok (some (false, queues))
  push queues names stage (some a) block timeout start rounds = do
    idx ← target_index (length queues) names stage
    ok (push_at queues a block timeout start rounds (idx - 1))
