-- ===== src/Channel/Input.antt =====
-- `_InputChannel` of src/pipe/queues.py. `queue` is the content of the shared
-- queue, oldest first; an empty queue is the state in which a `get` raises `Empty`.
pub mod Reads
pub mod Keeps
use gpupipe.Prelude.{ℕ, suc, zero, List, [], ◌∷◌, ◌++◌, if◌then◌else◌, length, is_empty}
use gpupipe.Types.{Sentinel, Msg, item, chunk, ctrl}

-- The local buffer starts as a `deque`; `requeue_buffered` leaves a plain list in its place,
-- which has no `popleft`.
pub data Buffer {ℓ} (A : Type ℓ) : Type ℓ where
  deque : List A → Buffer A
  pylist : List A → Buffer A

pub record InputChannel {ℓ} (A : Type ℓ) : Type ℓ where
  pub queue : List (Msg A)
  pub buf : Buffer A

-- What one `get` returns or raises.
pub data Read {ℓ} (A : Type ℓ) : Type ℓ where
  payload : A → Read A
  control : Sentinel → Read A
  empty index_error attribute_error : Read A

module _ {ℓ} {A : Type ℓ} where
  unfoldable pub open_channel : List (Msg A) → InputChannel A
  open_channel q = record { queue = q; buf = deque [] }

  abbrev pub contents : Buffer A → List A
  contents (deque xs) = xs
  contents (pylist xs) = xs

  -- `self._buf.extend(...)`, in place.
  extend : Buffer A → List A → Buffer A
  extend (deque xs) ys = deque (xs ++ ys)
  extend (pylist xs) ys = pylist (xs ++ ys)

  popleft : List (Msg A) → Buffer A → Read A × InputChannel A
  popleft q (deque []) = (index_error, record { queue = q; buf = deque [] })
  popleft q (deque (x ∷ xs)) = (payload x, record { queue = q; buf = deque xs })
  popleft q (pylist xs) = (attribute_error, record { queue = q; buf = pylist xs })

  receive : List (Msg A) → Buffer A → Read A × InputChannel A
  unfolding extend popleft
  receive [] b = (empty, record { queue = []; buf = b })
  receive (item a ∷ q) b = (payload a, record { queue = q; buf = b })
  receive (ctrl s ∷ q) b = (control s, record { queue = q; buf = b })
  receive (chunk xs ∷ q) b = popleft q (extend b xs)

  unfoldable pub get : InputChannel A → Read A × InputChannel A
  unfolding popleft receive
  get ch = if is_empty (contents ch.buf) then receive ch.queue ch.buf else popleft ch.queue ch.buf

  unfoldable pub buffered : InputChannel A → ℕ
  buffered ch = length (contents ch.buf)

  unfoldable pub requeue_buffered : InputChannel A → InputChannel A
  requeue_buffered ch =
      if is_empty (contents ch.buf)
      then ch
      else record { queue = ch.queue ++ chunk (contents ch.buf) ∷ []; buf = pylist [] }

  unfoldable pub put : Msg A → InputChannel A → InputChannel A
  put m ch = record ch { queue = ch.queue ++ m ∷ [] }

  after_read : Read A → List (Read A) → List (Read A)
  after_read empty rest = []
  after_read (payload a) rest = payload a ∷ rest
  after_read (control s) rest = control s ∷ rest
  after_read index_error rest = index_error ∷ rest
  after_read attribute_error rest = attribute_error ∷ rest

  -- Every read of a consumer until the shared queue runs dry, on fuel.
  unfoldable pub read_all : ℕ → InputChannel A → List (Read A)
  unfolding get after_read
  read_all zero ch = []
  read_all (suc fuel) ch = let (r, ch') = get ch in after_read r (read_all fuel ch')
