-- ===== src/Channel/Input/Keeps.antt =====
-- The payloads that an `_InputChannel` holds, and how `get` changes them.
use gpupipe.Prelude.{◌≡◌, refl, List, [], ◌∷◌, ◌++◌, arith, All}
use gpupipe.Types.{Msg, item, chunk, ctrl, payloads}
use gpupipe.Channel.Input.Reads.{NonEmpty}
use gpupipe.Channel.Input.{
  InputChannel, Buffer, deque, pylist, Read, payload, control, empty, index_error, attribute_error,
  contents, get, receive, popleft, extend,
}

module _ {ℓ} {A : Type ℓ} where
  -- The payloads still to be read: the buffer, then the queue.
  abbrev pub unread : InputChannel A → List A
  unread ch = contents ch.buf ++ payloads ch.queue

  abbrev pub read_out : Read A → List A
  read_out (payload a) = a ∷ []
  read_out (control s) = []
  read_out empty = []
  read_out index_error = []
  read_out attribute_error = []

  receive-keeps :
      (q : List (Msg A)) (b : Buffer A)
      → contents b ≡ []
      → read_out (receive q b).0 ++ unread (receive q b).1 ≡ payloads q
  unfolding receive popleft extend
  receive-keeps [] b e = rw e
  receive-keeps (item a ∷ q) b e = rw e
  receive-keeps (ctrl s ∷ q) b e = rw e
  receive-keeps (chunk [] ∷ q) (deque []) e = refl
  receive-keeps (chunk (x ∷ xs) ∷ q) (deque []) e = refl
  receive-keeps (chunk xs ∷ q) (deque (y ∷ ys)) e = cc
  receive-keeps (chunk xs ∷ q) (pylist []) e = refl
  receive-keeps (chunk xs ∷ q) (pylist (y ∷ ys)) e = cc

  -- Whatever a `get` returns or raises, the payload that it returns and those that stay are the
  -- payloads that were there, in order.
  get-keeps :
      (q : List (Msg A)) (b : Buffer A) (let_ch : InputChannel A)
      → let_ch ≡ record { queue = q; buf = b }
      → read_out (get let_ch).0 ++ unread (get let_ch).1 ≡ unread let_ch
  unfolding get popleft
  get-keeps q (deque []) c e = rw e (receive-keeps q (deque []) refl)
  get-keeps q (deque (x ∷ xs)) c e = rw e
  get-keeps q (pylist []) c e = rw e (receive-keeps q (pylist []) refl)
  get-keeps q (pylist (x ∷ xs)) c e = rw e

  -- One `get` neither loses nor repeats nor reorders a payload: what it returns, followed by what the
  -- channel still holds in its buffer and on its queue, is what the channel held before.
  pub get-unread : (ch : InputChannel A) → read_out (get ch).0 ++ unread (get ch).1 ≡ unread ch
  get-unread ch = get-keeps ch.queue ch.buf ch refl

  -- A channel in use: its buffer is a deque and no chunk on its queue is empty.
  abbrev pub IsDeque : Buffer A → Type 0
  IsDeque (deque xs) = Unit
  IsDeque (pylist xs) = ⊥

  abbrev pub Proper : Read A → Type 0
  Proper (payload a) = Unit
  Proper (control s) = Unit
  Proper empty = Unit
  Proper index_error = ⊥
  Proper attribute_error = ⊥

  pub record IsSound (ch : InputChannel A) : Type 0 where
    pub is_deque : IsDeque ch.buf
    pub non_empty : All NonEmpty ch.queue

  get-IsSound' :
      (q : List (Msg A)) (b : Buffer A)
      → IsDeque b
      → All NonEmpty q
      → Proper (get (record { queue = q; buf = b })).0
        × IsSound (get (record { queue = q; buf = b })).1
  unfolding get receive popleft extend
  get-IsSound' q (pylist xs) d n = absurd d
  get-IsSound' q (deque (x ∷ xs)) d n = (tt, record { is_deque = tt; non_empty = n })
  get-IsSound' [] (deque []) d n = (tt, record { is_deque = tt; non_empty = tt })
  get-IsSound' (item a ∷ q) (deque []) d n = (tt, record { is_deque = tt; non_empty = n.1 })
  get-IsSound' (ctrl s ∷ q) (deque []) d n = (tt, record { is_deque = tt; non_empty = n.1 })
  get-IsSound' (chunk [] ∷ q) (deque []) d n = absurd (omega arith)
  get-IsSound' (chunk (x ∷ xs) ∷ q) (deque []) d n = (tt, record { is_deque = tt; non_empty = n.1 })

  -- A sound channel stays sound, and its `get` raises nothing but `Empty`.
  pub get-IsSound : (ch : InputChannel A) → IsSound ch → Proper (get ch).0 × IsSound (get ch).1
  get-IsSound ch s = get-IsSound' ch.queue ch.buf s.is_deque s.non_empty

  get-empty' :
      (q : List (Msg A)) (b : Buffer A)
      → (get (record { queue = q; buf = b })).0 ≡ empty
      → contents (get (record { queue = q; buf = b })).1.buf ≡ []
  unfolding get receive popleft extend
  get-empty' q (deque (x ∷ xs)) e = absurd cc
  get-empty' q (pylist (x ∷ xs)) e = absurd cc
  get-empty' [] (deque []) e = refl
  get-empty' [] (pylist []) e = refl
  get-empty' (item a ∷ q) (deque []) e = absurd cc
  get-empty' (item a ∷ q) (pylist []) e = absurd cc
  get-empty' (ctrl s ∷ q) (deque []) e = absurd cc
  get-empty' (ctrl s ∷ q) (pylist []) e = absurd cc
  get-empty' (chunk [] ∷ q) (deque []) e = absurd cc
  get-empty' (chunk (x ∷ xs) ∷ q) (deque []) e = absurd cc
  get-empty' (chunk xs ∷ q) (pylist []) e = absurd cc

  -- A `get` raises `Empty` only when the buffer is empty.
  pub contents-get-empty : (ch : InputChannel A) → (get ch).0 ≡ empty → contents (get ch).1.buf ≡ []
  contents-get-empty ch e = get-empty' ch.queue ch.buf e
