-- ===== src/Channel/Input/Reads.antt =====
-- The reads of a consumer of `_InputChannel`, and its early exit.
use gpupipe.Prelude.{
  if_rule, is_empty, is_empty-nil, ℕ, zero, suc, ◌<◌, ◌≡◌, refl, sym, ap, ◌∙◌, List, [], ◌∷◌, ◌++◌,
  map, arith, length, append-nil, All,
}
use gpupipe.Types.{Msg, item, chunk, ctrl, payloads, payloads-append}
use gpupipe.Channel.Input.{
  deque, InputChannel, Read, payload, control, attribute_error, contents, open_channel, get,
  requeue_buffered, read_all,
}

module _ {ℓ} {A : Type ℓ} where
  abbrev pub NonEmpty : Msg A → Type 0
  NonEmpty (item a) = Unit
  NonEmpty (chunk xs) = 0 < length xs
  NonEmpty (ctrl s) = Unit

  -- What a consumer sees of a queue: payloads one by one, control signals in their place.
  abbrev pub stream : List (Msg A) → List (Read A)
  stream [] = []
  stream (item a ∷ q) = payload a ∷ stream q
  stream (chunk xs ∷ q) = map payload xs ++ stream q
  stream (ctrl s ∷ q) = control s ∷ stream q

  -- One `get` on a channel whose buffer holds `xs`: it splits off the head of the stream, or
  -- raises `Empty` when there is none.
  read_all-deque :
      (fuel : ℕ) (xs : List A) (q : List (Msg A))
      → length (map payload xs ++ stream q) < fuel
      → All NonEmpty q
      → read_all fuel (record { queue = q; buf = deque xs }) ≡ map payload xs ++ stream q
  unfolding read_all
  read_all-deque zero xs q h v = absurd (omega arith)
  read_all-deque (suc f) (x ∷ xs) q h v =
      ap (λ r. payload x ∷ r) (read_all-deque f xs q (omega arith) v)
  read_all-deque (suc f) [] [] h v = refl
  read_all-deque (suc f) [] (item a ∷ q) h v =
      ap (λ r. payload a ∷ r) (read_all-deque f [] q (omega arith) v.1)
  read_all-deque (suc f) [] (ctrl s ∷ q) h v =
      ap (λ r. control s ∷ r) (read_all-deque f [] q (omega arith) v.1)
  read_all-deque (suc f) [] (chunk [] ∷ q) h v = absurd (omega arith)
  read_all-deque (suc f) [] (chunk (x ∷ xs) ∷ q) h v =
      ap (λ r. payload x ∷ r) (read_all-deque f xs q (omega arith) v.1)

  -- A consumer that reads until the queue is empty gets every payload of every message once, in
  -- order, with the control signals between them as they stood. No chunk on the queue is empty, and
  -- the fuel exceeds the number of reads.
  pub read_all-stream :
      (fuel : ℕ) (q : List (Msg A))
      → length (stream q) < fuel
      → All NonEmpty q
      → read_all fuel (open_channel q) ≡ stream q
  unfolding open_channel
  read_all-stream fuel q h v = read_all-deque fuel [] q h v

  -- An early exit loses nothing: after `requeue_buffered` the buffer is empty, and the queue holds
  -- its old payloads followed by the buffered ones.
  pub requeue-keeps :
      (ch : InputChannel A)
      → (contents (requeue_buffered ch).buf ≡ [])
        × (payloads (requeue_buffered ch).queue ≡ payloads ch.queue ++ contents ch.buf)
  unfolding requeue_buffered
  requeue-keeps ch =
      if_rule
        (λ c. (contents c.buf ≡ []) × (payloads c.queue ≡ payloads ch.queue ++ contents ch.buf))
        (is_empty (contents ch.buf)) ch _
        (λ e.
          let none_left = is_empty-nil (contents ch.buf) e in
          (
            none_left,
            sym (append-nil (payloads ch.queue))
                ∙ ap (λ xs. payloads ch.queue ++ xs) (sym none_left),
          ))
        (λ e. (refl, payloads-append ch.queue (chunk (contents ch.buf) ∷ []) ∙ rw append-nil))

  -- A channel is spent once it has given its buffer back: the next `get` that meets a `Chunk` raises
  -- AttributeError, since the buffer is no longer a deque.
  pub get-requeue_buffered :
      (x : A) (xs ys : List A) (q : List (Msg A))
      → (get (requeue_buffered (record { queue = chunk ys ∷ q; buf = deque (x ∷ xs) }))).0
        ≡ attribute_error
  unfolding get requeue_buffered
  get-requeue_buffered x xs ys q = refl
