-- ===== src/Channel/Iterator/Delivery.antt =====
-- From the sends of a worker, through `_OutputChannel`, to the payloads of a `PipeIterator`.
use gpupipe.Prelude.{
  ℕ, zero, suc, ◌+◌, ◌<◌, ◌≡◌, refl, ap, ◌∙◌, List, [], ◌∷◌, ◌++◌, arith, length, length-append,
  All,
}
use gpupipe.Types.{Msg, item, chunk, ctrl, end_of_stream, payloads}
use gpupipe.Channel.Input.{deque, open_channel}
use gpupipe.Channel.Output.{Op, flushes, init, run, sent}
use gpupipe.Channel.Output.Bounds.{FitsChunk}
use gpupipe.Channel.Output.Order.{flush-delivers}
use gpupipe.Channel.Iterator.{Next, stop_iteration, collect}

module _ {ℓ} {A : Type ℓ} where
  abbrev prepend : A → List A × Next A → List A × Next A
  prepend a r = (a ∷ r.0, r.1)

  collect-deque :
      (fuel n : ℕ) (xs : List A) (q late : List (Msg A))
      → length xs + length (payloads q) < fuel
      → All (FitsChunk n) q
      → collect fuel (record { queue = q ++ ctrl end_of_stream ∷ late; buf = deque xs })
        ≡ (xs ++ payloads q, stop_iteration)
  unfolding collect
  collect-deque zero n xs q late h v = absurd (omega arith)
  collect-deque (suc f) n (x ∷ xs) q late h v =
      ap (λ r. prepend x r) (collect-deque f n xs q late (omega arith) v)
  collect-deque (suc f) n [] [] late h v = refl
  collect-deque (suc f) n [] (item a ∷ q) late h v =
      ap (λ r. prepend a r) (collect-deque f n [] q late (omega arith) v.1)
  collect-deque (suc f) n [] (ctrl s ∷ q) late h v = absurd v.0
  collect-deque (suc f) n [] (chunk [] ∷ q) late h v = absurd (omega arith)
  collect-deque (suc f) n [] (chunk (x ∷ xs) ∷ q) late h v =
      ap (λ r. prepend x r)
        (collect-deque f n xs q late (omega (arith, length-append xs (payloads q))) v.1)

  -- A worker's sends, flushed and closed by End, come out of a `PipeIterator` exactly as they went
  -- in, each once and in order, and then it stops, whatever stands behind the End. The fuel exceeds
  -- the number of payloads.
  pub collect-sent :
      (fuel chunk_size chunk_ms : ℕ) (ops : List (Op A)) (late : List (Msg A))
      → length (sent ops) < fuel
      → collect fuel (
          open_channel (
            (run (ops ++ flushes ∷ []) (init chunk_size chunk_ms)).queue
            ++ ctrl end_of_stream ∷ late))
        ≡ (sent ops, stop_iteration)
  unfolding open_channel
  collect-sent fuel chunk_size chunk_ms ops late h =
      let (all, fits) = flush-delivers chunk_size chunk_ms ops in
      collect-deque fuel chunk_size [] _ late (omega (arith, ap length all)) fits
      ∙ ap (λ xs. (xs, stop_iteration)) all
