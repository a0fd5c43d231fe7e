-- ===== src/Channel/Tests.antt =====
-- The channels of src/pipe/queues.py at concrete inputs.
use gpupipe.Prelude.{ℕ, ◌≡◌, refl, List, [], ◌∷◌, ◌++◌, arith}
use gpupipe.Types.{Msg, item, chunk, ctrl, end_of_stream, worker_stop}
use gpupipe.Channel.Output.{
  OutputChannel, init, send, maybe_flush, Op, sends, idles, flushes, apply, run,
}
use gpupipe.Channel.Input.{
  InputChannel, deque, payload, control, attribute_error, open_channel, get, requeue_buffered,
  read_all,
}
use gpupipe.Channel.Input.Reads.{read_all-stream, get-requeue_buffered}
use gpupipe.Channel.Iterator.{collect, stop_iteration}
use gpupipe.Channel.Iterator.Delivery.{collect-sent}

-- Chunks of at most two: one is cut by size, one by age.
abbrev three_sends : List (Op ℕ)
three_sends = sends 7 0 1 ∷ sends 8 2 2 ∷ sends 9 3 4 ∷ idles 60 ∷ []

abbrev mixed_queue : List (Msg ℕ)
mixed_queue = chunk (1 ∷ 2 ∷ []) ∷ ctrl worker_stop ∷ item 3 ∷ []

abbrev half_read : InputChannel ℕ
half_read = record { queue = mixed_queue; buf = deque (5 ∷ 6 ∷ []) }

three_sends_pending : (run three_sends (init 2 50)).queue ≡ chunk (7 ∷ 8 ∷ []) ∷ chunk (9 ∷ []) ∷ []
unfolding run apply maybe_flush send init
three_sends_pending = refl

abbrev one_pending : OutputChannel ℕ
one_pending = record { queue = []; chunk_size = 8; chunk_s = 50; pending = 4 ∷ []; oldest = 10 }

read_all-stream_example :
    read_all 5 (open_channel mixed_queue)
    ≡ payload 1 ∷ payload 2 ∷ control worker_stop ∷ payload 3 ∷ []
read_all-stream_example = read_all-stream 5 mixed_queue (omega arith) (omega arith, (tt, (tt, tt)))

get-requeue_buffered_example :
    (get {A = ℕ}
      (requeue_buffered (record { queue = chunk (1 ∷ []) ∷ []; buf = deque (5 ∷ []) }))).0
    ≡ attribute_error
get-requeue_buffered_example = get-requeue_buffered 5 [] (1 ∷ []) []

collect-sent_example :
    collect 4 (
      open_channel
        ((run (three_sends ++ flushes ∷ []) (init 2 50)).queue ++ ctrl end_of_stream ∷ item 6 ∷ []))
    ≡ (7 ∷ 8 ∷ 9 ∷ [], stop_iteration)
collect-sent_example = collect-sent 4 2 50 three_sends (item 6 ∷ []) (omega arith)
