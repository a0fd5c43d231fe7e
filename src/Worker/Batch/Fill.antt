-- ===== src/Worker/Batch/Fill.antt =====
-- The payloads of a batch and of the channel behind it, in `_worker_run`.
use gpupipe.Prelude.{
  ℕ, suc, none, ◌≤◌, ◌<◌, ◌≡◌, refl, sym, ap, ◌∙◌, Bool, ◌||◌, List, [], ◌∷◌, ◌++◌, append-nil,
  append_assoc, arith, leb, if_rule, length, take, length-append, All, All-append,
}
use gpupipe.Types.{Msg, ctrl, end_of_stream, worker_stop, payloads, payloads-append}
use gpupipe.Channel.Input.{
  InputChannel, Read, payload, control, empty, index_error, attribute_error, put, contents,
}
use gpupipe.Channel.Input.Reads.{NonEmpty}
use gpupipe.Channel.Input.Keeps.{IsSound, Proper, get-IsSound, unread, read_out, get-unread}
use gpupipe.Worker.{Poll}
use gpupipe.Worker.Batch.{
  Filled, filled, failed, fill_batch, arrive, after_poll, poll_fails, next_fails,
}

module _ {ℓ} {A : Type ℓ} where
  abbrev pub arrivals : List (Poll A) → List A
  arrivals [] = []
  arrivals (p ∷ polls) = payloads p.arrivals ++ arrivals polls

  pub unread-arrive :
      (ms : List (Msg A)) (ch : InputChannel A) → unread (arrive ms ch) ≡ unread ch ++ payloads ms
  unfolding arrive
  unread-arrive ms ch =
      rw (payloads-append ch.queue ms)
        (sym (append_assoc (contents ch.buf) (payloads ch.queue) (payloads ms)))

  pub unread-put_ctrl : (ch : InputChannel A) → unread (put (ctrl worker_stop) ch) ≡ unread ch
  unfolding put
  unread-put_ctrl ch = rw (payloads-append ch.queue (ctrl worker_stop ∷ []), append-nil)

  -- What a filling of `batch` from `ch` comes to: the batch and then the payloads still unread are
  -- the batch so far, the payloads unread before and those that arrived in the polls made, in order;
  -- and the batch stays within its size.
  abbrev pub Fills : List (Poll A) → ℕ → InputChannel A → List A → Filled A → Type ℓ
  Fills polls size ch batch (filled b ch') =
      ((n : ℕ) × (b ++ unread ch' ≡ batch ++ unread ch ++ arrivals (take n polls)))
      × (length batch ≤ size → length b ≤ size)
  Fills polls size ch batch (failed err ch') = Unit

  pub one_poll :
      (p : Poll A) (ch : InputChannel A) (batch xs : List A)
      → xs ≡ unread (arrive p.arrivals ch)
      → batch ++ xs ≡ batch ++ unread ch ++ (payloads p.arrivals ++ [])
  one_poll p ch batch xs e = rw (e, unread-arrive p.arrivals ch, append-nil) (simp append_assoc)

  pub Fills-more :
      (p : Poll A) (polls : List (Poll A)) (size : ℕ) (ch ch' : InputChannel A)
      (batch batch' : List A) (f : Filled A)
      → batch' ++ unread ch' ≡ batch ++ unread (arrive p.arrivals ch)
      → (length batch ≤ size → length batch' ≤ size)
      → Fills polls size ch' batch' f
      → Fills (p ∷ polls) size ch batch f
  Fills-more p polls size ch ch' batch batch' (failed err c) e small fills = tt
  Fills-more p polls size ch ch' batch batch' (filled b c) e small ((n, e'), small') =
      ((suc n, e' ∙ rw (e, unread-arrive p.arrivals ch) (simp append_assoc)), λ h. small' (small h))

  after_poll-Fills :
      (p : Poll A) (polls : List (Poll A)) (size : ℕ) (ch : InputChannel A) (batch : List A)
      (more : InputChannel A → List A → Filled A) (r : Read A) (ch' : InputChannel A)
      → ((c : InputChannel A) (b : List A) → Fills polls size c b (more c b))
      → length batch < size
      → read_out r ++ unread ch' ≡ unread (arrive p.arrivals ch)
      → Fills (p ∷ polls) size ch batch (after_poll p.late_after more batch r ch')
  unfolding after_poll
  after_poll-Fills p polls size ch batch more (payload a) ch' rec room e =
      Fills-more p polls size ch ch' batch (batch ++ a ∷ []) _
        (rw append_assoc (ap (λ xs. batch ++ xs) e))
        (λ _. omega (arith, length-append batch (a ∷ []))) (rec ch' (batch ++ a ∷ []))
  after_poll-Fills p polls size ch batch more (control end_of_stream) ch' rec room e =
      Fills-more p polls size ch ch' batch batch _ (ap (λ xs. batch ++ xs) e) (λ h. h)
        (rec ch' batch)
  after_poll-Fills p polls size ch batch more (control worker_stop) ch' rec room e = (
    (1, one_poll p ch batch (unread (put (ctrl worker_stop) ch')) (unread-put_ctrl ch' ∙ e)),
    λ h. h,
  )
  after_poll-Fills p polls size ch batch more empty ch' rec room e =
      if_rule (Fills (p ∷ polls) size ch batch) p.late_after _ _
        (λ _. ((1, one_poll p ch batch (unread ch') e), λ h. h))
        (λ _.
          Fills-more p polls size ch ch' batch batch _ (ap (λ xs. batch ++ xs) e) (λ h. h)
            (rec ch' batch))
  after_poll-Fills p polls size ch batch more index_error ch' rec room e = tt
  after_poll-Fills p polls size ch batch more attribute_error ch' rec room e = tt

  pub fill_batch-Fills :
      (polls : List (Poll A)) (size : ℕ) (ch : InputChannel A) (batch : List A)
      → Fills polls size ch batch (fill_batch none polls size ch batch)
  unfolding fill_batch poll_fails next_fails
  fill_batch-Fills [] size ch batch = ((0, rw append-nil), λ h. h)
  fill_batch-Fills (p ∷ polls) size ch batch =
      if_rule (Fills (p ∷ polls) size ch batch) (leb size (length batch) || p.late) _ _
        (λ _. ((0, rw append-nil), λ h. h))
        (λ e.
          after_poll-Fills p polls size ch batch (fill_batch none polls size) _ _
            (fill_batch-Fills polls size) (ground arith) (get-unread (arrive p.arrivals ch)))

  -- Messages that arrive in polls hold no empty chunk.
  abbrev pub ArriveSound : List (Poll A) → Type 0
  ArriveSound [] = Unit
  ArriveSound (p ∷ polls) = All NonEmpty p.arrivals × ArriveSound polls

  abbrev pub FilledSound : Filled A → Type 0
  FilledSound (filled b ch) = IsSound ch
  FilledSound (failed err ch) = ⊥

  pub arrive-IsSound :
      (ms : List (Msg A)) (ch : InputChannel A)
      → All NonEmpty ms
      → IsSound ch
      → IsSound (arrive ms ch)
  unfolding arrive
  arrive-IsSound ms ch n s = record {
    is_deque = s.is_deque;
    non_empty = All-append NonEmpty ch.queue ms s.non_empty n;
  }

  pub put_ctrl-IsSound : (ch : InputChannel A) → IsSound ch → IsSound (put (ctrl worker_stop) ch)
  unfolding put
  put_ctrl-IsSound ch s = record {
    is_deque = s.is_deque;
    non_empty = All-append NonEmpty ch.queue (ctrl worker_stop ∷ []) s.non_empty (tt, tt);
  }

  after_poll-FilledSound :
      (late : Bool) (more : InputChannel A → List A → Filled A) (batch : List A) (r : Read A)
      (ch : InputChannel A)
      → ((c : InputChannel A) (b : List A) → IsSound c → FilledSound (more c b))
      → Proper r
      → IsSound ch
      → FilledSound (after_poll late more batch r ch)
  unfolding after_poll
  after_poll-FilledSound late more batch (payload a) ch rec ok s = rec ch (batch ++ a ∷ []) s
  after_poll-FilledSound late more batch (control end_of_stream) ch rec ok s = rec ch batch s
  after_poll-FilledSound late more batch (control worker_stop) ch rec ok s = put_ctrl-IsSound ch s
  after_poll-FilledSound late more batch empty ch rec ok s =
      if_rule FilledSound late _ _ (λ _. s) (λ _. rec ch batch s)
  after_poll-FilledSound late more batch index_error ch rec ok s = absurd ok
  after_poll-FilledSound late more batch attribute_error ch rec ok s = absurd ok

  -- Filling a batch from a sound channel, with no get that raises, never fails and leaves it sound.
  pub fill_batch-FilledSound :
      (polls : List (Poll A)) (size : ℕ) (ch : InputChannel A) (batch : List A)
      → ArriveSound polls
      → IsSound ch
      → FilledSound (fill_batch none polls size ch batch)
  unfolding fill_batch poll_fails next_fails
  fill_batch-FilledSound [] size ch batch a s = s
  fill_batch-FilledSound (p ∷ polls) size ch batch a s =
      let (ok, s') = get-IsSound (arrive p.arrivals ch) (arrive-IsSound p.arrivals ch a.0 s) in
      if_rule FilledSound (leb size (length batch) || p.late) _ _ (λ _. s)
        (λ _.
          after_poll-FilledSound p.late_after (fill_batch none polls size) batch _ _
            (λ c b t. fill_batch-FilledSound polls size c b a.1 t) ok s')

  pub Fills-Sound :
      (polls : List (Poll A)) (size : ℕ) (ch : InputChannel A) (batch : List A) (f : Filled A)
      → Fills polls size ch batch f
      → FilledSound f
      → (b : List A) × (ch' : InputChannel A) × (f ≡ filled b ch')
        × IsSound ch'
        × Fills polls size ch batch (filled b ch')
  Fills-Sound polls size ch batch (filled b ch') fills s = (b, ch', refl, s, fills)
  Fills-Sound polls size ch batch (failed err ch') fills s = absurd s

  -- Filling a batch from a channel in use, with no get that raises, always ends in a batch, and leaves the channel in use. The
  -- batch, and then what is still unread, are the batch so far, what was unread and what arrived in
  -- the polls made, in order; a batch that fits its size still fits. No chunk is empty.
  pub fill_batch-filled :
      (polls : List (Poll A)) (size : ℕ) (ch : InputChannel A) (batch : List A)
      → ArriveSound polls
      → IsSound ch
      → (b : List A) × (ch' : InputChannel A) × (fill_batch none polls size ch batch ≡ filled b ch')
        × IsSound ch'
        × Fills polls size ch batch (filled b ch')
  fill_batch-filled polls size ch batch a s =
      Fills-Sound polls size ch batch _ (fill_batch-Fills polls size ch batch)
        (fill_batch-FilledSound polls size ch batch a s)
