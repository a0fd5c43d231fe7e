-- ===== src/Completion/Finish.antt =====
-- `_finish_worker` run by one worker after the other: counter, Ends and event.
use gpupipe.Prelude.{
  ℕ, zero, suc, ◌+◌, ◌≤◌, ◌<◌, ◌≡◌, refl, sym, ◌∙◌, inl, inr, Bool, true, false, some, List, [],
  ◌∷◌, ◌++◌, append-nil, append_assoc, arith, length, replicate, length-append,
}
use gpupipe.Types.{Msg, ctrl, end_of_stream}
use gpupipe.Queue.{ShmQueue}
use gpupipe.Queue.Bounded.{put-cases}
use gpupipe.Completion.{
  Stage, put_ends, ends_on, set_event, end_count, announce, finish_with, finish_worker, finish_all,
}

module _ {ℓ} {A : Type ℓ} where
  -- Room for `n` more messages.
  abbrev pub HasRoom : ℕ → ShmQueue (Msg A) → Type 0
  HasRoom n q = 0 < q.maxsize → length q.items + n ≤ q.maxsize

  items-put_ends :
      (n : ℕ) (q : ShmQueue (Msg A))
      → HasRoom n q
      → (put_ends n [] q).items ≡ q.items ++ replicate n (ctrl end_of_stream)
  unfolding put_ends
  items-put_ends zero q room = sym (append-nil q.items)
  items-put_ends (suc n) q room = elim (put-cases (ctrl end_of_stream) q) [
    | inl (e, bounded, full) ↦ absurd (omega (arith, room bounded))
    | inr e ↦
        rw (e, put_ends)
          (items-put_ends n (record q { items = q.items ++ ctrl end_of_stream ∷ [] })
              (λ b. omega (arith, room b, length-append q.items (ctrl end_of_stream ∷ [])))
            ∙ append_assoc q.items (ctrl end_of_stream ∷ []) (replicate n (ctrl end_of_stream)))
  ]

  abbrev Coordinated : ℕ → ℕ → Stage A → Type 0
  Coordinated finished count st = (st.end_counter ≡ some finished) × (st.worker_count ≡ some count)

  -- All but the last of the workers only count themselves; queue and event are left alone.
  finish_worker-early :
      (final : Bool) (consumers : ℕ) (taken : List ℕ) (finished count : ℕ) (st : Stage A)
      → Coordinated finished count st
      → finished + 1 < count
      → finish_worker final consumers taken st ≡ record st { end_counter = some (finished + 1) }
  unfolding finish_worker finish_with announce
  finish_worker-early final consumers taken finished count st c early = ground arith

  finish_worker-last :
      (final : Bool) (consumers : ℕ) (taken : List ℕ) (finished count : ℕ) (st : Stage A)
      → Coordinated finished count st
      → count ≤ finished + 1
      → finish_worker final consumers taken st ≡ record st {
        end_counter = some (finished + 1);
        out_queue = ends_on (end_count final consumers) taken st.out_queue;
        done = set_event st.done;
      }
  unfolding finish_worker finish_with announce
  finish_worker-last final consumers taken finished count st c last = ground arith

  -- While some worker of the stage has not finished, the workers that have change nothing but the
  -- counter: no End is on the queue and the event is not set.
  pub finish_all-early :
      (n : ℕ) (final : Bool) (consumers : ℕ) (taken : List ℕ) (finished count : ℕ) (st : Stage A)
      → Coordinated finished count st
      → finished + n < count
      → finish_all n final consumers taken st ≡ record st { end_counter = some (finished + n) }
  unfolding finish_all
  finish_all-early zero final consumers taken finished count st c early = ground arith
  finish_all-early (suc n) final consumers taken finished count st c early =
      rw (finish_worker-early final consumers taken finished count st c (omega arith)) (
        finish_all-early n final consumers taken (finished + 1) count
          (record st { end_counter = some (finished + 1) }) (refl, c.1) (omega arith)
        ∙ (let e : finished + 1 + n ≡ finished + suc n = omega arith in rw e))

  -- When the last of the workers finishes, the output queue has exactly the Ends it owes behind all
  -- it held, one per consumer on the final stage and one elsewhere, and the event is set. The queue
  -- has room for them.
  pub finish_all-last :
      (n : ℕ) (final : Bool) (consumers : ℕ) (finished count : ℕ) (st : Stage A)
      (q : ShmQueue (Msg A))
      → Coordinated finished count st
      → finished + n + 1 ≡ count
      → st.out_queue ≡ some q
      → st.done ≡ some false
      → HasRoom (end_count final consumers) q
      → (q' : ShmQueue (Msg A)) × (finish_all (suc n) final consumers [] st ≡ record {
        end_counter = some count;
        worker_count = some count;
        out_queue = some q';
        done = some true;
      })
        × (q'.items ≡ q.items ++ replicate (end_count final consumers) (ctrl end_of_stream))
  unfolding finish_all
  finish_all-last zero final consumers finished count st q c last out unset room = (
    put_ends (end_count final consumers) [] q,
    unfold ends_on set_event in
        ground (arith, finish_worker-last final consumers [] finished count st c (omega arith)),
    items-put_ends (end_count final consumers) q room,
  )
  finish_all-last (suc n) final consumers finished count st q c last out unset room =
      rw (finish_worker-early final consumers [] finished count st c (omega arith)) (
        finish_all-last n final consumers (finished + 1) count
          (record st { end_counter = some (finished + 1) }) q (refl, c.1) (omega arith) out unset
          room)
