-- ===== src/Worker/Pull/Keeps.antt =====
-- The payloads of a `pull`, and of the channels behind it.
use gpupipe.Prelude.{
  ℕ, ◌<◌, ◌≡◌, refl, ap, ◌∙◌, Bool, ◌||◌, List, [], ◌∷◌, ◌++◌, append-nil, append_assoc, arith, leb,
  if_rule, length, is_empty, length-append, is_empty-nil,
}
use gpupipe.Types.{ctrl, end_of_stream, worker_stop}
use gpupipe.Channel.Input.{
  InputChannel, Read, payload, control, empty, index_error, attribute_error, put,
}
use gpupipe.Channel.Input.Keeps.{IsSound, Proper, get-IsSound, unread, read_out, get-unread}
use gpupipe.Channel.Output.{OutputChannel}
use gpupipe.Channel.Output.Order.{accepted, accepted-maybe_flush}
use gpupipe.Worker.{Poll}
use gpupipe.Worker.Batch.{Filled, filled, failed, arrive}
use gpupipe.Worker.Batch.Fill.{
  Fills, Fills-more, Fills-Sound, one_poll, unread-put_ctrl, ArriveSound, FilledSound,
  arrive-IsSound, put_ctrl-IsSound,
}
use gpupipe.Worker.Pull.{after_pull, pull_items, idle_flush, pull}

module _ {ℓ} {A : Type ℓ} where
  after_pull-Fills :
      (p : Poll A) (polls : List (Poll A)) (n : ℕ) (ch : InputChannel A) (items : List A)
      (more : InputChannel A → List A → Filled A) (r : Read A) (ch' : InputChannel A)
      → ((c : InputChannel A) (b : List A) → Fills polls n c b (more c b))
      → length items < n
      → read_out r ++ unread ch' ≡ unread (arrive p.arrivals ch)
      → Fills (p ∷ polls) n ch items (after_pull p.late_after more items r ch')
  unfolding after_pull
  after_pull-Fills p polls n ch items more (payload a) ch' rec room e =
      Fills-more p polls n ch ch' items (items ++ a ∷ []) _
        (rw append_assoc (ap (λ xs. items ++ xs) e))
        (λ _. omega (arith, length-append items (a ∷ []))) (rec ch' (items ++ a ∷ []))
  after_pull-Fills p polls n ch items more (control end_of_stream) ch' rec room e =
      Fills-more p polls n ch ch' items items _ (ap (λ xs. items ++ xs) e) (λ h. h) (rec ch' items)
  after_pull-Fills p polls n ch items more (control worker_stop) ch' rec room e = (
    (1, one_poll p ch items (unread (put (ctrl worker_stop) ch')) (unread-put_ctrl ch' ∙ e)),
    λ h. h,
  )
  after_pull-Fills p polls n ch items more empty ch' rec room e =
      if_rule (Fills (p ∷ polls) n ch items) (is_empty items) _ _
        (λ none_yet.
          if_rule (Fills (p ∷ polls) n ch items) p.late_after _ _
            (λ _. rw (is_empty-nil items none_yet) ((1, one_poll p ch [] (unread ch') e), λ h. h))
            (λ _.
              Fills-more p polls n ch ch' items items _ (ap (λ xs. items ++ xs) e) (λ h. h)
                (rec ch' items)))
        (λ _. ((1, one_poll p ch items (unread ch') e), λ h. h))
  after_pull-Fills p polls n ch items more index_error ch' rec room e = tt
  after_pull-Fills p polls n ch items more attribute_error ch' rec room e = tt

  pull_items-Fills :
      (polls : List (Poll A)) (n : ℕ) (ch : InputChannel A) (items : List A)
      → Fills polls n ch items (pull_items polls n ch items)
  unfolding pull_items
  pull_items-Fills [] n ch items = ((0, rw append-nil), λ h. h)
  pull_items-Fills (p ∷ polls) n ch items =
      if_rule (Fills (p ∷ polls) n ch items) (leb n (length items) || p.late) _ _
        (λ _. ((0, rw append-nil), λ h. h))
        (λ e.
          after_pull-Fills p polls n ch items (pull_items polls n) _ _ (pull_items-Fills polls n)
            (ground arith) (get-unread (arrive p.arrivals ch)))

  after_pull-FilledSound :
      (done : Bool) (more : InputChannel A → List A → Filled A) (items : List A) (r : Read A)
      (ch : InputChannel A)
      → ((c : InputChannel A) (b : List A) → IsSound c → FilledSound (more c b))
      → Proper r
      → IsSound ch
      → FilledSound (after_pull done more items r ch)
  unfolding after_pull
  after_pull-FilledSound done more items (payload a) ch rec ok s = rec ch (items ++ a ∷ []) s
  after_pull-FilledSound done more items (control end_of_stream) ch rec ok s = rec ch items s
  after_pull-FilledSound done more items (control worker_stop) ch rec ok s = put_ctrl-IsSound ch s
  after_pull-FilledSound done more items empty ch rec ok s =
      if_rule FilledSound (is_empty items) _ _
        (λ _. if_rule FilledSound done _ _ (λ _. s) (λ _. rec ch items s)) (λ _. s)
  after_pull-FilledSound done more items index_error ch rec ok s = absurd ok
  after_pull-FilledSound done more items attribute_error ch rec ok s = absurd ok

  pull_items-FilledSound :
      (polls : List (Poll A)) (n : ℕ) (ch : InputChannel A) (items : List A)
      → ArriveSound polls
      → IsSound ch
      → FilledSound (pull_items polls n ch items)
  unfolding pull_items
  pull_items-FilledSound [] n ch items a s = s
  pull_items-FilledSound (p ∷ polls) n ch items a s =
      let (ok, s') = get-IsSound (arrive p.arrivals ch) (arrive-IsSound p.arrivals ch a.0 s) in
      if_rule FilledSound (leb n (length items) || p.late) _ _ (λ _. s)
        (λ _.
          after_pull-FilledSound p.late_after (pull_items polls n) items _ _
            (λ c b t. pull_items-FilledSound polls n c b a.1 t) ok s')

module _ {ℓ} {A B : Type ℓ} where
  accepted-idle_flush :
      (now : ℕ) (f : Filled A) (out_ch : OutputChannel B)
      → accepted (idle_flush now f out_ch) ≡ accepted out_ch
  unfolding idle_flush
  accepted-idle_flush now (filled items ch) out_ch =
      if_rule (λ (c : OutputChannel B). accepted c ≡ accepted out_ch) (is_empty items) _ _
        (λ _. accepted-maybe_flush now out_ch) (λ _. refl)
  accepted-idle_flush now (failed e ch) out_ch = refl

  -- A pull of `n` from a channel in use returns at most `n` items, and leaves the channel in use. The
  -- items, and then what is still unread, are what was unread and what arrived in the polls made, in
  -- order; and the flush of an idle pull changes no payload that was sent. No chunk is empty.
  pub pull-keeps :
      (now : ℕ) (polls : List (Poll A)) (n : ℕ) (ch : InputChannel A) (out_ch : OutputChannel B)
      → ArriveSound polls
      → IsSound ch
      → ((items : List A) × (ch' : InputChannel A) × ((pull now polls n ch out_ch).0
            ≡ filled items ch')
          × IsSound ch'
          × Fills polls n ch [] (filled items ch'))
        × (accepted (pull now polls n ch out_ch).1 ≡ accepted out_ch)
  unfolding pull
  pull-keeps now polls n ch out_ch a s = (
    Fills-Sound polls n ch [] _ (pull_items-Fills polls n ch [])
        (pull_items-FilledSound polls n ch [] a s),
    accepted-idle_flush now _ out_ch,
  )
