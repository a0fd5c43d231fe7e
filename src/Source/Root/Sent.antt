-- ===== src/Source/Root/Sent.antt =====
-- What the loop of a root stage sends.
use gpupipe.Prelude.{
  ℕ, ◌+◌, ◌≡◌, refl, sym, ◌∙◌, subst, inl, inr, Bool, true, false, not, ◌&&◌, ◌||◌, Option, none,
  some, List, [], ◌∷◌, ◌++◌, append-nil, arith, if◌then◌else◌, Bool-cases, if_rule,
}
use gpupipe.Worker.{
  Yield, value, none_value, end_value, Error, connection, other, Verdict, running, ended,
  broken_connection, left, crashed, Config,
}
use gpupipe.Source.{
  Sending, lands, fails, returns, Drained, drain_from, drain_source_generator, on_raise, finish,
  after_send,
}
use gpupipe.Channel.Output.{OutputChannel, send, maybe_flush, idles, apply, run}
use gpupipe.Channel.Output.Bounds.{IsValid, maybe_flush-IsValid, chunk_size-run}
use gpupipe.Channel.Output.Order.{accepted, accepted-maybe_flush}
use gpupipe.Source.Drain.{
  landing, drain_source_generator-Drains, ItemsMild, Accepts, Accepts-nil, Accepts-append,
  emit_item-Accepts, landed-send, failed-send,
}
use gpupipe.Source.Root.{
  SourceCall, nothing, single, listed, generator, raises, RootTick, Root, has_end, count, on_error,
  emit_list, on_list, after_drain, note_drained, on_generator, on_result, root_iterate, go_on,
  root_loop, after_emit, count_valid, check_raises, flush_aged,
}
use gpupipe.Source.Root.Promise.{
  RaisesMildly, has_raised, ListMild, CallMild, list_landing, all_land, is_stopped, call_sends,
  call_ends, promised, TicksMild,
}

module _ {ℓ} {B : Type ℓ} where
  -- From a channel the payloads `ys` have been accepted, and the loop has ended if `ends` says so.
  Does : ℕ → OutputChannel (Yield B) → List (Yield B) → Bool → Root B × Verdict → Type ℓ
  Does n ch ys ends res = Accepts n ch ys res.0.out_ch × (res.1 ≡ (if ends then ended else running))

  -- How a loop over a generator returns.
  abbrev Ends : List (Bool × Yield B × Sending) → Option Error → Drained B → Type 0
  Ends items raised d =
      (m : ℕ) × (d.ending ≡ returns (not (is_stopped items) && has_raised raised) m)

  -- A valid channel of an edge with chunk size `n`.
  IsGood : ℕ → OutputChannel (Yield B) → Type ℓ
  IsGood n ch = IsValid ch × (ch.chunk_size ≡ n)

  module _ (n : ℕ) (cfg : Config) (lenient : cfg.raise_errors ≡ false) where
    out_ch-count : (k : ℕ) (r : Root B) → (count cfg k r).out_ch ≡ r.out_ch
    unfolding count
    out_ch-count k r =
        if_rule (λ (q : Root B). q.out_ch ≡ r.out_ch) cfg.timing _ r (λ _. refl) (λ _. refl)

    Does-nil :
        (ends : Bool) (r : Root B)
        → IsGood n r.out_ch
        → Does n r.out_ch [] ends (r, (if ends then ended else running))
    unfolding Does IsGood
    Does-nil ends r (v, e) = (Accepts-nil n r.out_ch v e, refl)

    failed-Does :
        (ends : Bool) (e : Error) (r : Root B) (ch : OutputChannel (Yield B))
        → e ≡ other
        → Accepts n ch [] r.out_ch
        → Does n ch [] false (on_error cfg e r)
    unfolding Does on_error
    failed-Does ends connection r ch e a = cc
    failed-Does ends other r ch e a = (a, ground (arith, lenient))

    sent-Accepts :
        (t now : ℕ) (y : Yield B) (ch : OutputChannel (Yield B))
        → IsGood n ch
        → Accepts n ch (y ∷ []) (send y t now ch)
    unfolding IsGood
    sent-Accepts t now y ch (v, e) =
        rw (landed-send t now y ch) at (emit_item-Accepts n (lands t now) y ch v e tt).0

    emit_list-Does :
        (ends : Bool) (ys : List (Yield B × Sending)) (r : Root B)
        → ListMild n ys
        → IsGood n r.out_ch
        → Does n r.out_ch (list_landing ys) (ends && all_land ys) (emit_list cfg ends ys r)
    unfolding emit_list after_emit Does IsGood on_error
    emit_list-Does true [] r mild g = Does-nil true r g
    emit_list-Does false [] r mild g = Does-nil false r g
    emit_list-Does ends ((none_value, s) ∷ ys) r mild g = emit_list-Does ends ys r mild.1 g
    emit_list-Does ends ((end_value, s) ∷ ys) r mild g = emit_list-Does ends ys r mild.1 g
    emit_list-Does ends ((value b, lands t now) ∷ ys) r mild g =
        let y : Yield B = value b in
        let ch = send y t now r.out_ch in
        let a = sent-Accepts t now y r.out_ch g in
        let later =
          emit_list-Does ends ys (record r { out_ch = ch }) mild.1 (a.valid, a.same_size) in
        rw (landed-send t now y r.out_ch)
          (Accepts-append n r.out_ch ch _ (y ∷ []) (list_landing ys) a later.0, later.1)
    emit_list-Does ends ((value b, fails connection t now) ∷ ys) r mild g = absurd mild.0
    emit_list-Does ends ((value b, fails other t now) ∷ ys) r mild g =
        let same = failed-send other t now (value b) r.out_ch g.0 (g.1 ∙ mild.0) in
        rw same (Accepts-nil n r.out_ch g.0 g.1, ground (arith, lenient))

    on_list-Does :
        (ys : List (Yield B × Sending)) (r : Root B)
        → ListMild n ys
        → IsGood n r.out_ch
        → Does n r.out_ch (list_landing ys) (has_end ys && all_land ys) (on_list cfg ys r)
    unfolding on_list
    on_list-Does ys r mild g =
        let same = out_ch-count (count_valid ys) r in
        let counted = count cfg (count_valid ys) r in
        subst
          (λ ch.
            Does n ch (list_landing ys) (has_end ys && all_land ys)
              (emit_list cfg (has_end ys) ys counted))
          same
          (emit_list-Does (has_end ys) ys counted mild (subst (λ ch. IsGood n ch) (sym same) g))

    drain_from-ending :
        (raised : Option Error) (items : List (Bool × Yield B × Sending)) (counted : List (Yield B))
        (ch : OutputChannel (Yield B)) (k : ℕ)
        → RaisesMildly raised
        → ItemsMild n items
        → IsGood n ch
        → Ends items raised (drain_from false raised items counted ch k)
    unfolding drain_from finish on_raise after_send IsGood
    drain_from-ending none [] counted ch k r mild g = (k, refl)
    drain_from-ending (some connection) [] counted ch k r mild g = absurd r
    drain_from-ending (some other) [] counted ch k r mild g = (k, refl)
    drain_from-ending raised ((true, none_value, s) ∷ items) counted ch k r mild g = (k, refl)
    drain_from-ending raised ((true, end_value, s) ∷ items) counted ch k r mild g = (k, refl)
    drain_from-ending raised ((true, value b, s) ∷ items) counted ch k r mild g = (k, refl)
    drain_from-ending raised ((false, none_value, s) ∷ items) counted ch k r mild g =
        drain_from-ending raised items counted ch k r mild.1 g
    drain_from-ending raised ((false, end_value, s) ∷ items) counted ch k r mild g =
        drain_from-ending raised items counted ch k r mild.1 g
    drain_from-ending raised ((false, value b, lands t now) ∷ items) counted ch k r mild g =
        let a = sent-Accepts t now (value b) ch g in
        subst
          (λ res. Ends items raised (
            after_send false res
              (λ out. drain_from false raised items (counted ++ value b ∷ []) out (k + 1))
              (counted ++ value b ∷ []) (k + 1)))
          (sym (landed-send t now (value b) ch))
          (drain_from-ending raised items (counted ++ value b ∷ []) (send (value b) t now ch)
            (k + 1) r mild.1 (a.valid, a.same_size))
    drain_from-ending raised ((false, value b, fails connection t now) ∷ items) counted ch k r mild
          g =
        absurd mild.0
    drain_from-ending raised ((false, value b, fails other t now) ∷ items) counted ch k r mild g =
        let same = failed-send other t now (value b) ch g.0 (g.1 ∙ mild.0) in
        subst
          (λ res. Ends items raised (
            after_send false res
              (λ out. drain_from false raised items (counted ++ value b ∷ []) out (k + 1))
              (counted ++ value b ∷ []) (k + 1)))
          (sym same)
          (drain_from-ending raised items (counted ++ value b ∷ []) ch (k + 1) r mild.1 g)

    after_drain-Does :
        (b : Bool) (m : ℕ) (r : Root B) (ch : OutputChannel (Yield B)) (ys : List (Yield B))
        → Accepts n ch ys r.out_ch
        → Does n ch ys (not b) (after_drain (returns b m) r)
    unfolding after_drain Does
    after_drain-Does true m r ch ys a = (a, refl)
    after_drain-Does false m r ch ys a = (a, refl)

    generator-Does :
        (raised : Option Error) (items : List (Bool × Yield B × Sending)) (r : Root B)
        → RaisesMildly raised
        → ItemsMild n items
        → IsGood n r.out_ch
        → Does n r.out_ch
            (landing items)
            (is_stopped items || not (has_raised raised))
            (on_generator cfg (drain_source_generator cfg.raise_errors raised items r.out_ch) r)
    unfolding on_generator
    generator-Does raised items r mild items_mild g =
        let b : Bool = not (is_stopped items) && has_raised raised in
        let d = drain_source_generator false raised items r.out_ch in
        let (m, e) : (m : ℕ) × (d.ending ≡ returns b m) =
          unfold drain_source_generator in
          drain_from-ending raised items [] r.out_ch 0 mild items_mild g in
        let (v, s) : IsValid r.out_ch × (r.out_ch.chunk_size ≡ n) = unfold IsGood in g in
        let (c, l, k) =
          drain_source_generator-Drains n false raised items r.out_ch items_mild v s b m e in
        let same : is_stopped items || not (has_raised raised) ≡ not b = ground arith in
        rw (lenient, same, e)
          (after_drain-Does b m (note_drained cfg d r) r.out_ch (landing items)
            (unfold note_drained in l))

    on_result-Does :
        (c : SourceCall B) (r : Root B)
        → CallMild n c
        → IsGood n r.out_ch
        → Does n r.out_ch (call_sends c) (call_ends c) (on_result cfg c r)
    unfolding on_result has_end
    on_result-Does nothing r mild g = Does-nil false r g
    on_result-Does (single none_value s) r mild g = Does-nil false r g
    on_result-Does (single end_value s) r mild g = Does-nil true r g
    on_result-Does (single (value b) s) r mild g = on_list-Does ((value b, s) ∷ []) r (mild, tt) g
    on_result-Does (listed ys) r mild g = on_list-Does ys r mild g
    on_result-Does (generator raised items) r mild g = generator-Does raised items r mild.0 mild.1 g
    on_result-Does (raises connection) r mild g = absurd mild
    on_result-Does (raises other) r mild g =
        failed-Does false other r r.out_ch refl (unfold IsGood in Accepts-nil n r.out_ch g.0 g.1)

    Accepts-flush_aged :
        (t : RootTick B) (r : Root B)
        → IsGood n r.out_ch
        → Accepts n r.out_ch [] (flush_aged t r).out_ch
    unfolding flush_aged IsGood
    Accepts-flush_aged t r (v, e) =
        let same : (maybe_flush t.now r.out_ch).chunk_size ≡ r.out_ch.chunk_size =
          unfold run apply in chunk_size-run (idles t.now ∷ []) r.out_ch in
        record {
          valid = maybe_flush-IsValid t.now r.out_ch v;
          same_size = same ∙ e;
          holds = accepted-maybe_flush t.now r.out_ch ∙ sym (append-nil (accepted r.out_ch));
        }

    goes_on :
        (ticks : List (RootTick B)) (ch : OutputChannel (Yield B)) (c : SourceCall B)
        (res : Root B × Verdict)
        → ((q : Root B)
            → IsGood n q.out_ch
            → Accepts n q.out_ch (promised cfg.drain ticks) (root_loop cfg ticks q).0.out_ch)
        → Does n ch (call_sends c) (call_ends c) res
        → Accepts n ch
            (call_sends c ++ (if call_ends c then [] else promised cfg.drain ticks))
            (go_on (root_loop cfg ticks) res).0.out_ch
    unfolding go_on Does
    goes_on ticks ch c (q, running) later (a, over) =
        let e : call_ends c ≡ false = ground arith in
        rw e (
          Accepts-append n ch q.out_ch (root_loop cfg ticks q).0.out_ch (call_sends c)
            (promised cfg.drain ticks) a (later q (unfold IsGood in (a.valid, a.same_size))))
    goes_on ticks ch c (q, ended) later (a, over) =
        let e : call_ends c ≡ true = ground arith in rw (e, append-nil) a
    goes_on ticks ch c (q, broken_connection) later (a, over) = absurd (ground arith)
    goes_on ticks ch c (q, left) later (a, over) = absurd (ground arith)
    goes_on ticks ch c (q, crashed) later (a, over) = absurd (ground arith)

    root_loop-Accepts :
        (ticks : List (RootTick B)) (r : Root B)
        → TicksMild n ticks
        → IsGood n r.out_ch
        → Accepts n r.out_ch (promised cfg.drain ticks) (root_loop cfg ticks r).0.out_ch
    unfolding root_loop root_iterate
    root_loop-Accepts [] r mild g = unfold IsGood in Accepts-nil n r.out_ch g.0 g.1
    root_loop-Accepts (t ∷ ticks) r mild g =
        let aged = Accepts-flush_aged t r g in
        let quiet : check_raises t r ≡ false = unfold check_raises in ground (arith, mild.0) in
        let more = root_loop cfg ticks in
        elim (Bool-cases t.should_stop) [
          | inl stop ↦ simp stop (unfold go_on IsGood in Accepts-nil n r.out_ch g.0 g.1)
          | inr runs ↦ elim (Bool-cases (not cfg.drain && t.drain_event)) [
            | inl drains ↦ simp (runs, quiet, drains) (unfold go_on in aged)
            | inr goes ↦
                (let rest =
                    goes_on ticks (flush_aged t r).out_ch t.result
                      (on_result cfg t.result (flush_aged t r))
                      (λ q. root_loop-Accepts ticks q mild.2)
                      (on_result-Does t.result (flush_aged t r) mild.1
                        (unfold IsGood in (aged.valid, aged.same_size))) in
                  simp (runs, quiet, goes)
                    (Accepts-append n r.out_ch (flush_aged t r).out_ch _ [] _ aged rest))
          ]
        ]

-- The loop of a root stage sends exactly what its calls promise, each payload once and in order, on
-- the queue or pending in the channel: a call that raises is made again, the first call that ends the
-- source, or a stop, is the last, and a send that fails loses its own item of a generator, but the
-- rest of a list. Connections hold, errors are not raised, no put of an age check raises, and a send
-- fails only on an edge without chunks, where it is the put of its own item.
pub root_loop-sent {ℓ} :
    {B : Type ℓ} (n : ℕ) (cfg : Config)
    → cfg.raise_errors ≡ false
    → (ticks : List (RootTick B)) (r : Root B) → TicksMild n ticks
    → IsValid r.out_ch
    → r.out_ch.chunk_size ≡ n
    → accepted (root_loop cfg ticks r).0.out_ch ≡ accepted r.out_ch ++ promised cfg.drain ticks
root_loop-sent n cfg lenient ticks r mild v e =
    (root_loop-Accepts n cfg lenient ticks r mild (unfold IsGood in (v, e))).holds
