-- ===== src/Source/Drain.antt =====
-- The items of `_drain_source_generator`.
use gpupipe.Prelude.{
  ℕ, ◌+◌, ◌≡◌, refl, sym, ◌∙◌, Bool, true, false, Option, none, some, List, [], ◌∷◌, ◌++◌,
  append-nil, append_assoc, arith, length, inl, inr, Bool-cases, length-nil,
}
use gpupipe.Worker.{Yield, value, none_value, end_value, Error, connection, other}
use gpupipe.Source.{
  Sending, lands, fails, returns, Drained, on_raise, finish, after_send, drain_from,
  drain_source_generator, emit_item,
}
use gpupipe.Channel.Output.{OutputChannel, sends, apply, run, send, blocking_put}
use gpupipe.Channel.Output.Bounds.{IsValid, send-IsValid, chunk_size-run}
use gpupipe.Channel.Output.Order.{accepted, accepted-send}

on_raise-sent :
    (raise_errors : Bool) (raised : Option Error) (sent : ℕ) (r : Bool) (n : ℕ)
    → on_raise raise_errors raised sent ≡ returns r n
    → n ≡ sent
unfolding on_raise
on_raise-sent raise_errors none sent r n e = cc
on_raise-sent raise_errors (some connection) sent r n e = cc
on_raise-sent true (some other) sent r n e = cc
on_raise-sent false (some other) sent r n e = cc

-- A send that breaks no connection, on an edge with this chunk size: one that fails is a put of its
-- own item.
abbrev pub SendsMildly : ℕ → Sending → Type 0
SendsMildly n (lands t now) = Unit
SendsMildly n (fails connection t now) = ⊥
SendsMildly n (fails other t now) = n ≡ 0

abbrev pub error_of : Sending → Option Error
error_of (lands t now) = none
error_of (fails e t now) = some e

module _ {ℓ} {B : Type ℓ} where
  abbrev pub ItemsMild : ℕ → List (Bool × Yield B × Sending) → Type 0
  ItemsMild n [] = Unit
  ItemsMild n ((stop, y, s) ∷ items) = SendsMildly n s × ItemsMild n items

  abbrev pub landed : Sending → Yield B → List (Yield B)
  landed (lands t now) y = y ∷ []
  landed (fails e t now) y = []

  -- The payloads that the loop reaches before a stop, and those whose send lands.
  abbrev pub payloads_reached : List (Bool × Yield B × Sending) → List (Yield B)
  payloads_reached [] = []
  payloads_reached ((true, y, sending) ∷ items) = []
  payloads_reached ((false, none_value, sending) ∷ items) = payloads_reached items
  payloads_reached ((false, end_value, sending) ∷ items) = payloads_reached items
  payloads_reached ((false, value b, sending) ∷ items) = value b ∷ payloads_reached items

  abbrev pub landing : List (Bool × Yield B × Sending) → List (Yield B)
  landing [] = []
  landing ((true, y, sending) ∷ items) = []
  landing ((false, none_value, sending) ∷ items) = landing items
  landing ((false, end_value, sending) ∷ items) = landing items
  landing ((false, value b, sending) ∷ items) = landed sending (value b) ++ landing items

  -- From `ch` the payloads `ys` have been accepted, and no other, on an edge with chunk size `n`.
  pub record Accepts (n : ℕ) (ch : OutputChannel (Yield B)) (ys : List (Yield B))
      (ch' : OutputChannel (Yield B)) : Type ℓ where
    pub valid : IsValid ch'
    pub same_size : ch'.chunk_size ≡ n
    pub holds : accepted ch' ≡ accepted ch ++ ys

  pub Accepts-nil :
      (n : ℕ) (ch : OutputChannel (Yield B)) → IsValid ch → ch.chunk_size ≡ n → Accepts n ch [] ch
  Accepts-nil n ch v e = record { valid = v; same_size = e; holds = sym (append-nil (accepted ch)) }

  pub Accepts-append :
      (n : ℕ) (ch ch' ch'' : OutputChannel (Yield B)) (ys zs : List (Yield B))
      → Accepts n ch ys ch'
      → Accepts n ch' zs ch''
      → Accepts n ch (ys ++ zs) ch''
  Accepts-append n ch ch' ch'' ys zs a b = record {
    valid = b.valid;
    same_size = b.same_size;
    holds = b.holds ∙ rw a.holds (append_assoc (accepted ch) ys zs);
  }

  pub chunk_size-send :
      (y : Yield B) (t now : ℕ) (ch : OutputChannel (Yield B))
      → (send y t now ch).chunk_size ≡ ch.chunk_size
  chunk_size-send y t now ch = unfold run apply in chunk_size-run (sends y t now ∷ []) ch

  emptied-IsValid :
      (ch : OutputChannel (Yield B)) → IsValid ch → ch.chunk_size ≡ 0 → ch.pending ≡ []
  emptied-IsValid ch v e = length-nil ch.pending (omega (arith, v.below))

  pub landed-send :
      (t now : ℕ) (y : Yield B) (ch : OutputChannel (Yield B))
      → emit_item (lands t now) y ch ≡ (send y t now ch, none)
  unfolding emit_item
  landed-send t now y ch = refl

  -- On an edge without chunks a put that raises leaves the channel as it was.
  pub failed-send :
      (e : Error) (t now : ℕ) (y : Yield B) (ch : OutputChannel (Yield B))
      → IsValid ch
      → ch.chunk_size ≡ 0
      → emit_item (fails e t now) y ch ≡ (ch, some e)
  unfolding emit_item send blocking_put
  failed-send e t now y ch v zero_size =
      let nothing : ch.pending ≡ [] = emptied-IsValid ch v zero_size in
      ground (arith, zero_size, nothing)

  -- What a mild send does.
  pub emit_item-Accepts :
      (n : ℕ) (s : Sending) (y : Yield B) (ch : OutputChannel (Yield B))
      → IsValid ch
      → ch.chunk_size ≡ n
      → SendsMildly n s
      → Accepts n ch (landed s y) (emit_item s y ch).0 × ((emit_item s y ch).1 ≡ error_of s)
  emit_item-Accepts n (lands t now) y ch v e mild =
      unfold emit_item in
      (
        record {
          valid = send-IsValid y t now ch v;
          same_size = chunk_size-send y t now ch ∙ e;
          holds = accepted-send y t now ch v;
        },
        refl,
      )
  emit_item-Accepts n (fails connection t now) y ch v e mild = absurd mild
  emit_item-Accepts n (fails other t now) y ch v e mild =
      rw (failed-send other t now y ch v (e ∙ mild)) (Accepts-nil n ch v e, refl)

  -- A loop that was to reach the payloads of `items` has counted them and sent those whose send
  -- lands, if it returned.
  abbrev pub Drains :
      ℕ
      → List (Yield B)
      → OutputChannel (Yield B)
      → ℕ
      → List (Bool × Yield B × Sending)
      → Drained B
      → Type ℓ
  Drains size counted ch sent items r =
      (raised : Bool) (n : ℕ)
      → r.ending ≡ returns raised n
      → (r.counted ≡ counted ++ payloads_reached items)
        × Accepts size ch (landing items) r.out
        × (n ≡ sent + length (payloads_reached items))

  module _ (size : ℕ) (raise_errors : Bool) where
    after_send-Drains :
        (b : B) (s : Sending) (items : List (Bool × Yield B × Sending))
        (res : OutputChannel (Yield B) × Option Error) (more : OutputChannel (Yield B) → Drained B)
        (counted : List (Yield B)) (ch : OutputChannel (Yield B)) (sent : ℕ)
        → Accepts size ch (landed s (value b)) res.0
        → ((out : OutputChannel (Yield B))
            → IsValid out
            → out.chunk_size ≡ size
            → Drains size (counted ++ value b ∷ []) out (sent + 1) items (more out))
        → Drains size counted ch sent
            ((false, value b, s) ∷ items)
            (after_send raise_errors res more (counted ++ value b ∷ []) (sent + 1))
    unfolding after_send finish
    after_send-Drains b s items (out, some connection) more counted ch sent a later r n e = cc
    after_send-Drains b s items (out, none) more counted ch sent a later r n e =
        let (c, l, k) = later out a.valid a.same_size r n e in
        (
          c ∙ append_assoc counted (value b ∷ []) (payloads_reached items),
          Accepts-append size ch out (more out).out (landed s (value b)) (landing items) a l,
          omega arith,
        )
    after_send-Drains b s items (out, some other) more counted ch sent a later r n e =
        elim (Bool-cases raise_errors) [
          | inl strict ↦ absurd (ground arith)
          | inr lenient ↦
              (let (c, l, k) = later out a.valid a.same_size r n (ground arith) in
                rw lenient (
                  c ∙ append_assoc counted (value b ∷ []) (payloads_reached items),
                  Accepts-append size ch out (more out).out (landed s (value b)) (landing items) a
                      l,
                  omega arith,
                ))
        ]

    drain_from-Drains :
        (raised : Option Error) (items : List (Bool × Yield B × Sending)) (counted : List (Yield B))
        (ch : OutputChannel (Yield B)) (sent : ℕ)
        → ItemsMild size items
        → IsValid ch
        → ch.chunk_size ≡ size
        → Drains size counted ch sent items (drain_from raise_errors raised items counted ch sent)
    unfolding drain_from finish
    drain_from-Drains raised [] counted ch sent mild v s r n e = (
      sym (append-nil counted),
      Accepts-nil size ch v s,
      omega (arith, on_raise-sent raise_errors raised sent r n e),
    )
    drain_from-Drains raised ((true, none_value, sending) ∷ items) counted ch sent mild v s r n e =
        (sym (append-nil counted), Accepts-nil size ch v s, ground arith)
    drain_from-Drains raised ((true, end_value, sending) ∷ items) counted ch sent mild v s r n e =
        (sym (append-nil counted), Accepts-nil size ch v s, ground arith)
    drain_from-Drains raised ((true, value b, sending) ∷ items) counted ch sent mild v s r n e =
        (sym (append-nil counted), Accepts-nil size ch v s, ground arith)
    drain_from-Drains raised ((false, none_value, sending) ∷ items) counted ch sent mild v s r n e =
        drain_from-Drains raised items counted ch sent mild.1 v s r n e
    drain_from-Drains raised ((false, end_value, sending) ∷ items) counted ch sent mild v s r n e =
        drain_from-Drains raised items counted ch sent mild.1 v s r n e
    drain_from-Drains raised ((false, value b, sending) ∷ items) counted ch sent mild v s r n e =
        after_send-Drains b sending items (emit_item sending (value b) ch)
          (λ out. drain_from raise_errors raised items (counted ++ value b ∷ []) out (sent + 1))
          counted ch sent (emit_item-Accepts size sending (value b) ch v s mild.0).0
          (λ out v' s'.
            drain_from-Drains raised items (counted ++ value b ∷ []) out (sent + 1) mild.1 v' s')
          r n e

    -- If the loop over a source's generator returns, and no send breaks a connection or fails for a
    -- chunk, then it has counted every payload that it reached before a stop, each once and in order;
    -- those whose send landed are accepted by the channel, in order; and `sent` is the number counted.
    pub drain_source_generator-Drains :
        (raised : Option Error) (items : List (Bool × Yield B × Sending))
        (ch : OutputChannel (Yield B))
        → ItemsMild size items
        → IsValid ch
        → ch.chunk_size ≡ size
        → Drains size [] ch 0 items (drain_source_generator raise_errors raised items ch)
    unfolding drain_source_generator
    drain_source_generator-Drains raised items ch = drain_from-Drains raised items [] ch 0
