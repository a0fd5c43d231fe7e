-- ===== src/Worker/Exit/Delivery.antt =====
-- The output queue of a worker that is about to count itself out, in `_worker_run`.
use gpupipe.Prelude.{
  none, refl, All, ℕ, ◌+◌, ◌≡◌, sym, ◌∙◌, List, [], ◌∷◌, ◌++◌, append-nil, append_assoc,
}
use gpupipe.Types.{Msg, payloads}
use gpupipe.Channel.Output.{OutputChannel, send}
use gpupipe.Channel.Output.Bounds.{IsValid, send-IsValid}
use gpupipe.Channel.Output.Order.{accepted, accepted-send, payloads-flush, pending-flush}
use gpupipe.Worker.{Yield, value, none_value, end_value, Config, Tick, Event, Outcome, ended}
use gpupipe.Worker.Loop.{run_loop, start}
use gpupipe.Worker.Loop.Owed.{outputs}
use gpupipe.Worker.Loop.Outputs.{run_loop-Tracks, PutsLand}
use gpupipe.Worker.Exit.{
  Hook, missing, raising, returning, emit_flushed, run_hook, shut_down, last_flush,
}

module _ {ℓ} {B : Type ℓ} where
  -- What the `flush()` hook owes: everything but None, an End too.
  abbrev pub not_none : List (Yield B) → List (Yield B)
  not_none [] = []
  not_none (none_value ∷ ys) = not_none ys
  not_none (value b ∷ ys) = value b ∷ not_none ys
  not_none (end_value ∷ ys) = end_value ∷ not_none ys

  abbrev pub hook_owes : Hook B → List (Yield B)
  hook_owes missing = []
  hook_owes raising = []
  hook_owes (returning ys) = not_none ys

  accepted-emit_flushed :
      (clock : ℕ → ℕ) (ys : List (Yield B)) (ch : OutputChannel (Yield B)) (k : ℕ)
      → IsValid ch
      → accepted (emit_flushed clock ys (ch, k)).0 ≡ accepted ch ++ not_none ys
  unfolding emit_flushed
  accepted-emit_flushed clock [] ch k v = sym (append-nil (accepted ch))
  accepted-emit_flushed clock (none_value ∷ ys) ch k v = accepted-emit_flushed clock ys ch k v
  accepted-emit_flushed clock (value b ∷ ys) ch k v =
      accepted-emit_flushed clock ys (send (value b) (clock k) (clock (k + 1)) ch) (k + 2)
        (send-IsValid (value b) (clock k) (clock (k + 1)) ch v)
      ∙ rw (accepted-send (value b) (clock k) (clock (k + 1)) ch v)
          (append_assoc (accepted ch) (value b ∷ []) (not_none ys))
  accepted-emit_flushed clock (end_value ∷ ys) ch k v =
      accepted-emit_flushed clock ys (send end_value (clock k) (clock (k + 1)) ch) (k + 2)
        (send-IsValid end_value (clock k) (clock (k + 1)) ch v)
      ∙ rw (accepted-send end_value (clock k) (clock (k + 1)) ch v)
          (append_assoc (accepted ch) (end_value ∷ []) (not_none ys))

  accepted-run_hook :
      (clock : ℕ → ℕ) (hook : Hook B) (ch : OutputChannel (Yield B)) (k : ℕ)
      → IsValid ch
      → accepted (run_hook clock none hook (ch, k)).0 ≡ accepted ch ++ hook_owes hook
  unfolding run_hook
  accepted-run_hook clock missing ch k v = sym (append-nil (accepted ch))
  accepted-run_hook clock raising ch k v = sym (append-nil (accepted ch))
  accepted-run_hook clock (returning ys) ch k v = accepted-emit_flushed clock ys ch k v

-- If no put raises, and no get while a batch fills, a worker that has run its loop and shut down
-- holds nothing back: its puts are all that its stage yielded, in order, and then what its `flush()`
-- returned, of which only None is dropped.
pub shut_down-delivers {ℓ} :
    {A B : Type ℓ} (cfg : Config) (clock : ℕ → ℕ) (call : List (Event A B) → List A → Outcome B)
    (ticks : List (Tick A B)) (q : List (Msg A)) (chunk_size chunk_ms : ℕ) (hook : Hook B)
    → All PutsLand ticks
    → let w = (run_loop cfg clock call ticks (start q chunk_size chunk_ms)).0 in
      let r = shut_down clock none none hook w in
      (r.1 ≡ ended)
      × (r.0.out_ch.pending ≡ [])
      × (payloads r.0.out_ch.queue ≡ outputs w.trace ++ hook_owes hook)
unfolding shut_down last_flush
shut_down-delivers cfg clock call ticks q chunk_size chunk_ms hook calm =
    let w = (run_loop cfg clock call ticks (start q chunk_size chunk_ms)).0 in
    let t = run_loop-Tracks cfg clock call ticks q chunk_size chunk_ms calm in
    (
      refl,
      pending-flush _,
      payloads-flush _ ∙ accepted-run_hook clock hook w.out_ch w.clock_reads t.valid ∙ rw t.exact,
    )
