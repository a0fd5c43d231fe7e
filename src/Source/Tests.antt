-- ===== src/Source/Tests.antt =====
-- Root sources at concrete inputs.
use gpupipe.Prelude.{ℕ, ◌≡◌, refl, Bool, true, false, some, List, [], ◌∷◌}
use gpupipe.Worker.{Yield, value, none_value, end_value, other, Config}
use gpupipe.Channel.Output.{init, send}
use gpupipe.Channel.Output.Bounds.{init-IsValid}
use gpupipe.Channel.Output.Order.{accepted}
use gpupipe.Source.{Sending, lands, fails, returns, emit_item, drain_source_generator}
use gpupipe.Source.Root.{RootTick, Root, nothing, listed, generator, has_end, root_loop}
use gpupipe.Source.Root.Sent.{root_loop-sent}

-- The second send fails, and the generator raises at the end.
abbrev rows : List (Bool × Yield ℕ × Sending)
rows =
    (false, value 1, lands 0 0)
    ∷ (false, value 2, fails other 0 0)
    ∷ (false, none_value, lands 0 0)
    ∷ (false, value 3, lands 0 0)
    ∷ []

raised_after_three :
    (drain_source_generator false (some other) rows (init 0 10)).ending ≡ returns true 3
unfolding drain_source_generator emit_item send init
raised_after_three = refl

-- In chunks of two the put of the second send takes the first payload with it.
loses_a_chunk :
    accepted (drain_source_generator false (some other) rows (init 2 10)).out ≡ value 3 ∷ []
unfolding drain_source_generator emit_item send init
loses_a_chunk = refl

-- A source that raises after two sends, then returns a list with an End.
abbrev calls : List (RootTick ℕ)
calls =
    record {
      should_stop = false;
      now = 0;
      age_fails = false;
      drain_event = true;
      result = generator (some other) rows;
    }
    ∷ record {
      should_stop = false;
      now = 0;
      age_fails = false;
      drain_event = true;
      result = nothing;
    }
    ∷ record {
      should_stop = false;
      now = 0;
      age_fails = false;
      drain_event = true;
      result = listed ((value 4, lands 0 0) ∷ (end_value, lands 0 0) ∷ (value 5, lands 0 0) ∷ []);
    }
    ∷ []

abbrev lenient_root : Config
lenient_root = record {
  batch_size = 0;
  drain = true;
  empty_threshold = 1;
  raise_errors = false;
  timing = true;
}

abbrev fresh_root : Root ℕ
fresh_root = record {
  out_ch = init 0 10;
  items_processed = 0;
  backoff = record { base = 1000; failures = 0 };
  delays = [];
}

root_loop-sent_example :
    accepted (root_loop lenient_root calls fresh_root).0.out_ch
    ≡ value 1 ∷ value 3 ∷ value 4 ∷ value 5 ∷ []
unfolding has_end init
root_loop-sent_example =
    root_loop-sent 0 lenient_root refl calls fresh_root
      (refl, (tt, (tt, (refl, (tt, (tt, tt))))), (refl, tt, (refl, (tt, (tt, (tt, tt))), tt)))
      (init-IsValid 0 10) refl
