-- ===== src/Helpers/Tests.antt =====
-- The helpers of src/pipe/utils.py at concrete inputs.
use gpupipe.Prelude.{
  ℕ, suc, ◌+◌, ◌≤◌, ◌<◌, ◌≡◌, refl, true, none, some, List, [], ◌∷◌, ◌++◌, map, arith,
  if◌then◌else◌, length, is_empty, All, sum, mass,
}
use gpupipe.Helpers.{
  collated, wrap, spread, batcher_call, batcher_calls, batcher_flush, shuffle_all, retrieve_all,
  Done, pulled, processed, single, several, run_async, new_pool, is_over, arm, on_all_done,
}
use gpupipe.Helpers.Groups.{concat, batcher_calls-groups}
use gpupipe.Helpers.Rows.{table, ordered_reader, retrieve_all-loses}
use gpupipe.Helpers.Pool.{
  WaitsHonest, pulled_nothing, finished_items, finished_results, run_async-keeps, run_async-ended,
}

abbrev five : List ℕ
five = 1 ∷ 2 ∷ 3 ∷ 4 ∷ 5 ∷ []

sums_pairs :
    (batcher_calls (some sum) five (record { size = 2; buffer = [] })).0
    ≡ collated 3 ∷ collated 7 ∷ []
unfolding batcher_calls batcher_call
sums_pairs = refl

batcher_calls-groups_example :
    let r = batcher_calls (some sum) five (record { size = 2; buffer = [] }) in
    (groups : List (List ℕ)) × (rest : List ℕ) × (concat groups ++ rest ≡ five)
    × (r.0 ≡ map (wrap (some sum)) groups)
    × All (λ (g : List ℕ). length g ≡ 2) groups
    × (length rest < 2)
    × ((batcher_flush (some sum) r.1).0 ≡ (if is_empty rest then [] else spread (some sum) rest))
batcher_calls-groups_example = batcher_calls-groups (some sum) 2 five (omega arith)

abbrev no_random : ℕ → ℕ → List ℕ
no_random limit off = []

-- A table of five rows is read up to its fourth.
reads_four :
    retrieve_all 5 (table no_random five) (ordered_reader 2 5 0) ≡ some (1 ∷ 2 ∷ 3 ∷ 4 ∷ [])
unfolding retrieve_all
reads_four = refl

retrieve_all-loses_example :
    (got : List ℕ) × (lost : List ℕ) × (retrieve_all
        (length five)
        (table no_random five)
        (ordered_reader 2 (length five) 0)
      ≡ some got)
    × (got ++ lost ≡ five)
    × (0 < length lost)
    × (length lost ≤ 2)
retrieve_all-loses_example = retrieve_all-loses no_random five 2 (omega arith) (omega arith)

abbrev swap_front : List ℕ → List ℕ
swap_front [] = []
swap_front (x ∷ []) = x ∷ []
swap_front (x ∷ y ∷ xs) = y ∷ x ∷ xs

-- The first lot goes out at five items, the next at three.
sends_shuffled :
    shuffle_all swap_front
      (five ++ five)
      (record { size = 2; batch_size = 4; first = true; buffer = [] })
    ≡ 2 ∷ 1 ∷ 3 ∷ 4 ∷ 5 ∷ 2 ∷ 1 ∷ 3 ∷ 5 ∷ 4 ∷ []
unfolding shuffle_all
sends_shuffled = refl

-- The second item is done first; then upstream ends, and the first comes to a list with a None.
abbrev waits : List (List (Done ℕ ℕ))
waits =
    (pulled (1 ∷ 2 ∷ []) ∷ [])
    ∷ (processed 1 (single 20) ∷ [])
    ∷ (pulled [] ∷ [])
    ∷ (processed 0 (several (some 10 ∷ none ∷ [])) ∷ [])
    ∷ []

emits_both : (run_async waits (new_pool 2)).emitted ≡ 20 ∷ 10 ∷ []
unfolding run_async new_pool
emits_both = refl

waits-WaitsHonest : WaitsHonest waits (new_pool 2)
unfolding arm on_all_done new_pool
waits-WaitsHonest = ((omega arith, tt), ((tt, tt), ((omega arith, tt), ((tt, tt), tt))))

run_async-keeps_example :
    let p = run_async waits (new_pool 2) in
    (length p.in_flight ≤ 2)
    × (mass suc p.in_flight + mass suc (finished_items p.finished) ≡ mass suc p.given)
    × (p.emitted ≡ finished_results p.finished)
run_async-keeps_example = run_async-keeps suc 2 waits waits-WaitsHonest

waits_end : is_over (run_async waits (new_pool 2)) ≡ true
unfolding run_async new_pool is_over
waits_end = refl

run_async-ended_example :
    let p = run_async waits (new_pool 2) in
    (pulled_nothing waits ≡ true)
    × (p.in_flight ≡ [])
    × (mass suc (finished_items p.finished) ≡ mass suc p.given)
run_async-ended_example = run_async-ended suc 2 waits (omega arith) waits-WaitsHonest waits_end
