-- ===== src/Store/Tests.antt =====
-- The payload store at concrete inputs.
use gpupipe.Prelude.{ℕ, ◌^◌, ◌≤◌, ◌≡◌, refl, true, false, List, [], ◌∷◌, map}
use gpupipe.Store.{
  Block, Handle, Op, allocate, shared, released, new_store, alloc, perform_all, release, share,
}
use gpupipe.Store.Classes.{class_of}
use gpupipe.Store.Registered.{registered_segments, perform_all-registered}

abbrev first : Handle
first = record { at_dedicated = false; at_seg = 0; at_off = 0 }

abbrev place_and_length : Block → ℕ × ℕ
place_and_length b = (b.off, b.len)

-- Two blocks, of which the first is shared, let go twice, and reused.
abbrev ops : List Op
ops =
    allocate true 100
    ∷ allocate true 5000
    ∷ shared first
    ∷ released first
    ∷ released first
    ∷ allocate true 200
    ∷ []

reuses_freed :
    map place_and_length (perform_all ops (new_store (2 ^ 20) 1024)).live
    ≡ (0, 200) ∷ (4096, 5000) ∷ []
unfolding perform_all alloc new_store class_of release share
reuses_freed = refl

perform_all-registered_example :
    (perform_all ops (new_store (2 ^ 20) 1024)).nreg ≤ registered_segments (new_store (2 ^ 20) 1024)
perform_all-registered_example = perform_all-registered (2 ^ 20) 1024 ops
