-- ===== src/Queue/Encode/Tests.antt =====
-- The queue of objects at concrete inputs: objects are lists of numbers.
use gpupipe.Prelude.{
  ℕ, ◌^◌, ◌≡◌, refl, ap, ◌≢◌, Bool, true, false, Option, none, some, List, [], ◌∷◌, ◌++◌, map,
  arith, ◌==◌,
}
use gpupipe.Store.{Handle, new_store, alloc, release, share}
use gpupipe.Store.Classes.{class_of}
use gpupipe.Store.Handles.{same_handle}
use gpupipe.Queue
use gpupipe.Store.Disjoint.{new_store-IsSound}
use gpupipe.Store.Payloads.{Shared, IsValid, shared_store, alloc_bytes, load_spilled}
use gpupipe.Queue.{ShmQueue}
use gpupipe.Queue.Encode.{Pickle, get, put, load}
use gpupipe.Queue.Encode.Trips.{Holds}
use gpupipe.Queue.Encode.Uses.{Use, putting, getting, use_all, use_all-trips}

loads : List ℕ → Option (List ℕ)
loads [] = none
loads (b ∷ bs) = some bs

flag : Bool → ℕ
flag true = 1
flag false = 0

flag_back : (b : Bool) → (flag b == 1) ≡ b
unfolding flag
flag_back true = refl
flag_back false = refl

loads_handle : List ℕ → Option Handle
loads_handle (d ∷ s ∷ o ∷ rest) = some (record { at_dedicated = d == 1; at_seg = s; at_off = o })
loads_handle other = none

proto : (o rest : List ℕ) → 128 ∷ o ≢ 0 ∷ rest
proto o rest e = ground arith

abbrev numbers : Pickle (List ℕ)
unfolding loads loads_handle
numbers = record {
  dumps = λ bytes. 128 ∷ bytes;
  loads = loads;
  dumps_handle = λ h. flag h.at_dedicated ∷ h.at_seg ∷ h.at_off ∷ [];
  loads_handle = loads_handle;
  loads-dumps = λ o. refl;
  loads-dumps_handle = λ h.
      ap (λ d. some (record { at_dedicated = d; at_seg = h.at_seg; at_off = h.at_off }))
        (flag_back h.at_dedicated);
  starts_with_proto = proto;
}

abbrev empty_store : Shared
empty_store = record { store = new_store (2 ^ 20) 1024; memory = [] }

empty_store-IsValid : IsValid empty_store
unfolding new_store
empty_store-IsValid = record { sound = new_store-IsSound (2 ^ 20) 1024; single = tt }

abbrev short : List ℕ
short = 7 ∷ []

abbrev long : List ℕ
long = 1 ∷ 2 ∷ 3 ∷ 4 ∷ []

-- The second object parks in the store, the third finds the queue full, and the fourth goes to disk.
abbrev uses : List (Use (List ℕ))
uses =
    putting true short
    ∷ putting true long
    ∷ putting true short
    ∷ getting
    ∷ getting
    ∷ putting false (2 ∷ long)
    ∷ getting
    ∷ getting
    ∷ []

received_in_order :
    (use_all numbers shared_store 3 true uses
      (record { maxsize = 2; items = [] }, empty_store)).received
    ≡ some short ∷ some long ∷ some (2 ∷ long) ∷ []
unfolding use_all get Queue.get put Queue.put load numbers alloc_bytes alloc new_store load_spilled
    same_handle release flag share class_of
received_in_order = refl

use_all-trips_example :
    let r =
      use_all numbers shared_store 3 true uses (record { maxsize = 2; items = [] }, empty_store) in
    (rest : List (List ℕ)) × Holds numbers shared_store rest r.last
    × (r.received ++ map some rest ≡ map some r.landed)
use_all-trips_example =
    use_all-trips numbers shared_store 3 true 2 uses empty_store empty_store-IsValid
