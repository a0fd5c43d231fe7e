-- ===== src/Queue/Encode/Uses.antt =====
-- A run of puts and gets on one queue.
use gpupipe.Prelude.{
  ℕ, ◌≡◌, sym, ap, ◌∙◌, Bool, Option, none, some, List, [], ◌∷◌, ◌++◌, map, append-nil,
  append_assoc,
}
use gpupipe.Store.Payloads.{BlockStore}
use gpupipe.Queue.{ShmQueue}
use gpupipe.Queue.Encode.{Pickle, Message, put, get}
use gpupipe.Queue.Encode.Trips.{done, Holds, Places, put-Holds, get-Holds, get-empty}

-- One call of the queue: a put, with whether the system maps a segment that the store asks for then,
-- or a get.
pub data Use {ℓ} (O : Type ℓ) : Type ℓ where
  putting : Bool → O → Use O
  getting : Use O

-- What the callers see: the objects of the puts that landed, and what the gets returned.
pub record Seen {ℓ} (O : Type ℓ) (S : Type 0) : Type ℓ where
  pub landed : List O
  pub received : List (Option O)
  pub last : ShmQueue Message × S

-- A put that raises `Full` leaves the queue as it is.
after_put : {S : Type 0} → ShmQueue Message → Option (ShmQueue Message) × S → ShmQueue Message × S
after_put q (none, s) = (q, s)
after_put q (some q', s) = (q', s)

add_landed {ℓ} : {O : Type ℓ} → O → Option (ShmQueue Message) → List O → List O
add_landed o none os = os
add_landed o (some q) os = o ∷ os

after_get {ℓ} :
    {O : Type ℓ} {S : Type 0}
    → ShmQueue Message
    → Option (Option O × ShmQueue Message) × S
    → ShmQueue Message × S
after_get q (none, s) = (q, s)
after_get q (some (o, q'), s) = (q', s)

add_received {ℓ} :
    {O : Type ℓ} → Option (Option O × ShmQueue Message) → List (Option O) → List (Option O)
add_received none os = os
add_received (some (o, q)) os = o ∷ os

module _ {ℓ} {O : Type ℓ} (pickle : Pickle O) (blocks : BlockStore) (spill_at : ℕ)
    (has_store : Bool) where
  open blocks use {State, IsValid}

  unfoldable pub use_all : List (Use O) → ShmQueue Message × State → Seen O State
  unfolding after_put add_landed after_get add_received
  use_all [] w = record { landed = []; received = []; last = w }
  use_all (putting maps o ∷ us) w =
      let r = put pickle blocks spill_at has_store maps o w in
      let rest = use_all us (after_put w.0 r) in
      record rest { landed = add_landed o r.0 rest.landed }
  use_all (getting ∷ us) w =
      let r = get pickle blocks w in
      let rest = use_all us (after_get w.0 r) in
      record rest { received = add_received r.0 rest.received }

  -- The gets return, in order, what was in the queue and what landed, and the queue holds the rest.
  InOrder : List O → Seen O State → Type ℓ
  InOrder os r =
      (rest : List O) × Holds pickle blocks rest r.last
      × (r.received ++ map some rest ≡ map some (os ++ r.landed))

  landed-InOrder :
      (o : O) (os : List O) (q : ShmQueue Message) (us : List (Use O))
      (r : Option (ShmQueue Message) × State)
      → Places pickle blocks os o q r
      → ((qs : List O) (w : ShmQueue Message × State)
          → Holds pickle blocks qs w
          → InOrder qs (use_all us w))
      → let rest = use_all us (after_put q r) in
        InOrder os (record rest { landed = add_landed o r.0 rest.landed })
  unfolding Places after_put add_landed InOrder
  landed-InOrder o os q us (none, s) h step = step os (q, s) h
  landed-InOrder o os q us (some q', s) h step =
      let (rest, holds, e) = step (os ++ o ∷ []) (q', s) h in
      (rest, holds, e ∙ ap (map some) (append_assoc os (o ∷ []) _))

  use_all-InOrder :
      (us : List (Use O)) (os : List O) (w : ShmQueue Message × State)
      → Holds pickle blocks os w
      → InOrder os (use_all us w)
  unfolding use_all InOrder after_get add_received
  use_all-InOrder [] os w h = (os, h, ap (map some) (sym (append-nil os)))
  use_all-InOrder (putting maps o ∷ us) os (q, s) h =
      landed-InOrder o os q us (put pickle blocks spill_at has_store maps o (q, s))
        (put-Holds pickle blocks spill_at has_store maps o os q s h) (use_all-InOrder us)
  use_all-InOrder (getting ∷ us) [] (q, s) h =
      rw (get-empty pickle blocks q s h) (use_all-InOrder us [] (q, s) h)
  use_all-InOrder (getting ∷ us) (o ∷ os) (q, s) h =
      let (q', s', e, h') = get-Holds pickle blocks o os q s h in
      let (rest, holds, e') = use_all-InOrder us os (q', s') h' in
      rw e (rest, holds, ap (λ (l : List (Option O)). some o ∷ l) e')

  -- Whatever puts and gets are done on a queue that starts empty over a valid store, and whichever
  -- way each message travels, the gets return whole objects: those that landed, in their order, up to
  -- those the queue still holds.
  pub use_all-trips :
      (n : ℕ) (us : List (Use O)) (s : State)
      → IsValid s
      → let r = use_all us (record { maxsize = n; items = [] }, s) in
        (rest : List O) × Holds pickle blocks rest r.last
        × (r.received ++ map some rest ≡ map some r.landed)
  use_all-trips n us s v =
      unfold InOrder in
      use_all-InOrder us [] (record { maxsize = n; items = [] }, s) (v, ([], done))
