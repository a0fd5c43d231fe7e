-- ===== src/Queue/Encode/Trips.antt =====
-- What a `ShmQueue` returns is what was put on it, whichever way each message travels.
use gpupipe.Prelude.{
  ℕ, zero, suc, ◌≡◌, refl, sym, ap, ◌∙◌, subst, ◌≢◌, inl, inr, Bool, true, false, ◌&&◌, Option,
  none, some, List, [], ◌∷◌, ◌++◌, arith, ltb, ◌==◌, if_rule, length, All,
}
use gpupipe.Store.{Handle}
use gpupipe.Store.Payloads.{BlockStore}
use gpupipe.Queue.{ShmQueue}
use gpupipe.Queue.Bounded.{put-cases}
use gpupipe.Queue
use gpupipe.Queue.Encode.{Pickle, Message, spill, encode, load_block, load, put, load_front, get}

abbrev pub Others : Handle → List Handle → Type 0
Others h hs = All (λ k. k ≢ h) hs

Others-append : (h k : Handle) (hs : List Handle) → k ≢ h → Others h hs → Others h (hs ++ k ∷ [])
Others-append h k [] other all = (other, tt)
Others-append h k (j ∷ hs) other all = (all.0, Others-append h k hs other all.1)

module _ {ℓ} {O : Type ℓ} (pickle : Pickle O) (blocks : BlockStore) where
  open pickle use {dumps, loads, dumps_handle, loads_handle}
  open blocks use {State, IsValid, content, alloc_bytes, load_spilled}

  -- The messages, the handles of those that travel by the store, and the objects they stand for.
  pub data Carries (s : State) : List Message → List Handle → List O → Type ℓ where
    done : Carries s [] [] []
    direct :
        {o : O} {disk : Bool} {ms : List Message} {hs : List Handle} {os : List O}
        → Carries s ms hs os
        → Carries s ((dumps o, disk) ∷ ms) hs (o ∷ os)
    parked :
        {o : O} {h : Handle} {ms : List Message} {hs : List Handle} {os : List O}
        → content h s ≡ some (dumps o)
        → Others h hs
        → Carries s ms hs os
        → Carries s ((0 ∷ dumps_handle h, false) ∷ ms) (h ∷ hs) (o ∷ os)

  Carries-move :
      {s s' : State} {ms : List Message} {hs : List Handle} {os : List O} (h : Handle)
      → ((k : Handle) → k ≢ h → content k s' ≡ content k s)
      → Others h hs
      → Carries s ms hs os
      → Carries s' ms hs os
  Carries-move h same others done = done
  Carries-move h same others (direct c) = direct (Carries-move h same others c)
  Carries-move h same others (parked holds apart c) =
      parked (same _ others.0 ∙ holds) apart (Carries-move h same others.1 c)

  Carries-same :
      {s s' : State} {ms : List Message} {hs : List Handle} {os : List O}
      → ((k : Handle) → content k s' ≡ content k s)
      → Carries s ms hs os
      → Carries s' ms hs os
  Carries-same same done = done
  Carries-same same (direct c) = direct (Carries-same same c)
  Carries-same same (parked holds apart c) = parked (same _ ∙ holds) apart (Carries-same same c)

  -- A handle without content is none of those in use.
  Carries-Others :
      {s : State} {ms : List Message} {hs : List Handle} {os : List O} (h : Handle)
      → content h s ≡ none
      → Carries s ms hs os
      → Others h hs
  Carries-Others h free done = tt
  Carries-Others h free (direct c) = Carries-Others h free c
  Carries-Others {s} h free (parked {h = k} holds apart c) =
      (λ e. absurd (let none_there : content k s ≡ none = rw e free in cc), Carries-Others h free c)

  append_direct :
      {s : State} {ms : List Message} {hs : List Handle} {os : List O} (o : O) (disk : Bool)
      → Carries s ms hs os
      → Carries s (ms ++ (dumps o, disk) ∷ []) hs (os ++ o ∷ [])
  append_direct o disk done = direct done
  append_direct o disk (direct c) = direct (append_direct o disk c)
  append_direct o disk (parked holds apart c) = parked holds apart (append_direct o disk c)

  append_parked :
      {s : State} {ms : List Message} {hs : List Handle} {os : List O} (o : O) (h : Handle)
      → content h s ≡ some (dumps o)
      → Others h hs
      → Carries s ms hs os
      → Carries s (ms ++ (0 ∷ dumps_handle h, false) ∷ []) (hs ++ h ∷ []) (os ++ o ∷ [])
  append_parked o h holds others done = parked holds tt done
  append_parked o h holds others (direct c) = direct (append_parked o h holds others c)
  append_parked o h holds others (parked {h = k} held apart c) =
      parked held (Others-append k h _ (λ e. others.0 (sym e)) apart)
        (append_parked o h holds others.1 c)

  -- The queue holds the objects `os`, some of them in the store.
  abbrev pub Holds : List O → ShmQueue Message × State → Type ℓ
  Holds os (q, s) = IsValid s × ((hs : List Handle) × Carries s q.items hs os)

  -- A put either leaves the queue as it was, or puts its object behind the others.
  unfoldable pub Places : List O → O → ShmQueue Message → Option (ShmQueue Message) × State → Type ℓ
  Places os o q (none, s') = Holds os (q, s')
  Places os o q (some q', s') = Holds (os ++ o ∷ []) (q', s')

  module _ (spill_at : ℕ) (has_store : Bool) where
    -- What encoding an object makes of the messages under way: they stand for the same objects, and
    -- with its message behind them for one object more.
    abbrev Extends : State → List Message → List O → O → Message × State → Type ℓ
    Extends s ms os o (m, s') =
        IsValid s'
        × ((hs : List Handle) × Carries s' ms hs os)
        × ((hs : List Handle) × Carries s' (ms ++ m ∷ []) hs (os ++ o ∷ []))

    spill-Extends :
        (maps : Bool) (o : O) (s : State) (ms : List Message) (hs : List Handle) (os : List O)
        (r : Option Handle × State)
        → alloc_bytes maps (dumps o) s ≡ r
        → IsValid s
        → Carries s ms hs os
        → Extends s ms os o (spill pickle blocks (dumps o) r)
    unfolding spill
    spill-Extends maps o s ms hs os (none, s') e v c =
        let (v', same) =
          subst (λ r. IsValid r.1 × ((k : Handle) → content k r.1 ≡ content k s)) e
            (blocks.alloc_full maps (dumps o) s v (ap (λ r. r.0) e)) in
        let c' = Carries-same same c in (v', (hs, c'), (hs, append_direct o true c'))
    spill-Extends maps o s ms hs os (some h, s') e v c =
        let (v', free, holds, same) =
          subst
            (λ r.
              IsValid r.1
              × (content h s ≡ none)
              × (content h r.1 ≡ some (dumps o))
              × ((k : Handle) → k ≢ h → content k r.1 ≡ content k s))
            e (blocks.alloc_fresh maps (dumps o) s h v (ap (λ r. r.0) e)) in
        let others = Carries-Others h free c in
        let c' = Carries-move h same others c in
        (v', (hs, c'), (hs ++ h ∷ [], append_parked o h holds others c'))

    encode-Extends :
        (maps : Bool) (o : O) (s : State) (ms : List Message) (hs : List Handle) (os : List O)
        → IsValid s
        → Carries s ms hs os
        → Extends s ms os o (encode pickle blocks spill_at has_store maps o s)
    unfolding encode
    encode-Extends maps o s ms hs os v c =
        if_rule (Extends s ms os o) (ltb spill_at (length (dumps o)) && has_store) _ _
          (λ _. spill-Extends maps o s ms hs os (alloc_bytes maps (dumps o) s) refl v c)
          (λ _. (v, (hs, c), (hs, append_direct o false c)))

    pub put-Holds :
        (maps : Bool) (o : O) (os : List O) (q : ShmQueue Message) (s : State)
        → Holds os (q, s)
        → Places os o q (put pickle blocks spill_at has_store maps o (q, s))
    unfolding put Places
    put-Holds maps o os q s (v, (hs, c)) =
        let (v', kept, more) = encode-Extends maps o s q.items hs os v c in
        let (m, s') = encode pickle blocks spill_at has_store maps o s in
        elim (put-cases m q) [ inl (full, _, _) ↦ rw full (v', kept) | inr e ↦ rw e (v', more) ]

  load-direct : (o : O) (s : State) → load pickle blocks (dumps o) s ≡ (some o, s)
  unfolding load
  load-direct o s = by_bytes (dumps o) refl
    where
      by_bytes : (bytes : List ℕ) → dumps o ≡ bytes → load pickle blocks bytes s ≡ (some o, s)
      by_bytes [] e = ap (λ r. (r, s)) (subst (λ b. loads b ≡ some o) e (pickle.loads-dumps o))
      by_bytes (zero ∷ bs) e = absurd (pickle.starts_with_proto o bs e)
      by_bytes (suc b ∷ bs) e =
          let e0 : suc b == 0 ≡ false = ground arith in
          rw e0 (ap (λ r. (r, s)) (subst (λ x. loads x ≡ some o) e (pickle.loads-dumps o)))

  load-parked :
      (h : Handle) (s : State)
      → load pickle blocks (0 ∷ dumps_handle h) s
        ≡ (loads (load_spilled h s).0, (load_spilled h s).1)
  unfolding load load_block
  load-parked h s = rw (pickle.loads-dumps_handle h)

  front-Holds :
      (n : ℕ) (o : O) (os : List O) (ms : List Message) (hs : List Handle) (s : State)
      → IsValid s
      → Carries s ms hs (o ∷ os)
      → (q' : ShmQueue Message) × (s' : State) × (get pickle blocks
            (record { maxsize = n; items = ms }, s)
          ≡ (some (some o, q'), s'))
        × Holds os (q', s')
  unfolding get load_front Queue.get
  front-Holds n o os _ hs s v (direct {disk = disk} {ms = ms} c) =
      (record { maxsize = n; items = ms }, s, rw (load-direct o s), (v, (hs, c)))
  front-Holds n o os _ _ s v (parked {h = h} {ms = ms} {hs = hs} holds apart c) =
      let (v', same, gone, others) = blocks.load_frees h (dumps o) s v holds in
      (
        record { maxsize = n; items = ms },
        (load_spilled h s).1,
        rw (load-parked h s, same, pickle.loads-dumps o),
        (v', (hs, Carries-move h others apart c)),
      )

  -- A get returns the object that is in front, or finds the queue empty.
  pub get-Holds :
      (o : O) (os : List O) (q : ShmQueue Message) (s : State)
      → Holds (o ∷ os) (q, s)
      → (q' : ShmQueue Message) × (s' : State) × (get pickle blocks (q, s)
          ≡ (some (some o, q'), s'))
        × Holds os (q', s')
  get-Holds o os q s (v, (hs, c)) = front-Holds q.maxsize o os q.items hs s v c

  empty-Holds :
      (n : ℕ) (ms : List Message) (hs : List Handle) (s : State)
      → Carries s ms hs []
      → get pickle blocks (record { maxsize = n; items = ms }, s) ≡ (none, s)
  unfolding get load_front Queue.get
  empty-Holds n _ _ s done = refl

  pub get-empty :
      (q : ShmQueue Message) (s : State) → Holds [] (q, s) → get pickle blocks (q, s) ≡ (none, s)
  get-empty q s (v, (hs, c)) = empty-Holds q.maxsize q.items hs s c
