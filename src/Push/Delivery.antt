-- ===== src/Push/Delivery.antt =====
-- What `push` of src/pipe/workers.py does to the queues.
use gpupipe.Prelude.{
  String, ℕ, ◌+◌, ◌-◌, ◌≤◌, ◌≡◌, refl, ap, subst, ◌∙◌, ◌≢◌, ◌⊎◌, inl, inr, Bool, true, false,
  Option, none, some, List, [], ◌∷◌, ◌++◌, append-nil, arith, Bool-cases, Option-cases, length,
  get_elem?, set, drop, drop-drop,
}
use gpupipe.Queue.{ShmQueue}
use gpupipe.Queue.Bounded.{put-cases}
use gpupipe.Queue.Retry.{consume}
use gpupipe.Push.{
  StageRef, PushError, Result, ok, raised, target_index, Round, push_loop, push, push_at, attempt,
  put_once, store, plus, expired,
}

Result-cases {ℓ} :
    {B : Type ℓ} (r : Result B) → ((b : B) × (r ≡ ok b)) ⊎ ((x : PushError) × (r ≡ raised x))
Result-cases (ok b) = inl (b, refl)
Result-cases (raised x) = inr (x, refl)

-- How many messages the consumers take in these rounds.
abbrev pub taken_in : List Round → ℕ
taken_in [] = 0
taken_in (r ∷ rounds) = r.taken + taken_in rounds

module _ {ℓ} {A : Type ℓ} where
  abbrev pub landed : Bool → A → List A
  landed true a = a ∷ []
  landed false a = []

  -- The queue after the first `rounds` made, of all that the environment offers.
  abbrev pub Leaves : List Round → ShmQueue A → Bool → A → ShmQueue A → Type ℓ
  Leaves rounds q done a q' =
      (made : List Round) × (rest : List Round) × (rounds ≡ made ++ rest)
      × (q'.items ≡ drop (taken_in made) q.items ++ landed done a)

  items-push_loop :
      (a : A) (deadline : Option ℕ) (rounds : List Round) (q : ShmQueue A) (done : Bool)
      (q' : ShmQueue A)
      → push_loop a deadline rounds q ≡ some (done, q')
      → Leaves rounds q done a q'
  unfolding push_loop
  items-push_loop a deadline [] q done q' h = cc
  items-push_loop a deadline (r ∷ rounds) q done q' h = elim (Bool-cases r.stop) [
    | inl stopped ↦ ([], r ∷ rounds, refl, ground (arith, append-nil q.items))
    | inr running ↦ elim (put-cases a (consume r.taken q)) [
      | inr sent ↦ (r ∷ [], rounds, refl, ground arith)
      | inl (full, _, _) ↦ elim (Bool-cases (expired deadline r.now)) [
        | inl late ↦ (r ∷ [], rounds, refl, ground (arith, append-nil (drop r.taken q.items)))
        | inr early ↦
            (let (made, rest, split, e) =
                items-push_loop a deadline rounds (consume r.taken q) done q' (ground arith) in
              (r ∷ made, rest, ap (λ rs. r ∷ rs) split, e ∙ rw drop-drop))
      ]
    ]
  ]

  -- A push with a deadline does not block for ever: it returns if its rounds reach the deadline.
  pub push_loop-returns :
      (a : A) (deadline : ℕ) (early : List Round) (r : Round) (late : List Round) (q : ShmQueue A)
      → deadline ≤ r.now
      → push_loop a (some deadline) (early ++ r ∷ late) q ≢ none
  unfolding push_loop expired
  push_loop-returns a deadline [] r late q h = λ e. ground (arith, put-cases a (consume r.taken q))
  push_loop-returns a deadline (x ∷ early) r late q h = λ e. ground (
    arith,
    put-cases a (consume x.taken q),
    push_loop-returns a deadline early r late (consume x.taken q) h,
  )

  items-attempt :
      (a : A) (block : Bool) (timeout : Option ℕ) (start : ℕ) (rounds : List Round) (q : ShmQueue A)
      (done : Bool) (q' : ShmQueue A)
      → attempt a block timeout start rounds q ≡ some (done, q')
      → Leaves rounds q done a q'
  unfolding attempt
  items-attempt a true timeout start rounds q done q' h =
      items-push_loop a (plus timeout start) rounds q done q' h
  items-attempt a false timeout start rounds q done q' h = elim (put-cases a q) [
    | inl (e, _, _) ↦ ([], rounds, refl, unfold put_once in ground (arith, append-nil q.items))
    | inr e ↦ ([], rounds, refl, unfold put_once in ground arith)
  ]

  -- A push that returns has found the queue before its stage, and changed no other. If it returns
  -- True the item stands once at the end of that queue, behind what its consumers left of it in the
  -- rounds made, a first part of all; if it returns False the queue is what they left.
  pub push-lands :
      (queues : List (ShmQueue A)) (names : List String) (stage : StageRef) (a : A) (block : Bool)
      (timeout : Option ℕ) (start : ℕ) (rounds : List Round) (done : Bool)
      (queues' : List (ShmQueue A))
      → push queues names stage (some a) block timeout start rounds ≡ ok (some (done, queues'))
      → (i : ℕ) × (q : ShmQueue A) × (q' : ShmQueue A) × (target_index (length queues) names stage
          ≡ ok i)
        × (get_elem? queues (i - 1) ≡ some q)
        × (queues' ≡ set queues (i - 1) q')
        × Leaves rounds q done a q'
  unfolding push push_at store
  push-lands queues names stage a block timeout start rounds done queues' h =
      elim (Result-cases (target_index (length queues) names stage)) [
        | inr (x, e) ↦ absurd (ground arith)
        | inl (i, e) ↦ elim (Option-cases (get_elem? queues (i - 1))) [
          | inl e₁ ↦ absurd (ground arith)
          | inr (q, e₁) ↦ elim (Option-cases (attempt a block timeout start rounds q)) [
            | inl e₂ ↦ absurd (ground arith)
            | inr ((done', q'), e₂) ↦
                (let left = items-attempt a block timeout start rounds q done' q' e₂ in
                  let same : done' ≡ done = ground arith in
                  (i, q, q', e, e₁, ground arith, subst (λ b. Leaves rounds q b a q') same left))
          ]
        ]
      ]
