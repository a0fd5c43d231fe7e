-- ===== src/Helpers/Groups.antt =====
-- The Batcher of src/pipe/utils.py cuts its input into groups.
use gpupipe.Prelude.{
  ℕ, ◌+◌, ◌<◌, ◌≡◌, refl, sym, ap, ◌∙◌, inl, inr, Option, List, [], ◌∷◌, ◌++◌, map, append-nil,
  append_assoc, arith, leb, if◌then◌else◌, Bool-cases, if_rule, length, is_empty, length-append,
  All,
}
use gpupipe.Helpers.{Batch, Rest, Batcher, wrap, spread, batcher_call, batcher_calls, batcher_flush}

abbrev pub concat {ℓ} : {A : Type ℓ} → List (List A) → List A
concat [] = []
concat (g ∷ gs) = g ++ concat gs

module _ {ℓ} {A B : Type ℓ} (collate : Option (List A → B)) where
  -- The groups of a run of calls, and the items that are still in the buffer.
  pub record IsCut (xs : List A) (b : Batcher A) (r : List (Batch A B) × Batcher A) : Type ℓ where
    pub groups : List (List A)
    pub whole : concat groups ++ r.1.buffer ≡ b.buffer ++ xs
    pub returned : r.0 ≡ map (wrap collate) groups
    pub full : All (λ (g : List A). length g ≡ b.size) groups
    pub short : length r.1.buffer < b.size
    pub same_size : r.1.size ≡ b.size

  batcher_calls-IsCut :
      (xs : List A) (b : Batcher A)
      → length b.buffer < b.size
      → IsCut xs b (batcher_calls collate xs b)
  unfolding batcher_calls batcher_call
  batcher_calls-IsCut [] b short = record {
    groups = [];
    whole = sym (append-nil b.buffer);
    returned = refl;
    full = tt;
    short = short;
    same_size = refl;
  }
  batcher_calls-IsCut (x ∷ xs) b short =
      let grown : length (b.buffer ++ x ∷ []) ≡ length b.buffer + 1 =
        length-append b.buffer (x ∷ []) in
      elim (Bool-cases (leb b.size (length (b.buffer ++ x ∷ [])))) [
        | inl full ↦
            let later = batcher_calls-IsCut xs (record b { buffer = [] }) (omega arith) in
            rw full (record {
              groups = (b.buffer ++ x ∷ []) ∷ later.groups;
              whole =
                  append_assoc (b.buffer ++ x ∷ []) (concat later.groups) _
                  ∙ ap (λ l. (b.buffer ++ x ∷ []) ++ l) later.whole
                  ∙ append_assoc b.buffer (x ∷ []) xs;
              returned =
                  ap (λ (l : List (Batch A B)). wrap collate (b.buffer ++ x ∷ []) ∷ l)
                    later.returned;
              full = (ground arith, later.full);
              short = later.short;
              same_size = later.same_size;
            })
        | inr more ↦
            let later =
              batcher_calls-IsCut xs (record b { buffer = b.buffer ++ x ∷ [] }) (ground arith) in
            rw more (record {
              groups = later.groups;
              whole = later.whole ∙ append_assoc b.buffer (x ∷ []) xs;
              returned = later.returned;
              full = later.full;
              short = later.short;
              same_size = later.same_size;
            })
      ]

  flush-spreads :
      (b : Batcher A)
      → (batcher_flush collate b).0 ≡ (if is_empty b.buffer then [] else spread collate b.buffer)
  unfolding batcher_flush
  flush-spreads b =
      if_rule
        (λ (r : List (Rest A B) × Batcher A).
          r.0 ≡ (if is_empty b.buffer then [] else spread collate b.buffer))
        (is_empty b.buffer) _ _ (λ e. rw e) (λ e. rw e)

  -- A Batcher with a positive size returns, over any items, their groups of exactly that size, in
  -- order, each as it is or collated, and its flush yields the shorter rest: the items one by one, or
  -- collated.
  pub batcher_calls-groups :
      (size : ℕ) (xs : List A)
      → 0 < size
      → let r = batcher_calls collate xs (record { size = size; buffer = [] }) in
        (groups : List (List A)) × (rest : List A) × (concat groups ++ rest ≡ xs)
        × (r.0 ≡ map (wrap collate) groups)
        × All (λ (g : List A). length g ≡ size) groups
        × (length rest < size)
        × ((batcher_flush collate r.1).0 ≡ (if is_empty rest then [] else spread collate rest))
  batcher_calls-groups size xs positive =
      let r = batcher_calls collate xs (record { size = size; buffer = [] }) in
      let c = batcher_calls-IsCut xs (record { size = size; buffer = [] }) positive in
      (c.groups, r.1.buffer, c.whole, c.returned, c.full, c.short, flush-spreads r.1)
