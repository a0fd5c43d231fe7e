-- ===== src/Helpers/Rows.antt =====
-- RetrieveSQL of src/pipe/utils.py over a table that nobody changes.
use gpupipe.Prelude.{
  ℕ, zero, suc, ◌+◌, ◌-◌, ◌≤◌, ◌<◌, min, ◌≡◌, refl, sym, ap, ◌∙◌, inl, inr, true, false, Option,
  none, some, List, [], ◌++◌, append_assoc, arith, ltb, leb, leb→le, Bool-cases, length, is_empty,
  take, drop, is_empty-nil, take-append-drop, length-take, length-drop, drop-drop,
}
use gpupipe.Helpers.{RetrieveSql, Database, retrieve, retrieve_all, after_rows}

-- A database whose rows do not change, and that answers an ordered query with a limit and an offset
-- as SQL does; a random order answers `random`.
abbrev pub table {ℓ} : {A : Type ℓ} → (ℕ → ℕ → List A) → List A → Database A
table random rows = record {
  rows = rows;
  ordered = λ limit off. take limit (drop off rows);
  random = random;
  total = length rows;
}

-- The reader of an ordered query over so many rows, with its count.
abbrev pub ordered_reader : ℕ → ℕ → ℕ → RetrieveSql
ordered_reader chunk_size count off = record {
  offset = off;
  chunk_size = chunk_size;
  skip_count = false;
  has_order = true;
  count = count;
}

module _ {ℓ} {A : Type ℓ} (random : ℕ → ℕ → List A) (rows : List A) (chunk_size : ℕ) where
  abbrev reader : ℕ → RetrieveSql
  reader off = ordered_reader chunk_size (length rows) off

  length-items :
      (off : ℕ) → length (take chunk_size (drop off rows)) ≡ min chunk_size (length rows - off)
  length-items off =
      length-take chunk_size (drop off rows) ∙ ap (min chunk_size) (length-drop off rows)

  is_empty-items :
      (off : ℕ)
      → off < length rows
      → 0 < chunk_size
      → is_empty (take chunk_size (drop off rows)) ≡ false
  is_empty-items off inside positive =
      elim (Bool-cases (is_empty (take chunk_size (drop off rows)))) [
        | inl e ↦
            let e' = is_empty-nil (take chunk_size (drop off rows)) e in
            let zero_long : length (take chunk_size (drop off rows)) ≡ 0 = rw e' refl in
            absurd (omega (arith, length-items off))
        | inr e ↦ e
      ]

  retrieve-last :
      (off : ℕ)
      → off < length rows
      → 0 < chunk_size
      → length rows ≤ off + chunk_size
      → (retrieve (table random rows) (reader off)).0 ≡ none
  unfolding retrieve
  retrieve-last off inside positive over =
      let k = length-items off in
      let e : leb (length rows) (off + length (take chunk_size (drop off rows))) ≡ true =
        ground arith in
      let same : ltb (length rows) (length rows) ≡ false = ground arith in
      rw (is_empty-items off inside positive, e, same) refl

  retrieve-more :
      (off : ℕ)
      → 0 < chunk_size
      → off + chunk_size < length rows
      → retrieve (table random rows) (reader off)
        ≡ (some (take chunk_size (drop off rows)), reader (off + chunk_size))
  unfolding retrieve
  retrieve-more off positive more =
      let k : length (take chunk_size (drop off rows)) ≡ chunk_size =
        omega (arith, length-items off) in
      let e : leb (length rows) (off + chunk_size) ≡ false = ground arith in
      rw (is_empty-items off (omega arith) positive, k, e) refl

  Fetches : ℕ → Option (List A) → Type ℓ
  Fetches off o =
      (got : List A) × (lost : List A) × (o ≡ some got)
      × (got ++ lost ≡ drop off rows)
      × (0 < length lost)
      × (length lost ≤ chunk_size)

  retrieve_from :
      (fuel off : ℕ)
      → 0 < chunk_size
      → off < length rows
      → length rows - off ≤ fuel
      → Fetches off (retrieve_all fuel (table random rows) (reader off))
  unfolding retrieve_all after_rows Fetches
  retrieve_from zero off positive inside enough = absurd (omega arith)
  retrieve_from (suc fuel) off positive inside enough =
      elim (Bool-cases (leb (length rows) (off + chunk_size))) [
        | inl last ↦
            let left = length-drop off rows in
            rw (retrieve-last off inside positive (leb→le _ _ last))
              ([], drop off rows, refl, refl, omega arith, ground arith)
        | inr more ↦
            let inside' : off + chunk_size < length rows = ground arith in
            let (got, lost, e, split, some_lost, few) =
              retrieve_from fuel (off + chunk_size) positive inside' (omega arith) in
            rw (retrieve-more off positive inside', e)
              (
                take chunk_size (drop off rows) ++ got,
                lost,
                refl,
                append_assoc (take chunk_size (drop off rows)) got lost
                    ∙ ap (λ l. take chunk_size (drop off rows) ++ l)
                        (split ∙ sym (drop-drop chunk_size off rows))
                    ∙ take-append-drop chunk_size (drop off rows),
                some_lost,
                few,
              )
      ]

  -- For a query with an order, not skipping its count, over a table that does not change and has a
  -- row, with a positive chunk size, the calls come to an End, and what they have returned by then is all but a last part of the table, which is not
  -- empty and at most a chunk.
  pub retrieve_all-loses :
      0 < chunk_size
      → 0 < length rows
      → (got : List A) × (lost : List A) × (retrieve_all
            (length rows)
            (table random rows)
            (ordered_reader chunk_size (length rows) 0)
          ≡ some got)
        × (got ++ lost ≡ rows)
        × (0 < length lost)
        × (length lost ≤ chunk_size)
  retrieve_all-loses positive some_row =
      unfold Fetches in retrieve_from (length rows) 0 positive some_row (omega arith)
