-- ===== src/Helpers.antt =====
-- The classes of src/pipe/utils.py that a pipeline may use as stages: Batcher, BufferAndShuffle,
-- RetrieveSQL and AsyncPoolWorker. The collate function, the shuffle of Python's random module, the
-- database and the tasks of a pool are parameters.
pub mod Groups
pub mod Shuffled
pub mod Rows
pub mod Pool
mod Tests
use gpupipe.Prelude.{
  ℤ, pos, negsuc, String, str_eq, eq_iff, ℕ, zero, suc, ◌+◌, ◌-◌, ◌*◌, ◌/◌, ◌%◌, ◌^◌, ◌≤◌, ◌<◌, min,
  max, ◌≡◌, refl, sym, ap, ◌∙◌, subst, ◌≢◌, ◌↔◌, ◌⊎◌, inl, inr, Bool, true, false, not, ◌&&◌, ◌||◌,
  Option, none, some, List, [], ◌∷◌, ◌++◌, map, append-nil, append_assoc, arith, ltb, leb, ◌==◌,
  if◌then◌else◌, ltb→lt, lt→ltb, leb→le, le→leb, Bool-cases, Option-cases, if_rule, length,
  is_empty, get_elem?, set, take, drop, replicate, length-append, length-nil, is_empty-nil,
  is_empty-length, take-append-drop, length-take, length-drop, length-replicate, length-set, All,
  All-append, drop-drop, drop-append, length-map, sum,
}

-- What a Batcher returns: a list of items, or what its collate function makes of it.
pub data Batch {ℓ} (A : Type ℓ) (B : Type ℓ) : Type ℓ where
  plain : List A → Batch A B
  collated : B → Batch A B

-- What the flush of a Batcher yields, one at a time.
pub data Rest {ℓ} (A : Type ℓ) (B : Type ℓ) : Type ℓ where
  item : A → Rest A B
  whole : B → Rest A B

pub record Batcher {ℓ} (A : Type ℓ) : Type ℓ where
  pub size : ℕ
  pub buffer : List A

pub record BufferAndShuffle {ℓ} (A : Type ℓ) : Type ℓ where
  pub size : ℕ
  pub batch_size : ℕ
  pub first : Bool
  pub buffer : List A

module _ {ℓ} {A B : Type ℓ} (collate : Option (List A → B)) where
  unfoldable pub wrap : List A → Batch A B
  wrap out = elim collate [ none ↦ plain out | some c ↦ collated (c out) ]

  -- `Batcher.__call__`.
  unfoldable pub batcher_call : A → Batcher A → Option (Batch A B) × Batcher A
  unfolding wrap
  batcher_call x b =
      if leb b.size (length (b.buffer ++ x ∷ []))
      then (some (wrap (b.buffer ++ x ∷ [])), record b { buffer = [] })
      else (none, record b { buffer = b.buffer ++ x ∷ [] })

  unfoldable pub spread : List A → List (Rest A B)
  spread out = elim collate [ none ↦ map item out | some c ↦ whole (c out) ∷ [] ]

  -- `Batcher.flush`.
  unfoldable pub batcher_flush : Batcher A → List (Rest A B) × Batcher A
  unfolding spread
  batcher_flush b =
      if is_empty b.buffer then ([], b) else (spread b.buffer, record b { buffer = [] })

  add_batch : Option (Batch A B) → List (Batch A B) → List (Batch A B)
  add_batch none bs = bs
  add_batch (some b) bs = b ∷ bs

  -- The calls of a Batcher, with what they return other than None.
  unfoldable pub batcher_calls : List A → Batcher A → List (Batch A B) × Batcher A
  unfolding add_batch
  batcher_calls [] b = ([], b)
  batcher_calls (x ∷ xs) b =
      let r = batcher_call x b in
      let later = batcher_calls xs r.1 in (add_batch r.0 later.0, later.1)

module _ {ℓ} {A : Type ℓ} (shuffle : List A → List A) where
  unfoldable pub threshold : BufferAndShuffle A → ℕ
  threshold b = if b.first then b.batch_size else b.size

  -- `BufferAndShuffle.__call__`; the constructor has multiplied the batch size by four.
  unfoldable pub shuffle_call : A → BufferAndShuffle A → List A × BufferAndShuffle A
  unfolding threshold
  shuffle_call x b =
      if ltb (threshold b) (length (b.buffer ++ x ∷ []))
      then (shuffle (b.buffer ++ x ∷ []), record b { first = false; buffer = [] })
      else ([], record b { buffer = b.buffer ++ x ∷ [] })

  unfoldable pub shuffle_flush : BufferAndShuffle A → List A × BufferAndShuffle A
  shuffle_flush b =
      if is_empty b.buffer then ([], b) else (shuffle b.buffer, record b { buffer = [] })

  -- All that the calls and the flush at the end send on.
  unfoldable pub shuffle_all : List A → BufferAndShuffle A → List A
  unfolding shuffle_call shuffle_flush
  shuffle_all [] b = (shuffle_flush b).0
  shuffle_all (x ∷ xs) b = let r = shuffle_call x b in r.0 ++ shuffle_all xs r.1

-- RetrieveSQL, without `skip_count`.
pub record RetrieveSql : Type 0 where
  pub offset : ℕ
  pub chunk_size : ℕ
  pub skip_count : Bool
  pub has_order : Bool
  pub count : ℕ

-- What the database answers: to the query alone, to the query with its order, a limit and an offset,
-- to the query with ORDER BY RANDOM(), a limit and an offset, and to the count of its rows.
pub record Database {ℓ} (A : Type ℓ) : Type ℓ where
  pub rows : List A
  pub ordered : ℕ → ℕ → List A
  pub random : ℕ → ℕ → List A
  pub total : ℕ

-- The next chunk, in the order of the query or, where it has none, in a random one.
next_rows {ℓ} : {A : Type ℓ} → Database A → RetrieveSql → List A
next_rows db r =
    if r.has_order then db.ordered r.chunk_size r.offset else db.random r.chunk_size r.offset

-- What a call returns: none is End.
unfoldable pub retrieve {ℓ} :
    {A : Type ℓ} → Database A → RetrieveSql → Option (List A) × RetrieveSql
unfolding next_rows
retrieve db r =
    let items = next_rows db r in
    if r.skip_count
    then (if is_empty db.rows then (none, r) else (some db.rows, r))
    else if is_empty items || leb r.count (r.offset + length items)
    then (if ltb r.count db.total
        then (some items, record r { count = db.total; offset = 0 })
        else (none, record r { offset = r.offset + length items }))
    else (some items, record r { offset = r.offset + length items })

-- The rows of the calls up to the first that returns End, with fuel for the calls; none is a lack of
-- fuel.
after_rows {ℓ} : {A : Type ℓ} → Option (List A) → Option (List A) → Option (List A)
after_rows none later = some []
after_rows (some items) none = none
after_rows (some items) (some rows) = some (items ++ rows)

unfoldable pub retrieve_all {ℓ} : {A : Type ℓ} → ℕ → Database A → RetrieveSql → Option (List A)
unfolding retrieve after_rows
retrieve_all zero db r = none
retrieve_all (suc fuel) db r =
    let got = retrieve db r in let later = retrieve_all fuel db got.1 in after_rows got.0 later

-- What a task of a pool comes to: `process` returns None or raises, returns a list, or an item.
pub data Processed {ℓ} (B : Type ℓ) : Type ℓ where
  nothing : Processed B
  several : List (Option B) → Processed B
  single : B → Processed B

-- What a wait of the pool reports as done: the pull with its items, or the task at a place among
-- those in flight.
pub data Done {ℓ} (A : Type ℓ) (B : Type ℓ) : Type ℓ where
  pulled : List A → Done A B
  processed : ℕ → Processed B → Done A B

pub record AsyncPool {ℓ} (A : Type ℓ) (B : Type ℓ) : Type ℓ where
  pub max_concurrent : ℕ
  pub in_flight : List A
  pub pull_task : Option ℕ
  pub upstream_done : Bool
  pub emitted : List B
  pub given : List A
  pub finished : List (A × Processed B)

unfoldable pub present {ℓ} : {B : Type ℓ} → List (Option B) → List B
present [] = []
present (none ∷ os) = present os
present (some b ∷ os) = b ∷ present os

unfoldable pub results {ℓ} : {B : Type ℓ} → Processed B → List B
unfolding present
results nothing = []
results (several os) = present os
results (single b) = b ∷ []

unfoldable pub is_waiting : Option ℕ → Bool
is_waiting none = false
is_waiting (some need) = true

unfoldable pub remove_at {ℓ} : {A : Type ℓ} → ℕ → List A → List A
remove_at i [] = []
remove_at zero (x ∷ xs) = xs
remove_at (suc i) (x ∷ xs) = x ∷ remove_at i xs

module _ {ℓ} {A B : Type ℓ} where
  arm_pull : Option ℕ → AsyncPool A B → AsyncPool A B
  arm_pull (some need) p = p
  arm_pull none p =
      if not p.upstream_done && ltb (length p.in_flight) p.max_concurrent
      then record p { pull_task = some (p.max_concurrent - length p.in_flight) }
      else p

  -- A pull is started if there is room and none is under way.
  unfoldable pub arm : AsyncPool A B → AsyncPool A B
  unfolding arm_pull
  arm p = arm_pull p.pull_task p

  complete : ℕ → Processed B → Option A → AsyncPool A B → AsyncPool A B
  complete i r none p = p
  complete i r (some a) p = record p {
    in_flight = remove_at i p.in_flight;
    emitted = p.emitted ++ results r;
    finished = p.finished ++ (a, r) ∷ [];
  }

  -- What the pool does with one of the tasks that are done.
  unfoldable pub on_done : Done A B → AsyncPool A B → AsyncPool A B
  unfolding complete remove_at results
  on_done (pulled items) p = record p {
    pull_task = none;
    upstream_done = p.upstream_done || is_empty items;
    in_flight = p.in_flight ++ items;
    given = p.given ++ items;
  }
  on_done (processed i r) p = complete i r (get_elem? p.in_flight i) p

  unfoldable pub on_all_done : List (Done A B) → AsyncPool A B → AsyncPool A B
  unfolding on_done
  on_all_done [] p = p
  on_all_done (d ∷ ds) p = on_all_done ds (on_done d p)

  -- The pool has nothing to wait for.
  unfoldable pub is_over : AsyncPool A B → Bool
  unfolding is_waiting
  is_over p = is_empty p.in_flight && not (is_waiting p.pull_task)

  -- `_run_async` over what its waits report.
  unfoldable pub run_async : List (List (Done A B)) → AsyncPool A B → AsyncPool A B
  unfolding arm on_all_done is_over
  run_async [] p = arm p
  run_async (ds ∷ waits) p =
      let later = run_async waits (on_all_done ds (arm p)) in
      if is_over (arm p) then arm p else later

  unfoldable pub new_pool : ℕ → AsyncPool A B
  new_pool max_concurrent = record {
    max_concurrent = max_concurrent;
    in_flight = [];
    pull_task = none;
    upstream_done = false;
    emitted = [];
    given = [];
    finished = [];
  }
