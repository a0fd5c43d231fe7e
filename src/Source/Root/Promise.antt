-- ===== src/Source/Root/Promise.antt =====
-- What the calls of a root stage promise, for the loop that calls it.
use gpupipe.Prelude.{
  ℕ, ◌≡◌, Bool, true, false, not, ◌&&◌, ◌||◌, Option, none, some, List, [], ◌∷◌, ◌++◌,
  if◌then◌else◌,
}
use gpupipe.Worker.{Yield, value, none_value, end_value, Error, connection, other}
use gpupipe.Source.{Sending, lands, fails}
use gpupipe.Source.Drain.{landing, SendsMildly, ItemsMild}
use gpupipe.Source.Root.{SourceCall, nothing, single, listed, generator, raises, RootTick, has_end}

abbrev pub RaisesMildly : Option Error → Type 0
RaisesMildly none = Unit
RaisesMildly (some connection) = ⊥
RaisesMildly (some other) = Unit

abbrev pub has_raised : Option Error → Bool
has_raised none = false
has_raised (some e) = true

module _ {ℓ} {B : Type ℓ} where
  abbrev pub ListMild : ℕ → List (Yield B × Sending) → Type 0
  ListMild n [] = Unit
  ListMild n ((y, s) ∷ ys) = SendsMildly n s × ListMild n ys

  abbrev pub CallMild : ℕ → SourceCall B → Type 0
  CallMild n nothing = Unit
  CallMild n (single y s) = SendsMildly n s
  CallMild n (listed ys) = ListMild n ys
  CallMild n (generator raised items) = RaisesMildly raised × ItemsMild n items
  CallMild n (raises connection) = ⊥
  CallMild n (raises other) = Unit

  -- The payloads of a list up to the first send that fails.
  abbrev pub list_landing : List (Yield B × Sending) → List (Yield B)
  list_landing [] = []
  list_landing ((none_value, s) ∷ ys) = list_landing ys
  list_landing ((end_value, s) ∷ ys) = list_landing ys
  list_landing ((value b, lands t now) ∷ ys) = value b ∷ list_landing ys
  list_landing ((value b, fails e t now) ∷ ys) = []

  abbrev pub all_land : List (Yield B × Sending) → Bool
  all_land [] = true
  all_land ((none_value, s) ∷ ys) = all_land ys
  all_land ((end_value, s) ∷ ys) = all_land ys
  all_land ((value b, lands t now) ∷ ys) = all_land ys
  all_land ((value b, fails e t now) ∷ ys) = false

  -- Whether a stop comes before the generator is exhausted.
  abbrev pub is_stopped : List (Bool × Yield B × Sending) → Bool
  is_stopped [] = false
  is_stopped ((true, y, s) ∷ items) = true
  is_stopped ((false, y, s) ∷ items) = is_stopped items

  abbrev pub call_sends : SourceCall B → List (Yield B)
  call_sends nothing = []
  call_sends (single y s) = list_landing ((y, s) ∷ [])
  call_sends (listed ys) = list_landing ys
  call_sends (generator raised items) = landing items
  call_sends (raises e) = []

  -- Whether a call is the last one of the source.
  abbrev pub call_ends : SourceCall B → Bool
  call_ends nothing = false
  call_ends (single none_value s) = false
  call_ends (single (value b) s) = false
  call_ends (single end_value s) = true
  call_ends (listed ys) = has_end ys && all_land ys
  call_ends (generator raised items) = is_stopped items || not (has_raised raised)
  call_ends (raises e) = false

  -- What the loop is to send: what each call sends, up to the last call, a stop, or a drain that the
  -- stage obeys.
  abbrev pub promised : Bool → List (RootTick B) → List (Yield B)
  promised drain [] = []
  promised drain (t ∷ ticks) =
      let later = promised drain ticks in
      if t.should_stop || (not drain && t.drain_event)
      then []
      else call_sends t.result ++ (if call_ends t.result then [] else later)

  -- No put of an age check raises, and no connection breaks; a send fails only on an edge without
  -- chunks.
  abbrev pub TicksMild : ℕ → List (RootTick B) → Type 0
  TicksMild n [] = Unit
  TicksMild n (t ∷ ticks) = (t.age_fails ≡ false) × CallMild n t.result × TicksMild n ticks
