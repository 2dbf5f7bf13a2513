-- ===== src/Replay/Prefix.antt =====
-- The journal that `build_journal` of crates/eryx/src/replay.rs makes: entries in dispatch order,
-- and none at or behind the suspending call.
use eryx.Prelude.{ℕ, suc, ◌≤◌, ◌<◌, ◌≡◌, Option, none, some, List, [], ◌∷◌, get_elem?}
use eryx.Prelude.Text.{Text}
use eryx.Replay.Journal.{CallbackJournalEntry}
use eryx.Replay.State.{ReplayState, call_keys}

-- The call came before the suspending one, if there is one.
abbrev pub IsBefore : Option ℕ → ℕ → Type 0
IsBefore none i = Unit {0}
IsBefore (some seq) i = i < seq

module _ {ℓ} {V : Type ℓ} where
  -- The indices rise strictly, from `lo` on.
  abbrev pub Rises : ℕ → List (CallbackJournalEntry V) → Type 0
  Rises lo [] = Unit {0}
  Rises lo (e ∷ es) = (lo ≤ e.index) × Rises (suc e.index) es

  -- Each index is below that of the suspending call, if there is one.
  abbrev pub BeforeSuspension : Option ℕ → List (CallbackJournalEntry V) → Type 0
  BeforeSuspension none es = Unit {0}
  BeforeSuspension (some seq) [] = Unit {0}
  BeforeSuspension (some seq) (e ∷ es) = (e.index < seq) × BeforeSuspension (some seq) es

  -- The entry stands in the list.
  pub data Holds (e : CallbackJournalEntry V) : List (CallbackJournalEntry V) → Type ℓ where
    here : (es : List (CallbackJournalEntry V)) → Holds e (e ∷ es)
    there :
        (d : CallbackJournalEntry V) (es : List (CallbackJournalEntry V))
        → Holds e es
        → Holds e (d ∷ es)

  -- What the journal of a state holds: the entries of the slots before the suspending call, in order.
  pub record IsPrefix (t : ReplayState V) (es : List (CallbackJournalEntry V)) : Type ℓ where
    pub rises : Rises 0 es
    pub before : BeforeSuspension t.suspend_seq es
    pub recorded :
        (e : CallbackJournalEntry V) → Holds e es → get_elem? t.entries e.index ≡ some (some e)
    pub kept :
        (i : ℕ) (e : CallbackJournalEntry V)
        → get_elem? t.entries i ≡ some (some e)
        → IsBefore t.suspend_seq i
        → Holds e es
