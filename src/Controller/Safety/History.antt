-- ===== src/Controller/Safety/History.antt =====
-- The versions that the record of one handle has had, newest first, and what one version may become.
use scribe_drop.Common.{
  ℕ, ◌+◌, ◌<◌, ◌≡◌, ◌⊎◌, inl, inr, Bool, true, false, List, [], ◌∷◌, Option, none, some, arith,
}
use scribe_drop.Controller.Record.{ControlRecord}

abbrev pub History : Type 0
History = List ControlRecord

abbrev pub In : ControlRecord → History → Type 0
In r [] = ⊥
In r (x ∷ xs) = (r ≡ x) ⊎ In r xs

-- What was known stays known.
abbrev pub Extends : History → History → Type 0
Extends h h' = (r : ControlRecord) → In r h → In r h'

-- How a change counts: it claims a creation, it claims the run, or neither.
pub data Kind : Type 0 where
  plain claims_create claims_run : Kind

abbrev pub Change : Kind → ControlRecord → ControlRecord → Type 0
Change Kind.plain old new =
    (new.create_attempts ≡ old.create_attempts) × (new.run_intent ≡ old.run_intent)
Change Kind.claims_create old new =
    (new.create_attempts ≡ old.create_attempts + 1)
    × (new.run_intent ≡ old.run_intent)
    × (old.create_attempts < 2)
Change Kind.claims_run old new =
    (new.create_attempts ≡ old.create_attempts) × (old.run_intent ≡ false) × (new.run_intent ≡ true)

-- Versions fall along a history.
abbrev pub Falls : ℕ → History → Type 0
Falls n [] = Unit {0}
Falls n (r ∷ rs) = (r.version < n) × Falls r.version rs

Falls-lt : (n : ℕ) (h : History) (r : ControlRecord) → Falls n h → In r h → r.version < n
Falls-lt n [] r f i = absurd i
Falls-lt n (x ∷ xs) r (l, f) (inl e) = rw e l
Falls-lt n (x ∷ xs) r (l, f) (inr i) = omega (arith, Falls-lt x.version xs r f i)

-- The newest version is above the others.
abbrev pub Falling : History → Type 0
Falling [] = Unit {0}
Falling (r ∷ rs) = Falls r.version rs

-- So a known record of the newest version is the newest record.
pub In-newest :
    (x : ControlRecord) (xs : History) (r : ControlRecord)
    → Falling (x ∷ xs)
    → In r (x ∷ xs)
    → r.version ≡ x.version
    → r ≡ x
In-newest x xs r f (inl e) h = e
In-newest x xs r f (inr i) h = absurd (omega (arith, Falls-lt x.version xs r f i))

abbrev pub attempts_of : History → ℕ
attempts_of [] = 0
attempts_of (r ∷ rs) = r.create_attempts

abbrev pub bit : Bool → ℕ
bit true = 1
bit false = 0

abbrev pub runs_of : History → ℕ
runs_of [] = 0
runs_of (r ∷ rs) = bit r.run_intent

-- The record that the store keeps for the handle.
abbrev pub newest : History → Option ControlRecord
newest [] = none
newest (r ∷ rs) = some r
