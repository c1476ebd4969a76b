-- ===== src/Controller/Safety/Logic.antt =====
-- A program logic for the threads of the controller, over the history of one handle's record. A thread
-- holds permits: one for each creation or run that it has claimed and not yet asked for. `Safe` says
-- that a program asks for a job only with a permit, and changes the record only from a version known.
use scribe_drop.Common.{
  ℕ, suc, ◌-◌, ◌<◌, ◌≡◌, refl, ◌≢◌, ◌⊎◌, inl, inr, String, Bool, true, false, Option, none, some,
  ◌is◌, if◌then◌else◌, All,
}
use scribe_drop.Controller.Record.{ControlRecord}
use scribe_drop.Controller.Store.{AdmitCreateResult, ClaimRequestResult}
use scribe_drop.Controller.Program.{Call, Answer, Failure, Program, done, fail, ask, ◌>>=◌}
use scribe_drop.Controller.Safety.History.{History, In, Extends, Kind, Change}

abbrev pub with_create : Kind → ℕ → ℕ
with_create Kind.claims_create c = suc c
with_create _ c = c

abbrev pub with_run : Kind → ℕ → ℕ
with_run Kind.claims_run r = suc r
with_run _ r = r

-- Nothing is asked of the result.
abbrev pub Anything : {A : Type 0} → A → History → ℕ → ℕ → Type 0
Anything a H c r = Unit {0}

-- The handle that is watched, and whether the thread's request names it.
module _ (h : String) (mine : Bool) where
  abbrev pub Knows : History → ControlRecord → Type 0
  Knows H x = x.execution_handle ≡ h → In x H

  -- A change of the watched record starts from a known version.
  abbrev pub Justified : History → ℕ → ControlRecord → Type 0
  Justified H v n =
      (n.execution_handle ≢ h)
      ⊎ ((old : ControlRecord) × (kind : Kind) × (n.execution_handle ≡ h)
          × In old H
          × (v ≡ old.version)
          × Change kind old n)

  abbrev pub Guard : History → ℕ → ℕ → Call → Type 0
  Guard H c r (Call.compare_and_set v n) = Justified H v n
  Guard H c r (Call.create_job j m) = (m.execution_handle is h) ≡ true → 0 < c
  Guard H c r (Call.run_job j) = mine ≡ true → 0 < r
  Guard H c r _ = Unit {0}

  abbrev pub CasEffect :
      (H : History) (c r v : ℕ) (n : ControlRecord)
      → Justified H v n
      → Bool
      → History
      → ℕ
      → ℕ
      → Type 0
  CasEffect H c r v n (inl other) a H' c' r' = (c' ≡ c) × (r' ≡ r)
  CasEffect H c r v n (inr (old, kind, ours, known, e, change)) true H' c' r' =
      (c' ≡ with_create kind c) × (r' ≡ with_run kind r) × In n H'
  CasEffect H c r v n (inr claim) false H' c' r' = (c' ≡ c) × (r' ≡ r)

  abbrev pub Admitted : History → String → AdmitCreateResult → Type 0
  Admitted H handle (AdmitCreateResult.accepted x) =
      Knows H x × (x.execution_handle ≡ handle) × (x.create_attempts ≡ 0)
  Admitted H handle _ = Unit {0}

  abbrev pub Claimed : History → String → ClaimRequestResult → Type 0
  Claimed H handle (ClaimRequestResult.accepted x) = Knows H x × (x.execution_handle ≡ handle)
  Claimed H handle _ = Unit {0}

  abbrev pub Got : History → String → Option ControlRecord → Type 0
  Got H handle none = Unit {0}
  Got H handle (some x) = Knows H x × (x.execution_handle ≡ handle)

  -- What an answer tells, and what it does to the permits.
  abbrev pub Effect :
      (H : History) (c r : ℕ) (q : Call) → Guard H c r q → Answer q → History → ℕ → ℕ → Type 0
  Effect H c r (Call.compare_and_set v n) g a H' c' r' = CasEffect H c r v n g a H' c' r'
  Effect H c r (Call.create_job j m) g a H' c' r' =
      (c' ≡ (if m.execution_handle is h then c - 1 else c)) × (r' ≡ r)
  Effect H c r (Call.run_job j) g a H' c' r' = (c' ≡ c) × (r' ≡ (if mine then r - 1 else r))
  Effect H c r (Call.admit_create i) g a H' c' r' =
      (c' ≡ c) × (r' ≡ r) × Admitted H' i.identity.execution_handle a
  Effect H c r (Call.claim_request i) g a H' c' r' =
      (c' ≡ c) × (r' ≡ r) × Claimed H' i.identity.execution_handle a
  Effect H c r (Call.get k) g a H' c' r' = (c' ≡ c) × (r' ≡ r) × Got H' k a
  Effect H c r (Call.list_unclean e) g a H' c' r' = (c' ≡ c) × (r' ≡ r) × All (Knows H') a
  Effect H c r _ g a H' c' r' = (c' ≡ c) × (r' ≡ r)

  abbrev pub Stops : Failure → Type 0
  Stops Failure.out_of_fuel = ⊥
  Stops _ = Unit {0}

  module _ {A : Type 0} (Q : A → History → ℕ → ℕ → Type 0) where
    abbrev pub Safe : History → ℕ → ℕ → Program A → Type 0
    Safe H c r (done a) = Q a H c r
    Safe H c r (fail e) = Stops e
    Safe H c r (ask q k) =
        (g : Guard H c r q) × ((a : Answer q) (H' : History) (c' r' : ℕ)
          → Extends H H'
          → Effect H c r q g a H' c' r'
          → Safe H' c' r' (k a))

  -- A program goes on with what the first part of it has established.
  pub Safe-bind :
      {A B : Type 0} (Q : A → History → ℕ → ℕ → Type 0) (R : B → History → ℕ → ℕ → Type 0)
      (H : History) (c r : ℕ) (p : Program A) (f : A → Program B)
      → Safe Q H c r p
      → ((a : A) (H' : History) (c' r' : ℕ) → Extends H H' → Q a H' c' r' → Safe R H' c' r' (f a))
      → Safe R H c r (p >>= f)
  unfolding ◌>>=◌
  Safe-bind Q R H c r (done a) f s t = t a H c r (λ x i. i) s
  Safe-bind Q R H c r (fail e) f s t = s
  Safe-bind Q R H c r (ask q k) f (g, s) t = (
    g,
    λ a H' c' r' ext eff.
        Safe-bind Q R H' c' r' (k a) f (s a H' c' r' ext eff)
          (λ b H'' c'' r'' ext' post. t b H'' c'' r'' (λ x i. ext' x (ext x i)) post),
  )

  pub Safe-if :
      {A : Type 0} (Q : A → History → ℕ → ℕ → Type 0) (H : History) (c r : ℕ) (b : Bool)
      (p q : Program A)
      → (b ≡ true → Safe Q H c r p)
      → (b ≡ false → Safe Q H c r q)
      → Safe Q H c r (if b then p else q)
  Safe-if Q H c r true p q s t = s refl
  Safe-if Q H c r false p q s t = t refl
