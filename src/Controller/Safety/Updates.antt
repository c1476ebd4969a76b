-- ===== src/Controller/Safety/Updates.antt =====
-- The changes of the record that the service makes, in the logic of its threads.
use scribe_drop.Common.{
  ℕ, ◌<◌, ◌≡◌, refl, ap, ◌∙◌, ◌≢◌, inl, inr, String, Bool, true, false, Option, none, some, ◌is◌,
  is_iff, arith,
}
use scribe_drop.Controller.Record.{ControlRecord, Changes, or_else, apply_changes}
use scribe_drop.Controller.Program.{
  Call, Program, done, ask, refreshed, try_update, update, Controller, or_throw, expected_manifest,
}
use scribe_drop.Controller.Provider.{JobManifest, create_fixed_job_manifest, parsed_manifest}
use scribe_drop.Controller.Safety.History.{History, In, Extends, Kind, Change}
use scribe_drop.Controller.Safety.Logic.{
  Safe, Safe-bind, Knows, CasEffect, Got, with_create, with_run,
}

abbrev pub Granted : Kind → ℕ → ℕ → Type 0
Granted Kind.plain c r = Unit {0}
Granted Kind.claims_create c r = 0 < c
Granted Kind.claims_run c r = 0 < r

ne_of_is : (a b : String) → (a is b) ≡ false → a ≢ b
ne_of_is a b e same = cc ((is_iff a b).1 same)

module _ (h : String) (mine : Bool) where
  -- A record that a thread works with: known, and the watched one if the request names that.
  abbrev pub Held : History → ControlRecord → Type 0
  Held H x = Knows h mine H x × (mine ≡ true → x.execution_handle ≡ h)

  abbrev pub Kept : ControlRecord → History → ℕ → ℕ → Type 0
  Kept x H c r = Held H x

  abbrev pub Tried :
      Kind → ControlRecord → Changes → Bool × ControlRecord → History → ℕ → ℕ → Type 0
  Tried kind old changes (b, x) H c r =
      Held H x
      × (b ≡ true → x.execution_handle ≡ h → Granted kind c r)
      × (b ≡ true → (now : ℕ) × (x ≡ apply_changes old changes now))

  pub Held-Extends : (H H' : History) (x : ControlRecord) → Extends H H' → Held H x → Held H' x
  Held-Extends H H' x ext (known, owned) = ((λ e. ext x (known e)), owned)

  granted :
      (kind : Kind) (c r c' r' : ℕ)
      → c' ≡ with_create kind c
      → r' ≡ with_run kind r
      → Granted kind c' r'
  granted Kind.plain c r c' r' e e' = tt
  granted Kind.claims_create c r c' r' e e' = omega arith
  granted Kind.claims_run c r c' r' e e' = omega arith

  refreshed-Safe :
      (kind : Kind) (old : ControlRecord) (changes : Changes) (H : History) (c r : ℕ)
      (a : Option ControlRecord)
      → (mine ≡ true → old.execution_handle ≡ h)
      → Got h mine H old.execution_handle a
      → Safe h mine (Tried kind old changes) H c r (refreshed a)
  unfolding refreshed
  refreshed-Safe kind old changes H c r none owned got = tt
  refreshed-Safe kind old changes H c r (some x) owned (known, e) =
      ((known, λ m. e ∙ owned m), (λ b. cc), (λ b. cc))

  -- Behind the replacement: the new version, or the one that another thread has put there.
  abbrev settle : ControlRecord → ControlRecord → Bool → Program (Bool × ControlRecord)
  settle old next applied = elim applied [
    | true ↦ done (true, next)
    | false ↦ ask (Call.get old.execution_handle) refreshed
  ]

  lost :
      (kind : Kind) (old : ControlRecord) (changes : Changes) (now : ℕ) (H : History) (c r : ℕ)
      → (mine ≡ true → old.execution_handle ≡ h)
      → Safe h mine
          (Tried kind old changes)
          H
          c
          r
          (settle old (apply_changes old changes now) false)
  lost kind old changes now H c r owned =
      (tt, λ a H' c' r' ext eff. refreshed-Safe kind old changes H' c' r' a owned eff.2)

  won :
      (kind : Kind) (old : ControlRecord) (changes : Changes) (now c r c' r' : ℕ) (H : History)
      → (mine ≡ true → old.execution_handle ≡ h)
      → (old.execution_handle ≡ h → In (apply_changes old changes now) H)
      → (old.execution_handle ≡ h → Granted kind c' r')
      → Tried kind old changes (true, apply_changes old changes now) H c' r'
  won kind old changes now c r c' r' H owned known grant =
      ((known, owned), (λ _ e. grant e), (λ _. (now, refl)))

  cas-Safe :
      (kind : Kind) (old : ControlRecord) (changes : Changes) (now : ℕ) (H : History) (c r : ℕ)
      → Held H old
      → Change kind old (apply_changes old changes now)
      → (b : Bool) → (old.execution_handle is h) ≡ b
      → Safe h mine (Tried kind old changes) H c r (
          ask
            (Call.compare_and_set old.version (apply_changes old changes now))
            (settle old (apply_changes old changes now)))
  cas-Safe kind old changes now H c r (known, owned) change true e = (
    inr (old, kind, (is_iff _ _).0 e, known ((is_iff _ _).0 e), refl, change),
    λ applied H' c' r' ext eff.
        elim applied
            as (λ a.
              CasEffect h mine H c r old.version (apply_changes old changes now)
                (inr (old, kind, (is_iff _ _).0 e, known ((is_iff _ _).0 e), refl, change)) a H' c'
                r'
              → Safe h mine (Tried kind old changes) H' c' r'
                  (settle old (apply_changes old changes now) a)) [
                    | true ↦ λ eff'.
                        won kind old changes now c r c' r' H' owned (λ _. eff'.2)
                          (λ _. granted kind c r c' r' eff'.0 eff'.1)
                    | false ↦ λ _. lost kind old changes now H' c' r' owned
                  ]
          eff,
  )
  cas-Safe kind old changes now H c r (known, owned) change false e =
      let other = ne_of_is old.execution_handle h e in
      (
        inl other,
        λ applied H' c' r' ext eff.
            elim applied
              as (λ a.
                Safe h mine (Tried kind old changes) H' c' r'
                  (settle old (apply_changes old changes now) a)) [
                    | true ↦
                        won kind old changes now c r c' r' H' owned (λ same. absurd (other same))
                          (λ same. absurd (other same))
                    | false ↦ lost kind old changes now H' c' r' owned
                  ],
      )

  pub try_update-Safe :
      (kind : Kind) (old : ControlRecord) (changes : Changes) (H : History) (c r : ℕ)
      → Held H old
      → ((now : ℕ) → Change kind old (apply_changes old changes now))
      → Safe h mine (Tried kind old changes) H c r (try_update old changes)
  unfolding try_update
  try_update-Safe kind old changes H c r held change = (
    tt,
    λ now H1 c1 r1 ext _.
        cas-Safe kind old changes now H1 c1 r1 (Held-Extends H H1 old ext held) (change now)
          (old.execution_handle is h) refl,
  )

  -- A change that claims nothing leaves a record that is held, won or not.
  pub update-Safe :
      (old : ControlRecord) (changes : Changes) (H : History) (c r : ℕ)
      → Held H old
      → changes.create_attempts ≡ none
      → changes.run_intent ≡ none
      → Safe h mine Kept H c r (update old changes)
  unfolding update
  update-Safe old changes H c r held no_create no_run =
      Safe-bind h mine (Tried Kind.plain old changes) Kept H c r (try_update old changes)
        (λ result. done result.1)
        (try_update-Safe Kind.plain old changes H c r held (λ now. (
          ap (λ o. or_else o old.create_attempts) no_create,
          ap (λ o. or_else o old.run_intent) no_run,
        )))
        (λ result H' c' r' ext post. post.0)

  abbrev pub NamesHandle : ControlRecord → ℕ → ℕ → JobManifest → History → ℕ → ℕ → Type 0
  NamesHandle x c r m H c' r' = (m.execution_handle ≡ x.execution_handle) × (c' ≡ c) × (r' ≡ r)

  -- The manifest that a job is created with names the record's handle.
  pub expected_manifest-Safe :
      (k : Controller) (x : ControlRecord) (H : History) (c r : ℕ)
      → Safe h mine (NamesHandle x c r) H c r (expected_manifest k x)
  unfolding expected_manifest create_fixed_job_manifest
  expected_manifest-Safe k x H c r =
      elim (k.parse k.manifest_configuration)
        as (λ o.
          Safe h mine (NamesHandle x c r) H c r
            (or_throw (parsed_manifest o x.execution_handle x.bootstrap_request_id))) [
              | none ↦ tt
              | some parsed ↦ (refl, refl, refl)
            ]
