-- ===== src/Controller/Safety/Answered/Replacing.antt =====
-- A replacement that is answered is paid for by the record that it writes, and one that is refused changes
-- nothing.
use Prim.Native.Nat.{ℕ}
use mathlib.Core.Path.{subst}
use scribe_drop.Common.{
  ◌+◌, ◌≤◌, ◌≡◌, refl, ap, sym, ◌∙◌, inl, inr, String, Bool, true, false, [], ◌∷◌, some, ◌is◌,
  is_iff, arith,
}
use scribe_drop.Common.Assoc.{lookup, put}
use scribe_drop.Controller.Record.{ControlRecord}
use scribe_drop.Controller.Store.{ControlStore}
use scribe_drop.Controller.Store.Outcomes.{Replaced}
use scribe_drop.Controller.Program.{Call}
use scribe_drop.Controller.Safety.History.{History, In, Kind, Change, In-newest, bit}
use scribe_drop.Controller.Safety.Logic.{Justified, with_create, with_run}
use scribe_drop.Controller.Safety.Stored.{
  Stored, Advanced, same, Stored-same, Stored-other, Stored-more,
}

module _ (h : String) (mine : Bool) where
  -- Each kind of change pays for the permit that it gives.
  pays :
      (kind : Kind) (y n : ControlRecord) (c r : ℕ)
      → Change kind y n
      → (with_create kind c + y.create_attempts ≤ c + n.create_attempts)
        × (with_run kind r + bit y.run_intent ≤ r + bit n.run_intent)
        × (y.create_attempts ≤ 2 → n.create_attempts ≤ 2)
  pays Kind.plain y n c r (e, e') = (omega arith, rw e' (omega arith), λ k. omega arith)
  pays Kind.claims_create y n c r (e, e', few) =
      (omega arith, rw e' (omega arith), λ k. omega arith)
  pays Kind.claims_run y n c r (e, idle, started) =
      (omega arith, rw (idle, started) (omega arith), λ k. omega arith)

  newest_is_current :
      (s : ControlStore) (y : ControlRecord) (ys : History) (n cur : ControlRecord)
      → Stored h s (y ∷ ys)
      → n.execution_handle ≡ h
      → lookup n.execution_handle s.records ≡ some cur
      → cur ≡ y
  newest_is_current s y ys n cur st ours found = cc (ap (λ k. lookup k s.records) ours, st.kept)

  wins_ours :
      (s s' : ControlStore) (H : History) (c r v : ℕ) (n x : ControlRecord) (kind : Kind)
      (ours : n.execution_handle ≡ h) (known : In x H) (at_v : v ≡ x.version)
      (change : Change kind x n) (cur : ControlRecord)
      → Stored h s H
      → s'.records ≡ put n.execution_handle n s.records
      → lookup n.execution_handle s.records ≡ some cur
      → cur.version ≡ v
      → n.version ≡ v + 1
      → Advanced h mine H c r
          (Call.compare_and_set v n)
          (inr (x, kind, ours, known, at_v, change))
          true
          s'
  wins_ours s s' [] c r v n x kind ours known at_v change cur st recs found old new = absurd known
  wins_ours s s' (y ∷ ys) c r v n x kind ours known at_v change cur st recs found old new =
      let version_y : y.version ≡ v =
        sym (ap (λ z. z.version) (newest_is_current s y ys n cur st ours found)) ∙ old in
      let newest_x : x ≡ y = In-newest y ys x st.falling known (omega arith) in
      let (paid, paid_run, few) =
        pays kind y n c r (subst (λ z. Change kind z n) newest_x change) in
      (
        n ∷ y ∷ ys,
        with_create kind c,
        with_run kind r,
        (λ z i. inr i),
        (refl, refl, inl refl),
        Stored-more h mine s s' (y ∷ ys) n.execution_handle n recs refl
            ((is_iff n.execution_handle h).1 ours) (omega arith, st.falling) (few st.few) st,
        omega (arith, paid),
        omega (arith, paid_run),
      )

  wins :
      (s s' : ControlStore) (H : History) (c r v : ℕ) (n : ControlRecord)
      (g : Justified h mine H v n) (cur : ControlRecord) (b : Bool)
      → Stored h s H
      → s'.records ≡ put n.execution_handle n s.records
      → lookup n.execution_handle s.records ≡ some cur
      → cur.version ≡ v
      → n.version ≡ v + 1
      → (n.execution_handle is h) ≡ b
      → Advanced h mine H c r (Call.compare_and_set v n) g true s'
  wins s s' H c r v n (inl elsewhere) cur true st recs found old new e =
      absurd (elsewhere ((is_iff n.execution_handle h).0 e))
  wins s s' H c r v n (inl elsewhere) cur false st recs found old new e = (
    H,
    c,
    r,
    same h mine H,
    (refl, refl),
    Stored-other h mine s s' H n.execution_handle n recs refl e st,
    omega arith,
    omega arith,
  )
  wins s s' H c r v n (inr (x, kind, ours, known, at_v, change)) cur b st recs found old new e =
      wins_ours s s' H c r v n x kind ours known at_v change cur st recs found old new

  loses :
      (s s' : ControlStore) (H : History) (c r v : ℕ) (n : ControlRecord)
      (g : Justified h mine H v n)
      → Stored h s H
      → s' ≡ s
      → Advanced h mine H c r (Call.compare_and_set v n) g false s'
  loses s s' H c r v n (inl elsewhere) st e = (
    H,
    c,
    r,
    same h mine H,
    (refl, refl),
    Stored-same h mine s s' H (ap (λ t. t.records) e) st,
    omega arith,
    omega arith,
  )
  loses s s' H c r v n (inr claim) st e = (
    H,
    c,
    r,
    same h mine H,
    (refl, refl),
    Stored-same h mine s s' H (ap (λ t. t.records) e) st,
    omega arith,
    omega arith,
  )

  pub Replaced-Advanced :
      (s s' : ControlStore) (H : History) (c r v : ℕ) (n : ControlRecord)
      (g : Justified h mine H v n) (a : Bool)
      → Stored h s H
      → Replaced s v n (s', a)
      → Advanced h mine H c r (Call.compare_and_set v n) g a s'
  Replaced-Advanced s s' H c r v n g a st (inl (lost, e)) =
      subst (λ b. Advanced h mine H c r (Call.compare_and_set v n) g b s') (sym lost)
        (loses s s' H c r v n g st e)
  Replaced-Advanced s s' H c r v n g a st (inr (won, e, (cur, found, old, new, _))) =
      subst (λ b. Advanced h mine H c r (Call.compare_and_set v n) g b s') (sym won)
        (wins s s' H c r v n g cur (n.execution_handle is h) st (ap (λ t. t.records) e) found old
          new refl)
