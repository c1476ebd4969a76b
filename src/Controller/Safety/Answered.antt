-- ===== src/Controller/Safety/Answered.antt =====
-- Whatever a call is answered, the store agrees with a history that extends the one before, and every
-- permit that is used or gained is paid for by the newest record.
mod Replacing
use Prim.Native.Nat.{ℕ}
use mathlib.Core.Path.{subst, subst₂}
use scribe_drop.Common.{
  ◌+◌, ◌≤◌, ◌≡◌, refl, ap, sym, ◌∙◌, inl, inr, String, Bool, true, false, [], ◌∷◌, some, ◌is◌,
  is_iff, arith, All, All-keep,
}
use scribe_drop.Common.Assoc.{lookup, put}
use scribe_drop.Controller.Record.{ControlRecord}
use scribe_drop.Controller.Store.{
  ControlStore, AdmitCreateInput, AdmitCreateResult, get, list_unclean,
}
use scribe_drop.Controller.Store.Outcomes.{
  Replaced, compare_and_set-Replaced, Admission, admit_create-Admission, admitted_record, Claim,
  claim_request-Claim,
}
use scribe_drop.Controller.Program.{Call, Answer}
use scribe_drop.Controller.System.{Answers}
use scribe_drop.Controller.Safety.History.{
  History, In, Kind, Change, In-newest, attempts_of, bit, runs_of,
}
use scribe_drop.Controller.Safety.Logic.{Guard, Knows, Justified, Admitted, with_create, with_run}
use scribe_drop.Common.Filed.{values-Filed}
use scribe_drop.Controller.Store.{new_record}
use scribe_drop.Controller.Safety.Stored.{
  Stored, Advanced, All-Knows, same, get-Got, Claimed-of, Admitted-none, Stored-same, spend,
  Stored-other, Stored-more, empty_of_newest, Falls-empty,
}
use scribe_drop.Controller.Safety.Answered.Replacing.{Replaced-Advanced}

module _ (h : String) (mine : Bool) where
  admit-Advanced :
      (s s' : ControlStore) (H : History) (c r : ℕ) (i : AdmitCreateInput) (a : AdmitCreateResult)
      → Stored h s H
      → Admission s i (s', a)
      → Advanced h mine H c r (Call.admit_create i) tt a s'
  unfolding new_record
  admit-Advanced s s' H c r i a st (inl (e, refused)) = (
    H,
    c,
    r,
    same h mine H,
    (refl, refl, Admitted-none h mine H i.identity.execution_handle a refused),
    Stored-same h mine s s' H (ap (λ t. t.records) e) st,
    omega arith,
    omega arith,
  )
  admit-Advanced s s' H c r i a st (inr (e, missing, _, recs, _)) =
      go (i.identity.execution_handle is h) refl
    where
      x : ControlRecord
      x = admitted_record s i

      go :
          (b : Bool)
          → (i.identity.execution_handle is h) ≡ b
          → Advanced h mine H c r (Call.admit_create i) tt a s'
      go true ours =
          let empty =
            empty_of_newest h mine H
              (sym st.kept ∙ ap (λ k. lookup k s.records) (sym ((is_iff _ _).0 ours)) ∙ missing) in
          (
            x ∷ H,
            c,
            r,
            (λ y k. inr k),
            (
              refl,
              refl,
              subst (Admitted h mine (x ∷ H) i.identity.execution_handle) (sym e)
                  ((λ _. inl refl), refl, refl),
            ),
            Stored-more h mine s s' H i.identity.execution_handle x recs refl ours
                (Falls-empty h mine 1 H empty) (omega arith) st,
            omega (arith, ap attempts_of empty),
            omega (arith, ap runs_of empty),
          )
      go false other = (
        H,
        c,
        r,
        same h mine H,
        (
          refl,
          refl,
          subst (Admitted h mine H i.identity.execution_handle) (sym e)
              ((λ k. absurd (cc ((is_iff i.identity.execution_handle h).1 k))), refl, refl),
        ),
        Stored-other h mine s s' H i.identity.execution_handle x recs refl other st,
        omega arith,
        omega arith,
      )

  -- A call that changes no record.
  quiet-Stored : (s s' : ControlStore) (H : History) → s' ≡ s → Stored h s H → Stored h s' H
  quiet-Stored s s' H e st = Stored-same h mine s s' H (ap (λ t. t.records) e) st

  pub answered :
      (s s' : ControlStore) (H : History) (c r : ℕ) (q : Call) (g : Guard h mine H c r q)
      (a : Answer q)
      → Stored h s H
      → Answers s q a s'
      → Advanced h mine H c r q g a s'
  unfolding get list_unclean
  answered s s' H c r (Call.admit_create i) g a st (e, e') =
      admit-Advanced s s' H c r i a st
        (subst₂ (λ b t. Admission s i (t, b)) (sym e) (sym e') (admit_create-Admission s i))
  answered s s' H c r (Call.claim_request i) g a st (e, e') =
      let claim : Claim s i (s', a) =
        subst₂ (λ b t. Claim s i (t, b)) (sym e) (sym e') (claim_request-Claim s i) in
      (
        H,
        c,
        r,
        same h mine H,
        (refl, refl, Claimed-of h mine s H i.identity.execution_handle a st claim.2),
        Stored-same h mine s s' H claim.0 st,
        omega arith,
        omega arith,
      )
  answered s s' H c r (Call.compare_and_set v n) g a st (e, e') =
      Replaced-Advanced h mine s s' H c r v n g a st
        (subst₂ (λ b t. Replaced s v n (t, b)) (sym e) (sym e') (compare_and_set-Replaced s v n))
  answered s s' H c r (Call.get k) g a st (e, e') = (
    H,
    c,
    r,
    same h mine H,
    (refl, refl, get-Got h mine s H k a st (sym e)),
    quiet-Stored s s' H e' st,
    omega arith,
    omega arith,
  )
  answered s s' H c r (Call.list_unclean env) g a st (e, e') = (
    H,
    c,
    r,
    same h mine H,
    (
      refl,
      refl,
      subst (All (Knows h mine H)) (sym e) (
          All-Knows h mine s H _ st
            (All-keep _ _ _ (values-Filed (λ r. r.execution_handle) s.records st.filed))),
    ),
    quiet-Stored s s' H e' st,
    omega arith,
    omega arith,
  )
  answered s s' H c r (Call.create_job j m) g a st e = (
    H,
    _,
    r,
    same h mine H,
    (refl, refl),
    quiet-Stored s s' H e st,
    spend h mine (m.execution_handle is h) c (attempts_of H) g,
    omega arith,
  )
  answered s s' H c r (Call.run_job j) g a st e = (
    H,
    c,
    _,
    same h mine H,
    (refl, refl),
    quiet-Stored s s' H e st,
    omega arith,
    spend h mine mine r (runs_of H) g,
  )
  answered s s' H c r _ g a st e =
      (H, c, r, same h mine H, (refl, refl), quiet-Stored s s' H e st, omega arith, omega arith)
