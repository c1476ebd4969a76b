-- ===== src/Controller/Safety/Stored.antt =====
-- How the store stands to the history of the watched handle, and what answers of it tell.
use Prim.Native.Nat.{ℕ}
use mathlib.Core.Path.{subst}
use scribe_drop.Common.{
  ◌+◌, ◌-◌, ◌<◌, ◌≤◌, ◌≡◌, refl, ap, sym, ◌∙◌, inl, String, Bool, true, false, List, [], ◌∷◌,
  Option, none, some, ◌is◌, arith, All, if◌then◌else◌,
}
use scribe_drop.Common.Assoc.{lookup, put, lookup-put}
use scribe_drop.Controller.Record.{ControlRecord}
use scribe_drop.Controller.Store.{ControlStore, AdmitCreateResult, ClaimRequestResult}
use scribe_drop.Controller.Store.Outcomes.{accepted_of, accepted_of}
use scribe_drop.Controller.Program.{Call, Answer}
use scribe_drop.Controller.System.{creates_job}
use scribe_drop.Controller.Safety.History.{
  History, In, Extends, Falls, Falling, attempts_of, runs_of, newest,
}
use scribe_drop.Controller.Safety.Logic.{Guard, Effect, Knows, Admitted, Claimed, Got}
use scribe_drop.Common.Filed.{Filed, put-Filed, lookup-Filed}

pub record Stored (h : String) (s : ControlStore) (H : History) : Type 0 where
  pub filed : Filed (λ r. r.execution_handle) s.records
  pub kept : lookup h s.records ≡ newest H
  pub falling : Falling H
  pub few : attempts_of H ≤ 2

-- How much a call uses up.
abbrev pub cost : Bool → ℕ
cost true = 1
cost false = 0

abbrev pub run_cost : Bool → Call → ℕ
run_cost mine (Call.run_job j) = cost mine
run_cost mine _ = 0

module _ (h : String) (mine : Bool) where
  abbrev pub Advanced :
      (H : History) (c r : ℕ) (q : Call) → Guard h mine H c r q → Answer q → ControlStore → Type 0
  Advanced H c r q g a s' =
      (H' : History) × (c' r' : ℕ) × Extends H H'
      × Effect h mine H c r q g a H' c' r'
      × Stored h s' H'
      × (cost (creates_job h q) + c' + attempts_of H ≤ c + attempts_of H')
      × (run_cost mine q + r' + runs_of H ≤ r + runs_of H')

  pub In-of_newest : (H : History) (x : ControlRecord) → newest H ≡ some x → In x H
  In-of_newest [] x e = cc
  In-of_newest (y ∷ ys) x e = inl (cc)

  pub found-Knows :
      (s : ControlStore) (H : History) (x : ControlRecord)
      → Stored h s H
      → lookup x.execution_handle s.records ≡ some x
      → Knows h mine H x
  found-Knows s H x st e named =
      In-of_newest H x (sym st.kept ∙ ap (λ k. lookup k s.records) (sym named) ∙ e)

  pub All-Knows :
      (s : ControlStore) (H : History) (xs : List ControlRecord)
      → Stored h s H
      → All (λ x. lookup x.execution_handle s.records ≡ some x) xs
      → All (Knows h mine H) xs
  All-Knows s H [] st a = tt
  All-Knows s H (x ∷ xs) st (p, a) = (found-Knows s H x st p, All-Knows s H xs st a)

  pub same : (H : History) → Extends H H
  same H r i = i

  pub get-Got :
      (s : ControlStore) (H : History) (k : String) (o : Option ControlRecord)
      → Stored h s H
      → lookup k s.records ≡ o
      → Got h mine H k o
  get-Got s H k none st e = tt
  get-Got s H k (some x) st e =
      let named = lookup-Filed (λ r. r.execution_handle) k x s.records st.filed e in
      (found-Knows s H x st (ap (λ j. lookup j s.records) named ∙ e), named)

  pub Claimed-of :
      (s : ControlStore) (H : History) (k : String) (a : ClaimRequestResult)
      → Stored h s H
      → ((x : ControlRecord) → a ≡ ClaimRequestResult.accepted x → lookup k s.records ≡ some x)
      → Claimed h mine H k a
  Claimed-of s H k (ClaimRequestResult.accepted x) st f =
      let e = f x refl in
      let named = lookup-Filed (λ r. r.execution_handle) k x s.records st.filed e in
      (found-Knows s H x st (ap (λ j. lookup j s.records) named ∙ e), named)
  Claimed-of s H k _ st f = tt

  pub Admitted-none :
      (H : History) (k : String) (a : AdmitCreateResult)
      → accepted_of a ≡ none
      → Admitted h mine H k a
  Admitted-none H k (AdmitCreateResult.accepted x) f = cc
  Admitted-none H k _ f = tt

  pub Stored-same :
      (s s' : ControlStore) (H : History) → s'.records ≡ s.records → Stored h s H → Stored h s' H
  Stored-same s s' H e st = record {
    filed = subst (Filed (λ r. r.execution_handle)) (sym e) st.filed;
    kept = ap (lookup h) e ∙ st.kept;
    falling = st.falling;
    few = st.few;
  }

  pub spend :
      (b : Bool) (c n : ℕ) → (b ≡ true → 0 < c) → cost b + (if b then c - 1 else c) + n ≤ c + n
  spend true c n f = omega (arith, f refl)
  spend false c n f = omega arith

  -- A record that comes in under another handle leaves the watched one.
  pub Stored-other :
      (s s' : ControlStore) (H : History) (k : String) (x : ControlRecord)
      → s'.records ≡ put k x s.records
      → x.execution_handle ≡ k
      → (k is h) ≡ false
      → Stored h s H
      → Stored h s' H
  Stored-other s s' H k x e named other st = record {
    filed =
        subst (Filed (λ r. r.execution_handle)) (sym e)
          (put-Filed (λ r. r.execution_handle) k x s.records named st.filed);
    kept =
        ap (lookup h) e
        ∙ lookup-put k h x s.records
        ∙ ap (λ b. if b then some x else lookup h s.records) other
        ∙ st.kept;
    falling = st.falling;
    few = st.few;
  }

  pub Stored-more :
      (s s' : ControlStore) (H : History) (k : String) (x : ControlRecord)
      → s'.records ≡ put k x s.records
      → x.execution_handle ≡ k
      → (k is h) ≡ true
      → Falls x.version H
      → x.create_attempts ≤ 2
      → Stored h s H
      → Stored h s' (x ∷ H)
  Stored-more s s' H k x e named ours falls few st = record {
    filed =
        subst (Filed (λ r. r.execution_handle)) (sym e)
          (put-Filed (λ r. r.execution_handle) k x s.records named st.filed);
    kept =
        ap (lookup h) e
        ∙ lookup-put k h x s.records
        ∙ ap (λ b. if b then some x else lookup h s.records) ours;
    falling = falls;
    few = few;
  }

  pub empty_of_newest : (H : History) → newest H ≡ none → H ≡ []
  empty_of_newest [] e = refl
  empty_of_newest (x ∷ H) e = cc

  pub Falls-empty : (n : ℕ) (H : History) → H ≡ [] → Falls n H
  Falls-empty n H e = subst (Falls n) (sym e) tt
