-- ===== src/Controller/Safety/Threads.antt =====
-- The threads together: each is safe with its permits, and the permits add up.
use scribe_drop.Common.{
  ℕ, ◌+◌, ◌≡◌, refl, inl, inr, String, Bool, true, false, List, [], ◌∷◌, ◌++◌, arith,
}
use scribe_drop.Controller.Record.{ControlRecord}
use scribe_drop.Controller.Program.{Call, Answer, Program, done, fail, ask}
use scribe_drop.Controller.System.{Thread, Outcome, owned_by}
use scribe_drop.Controller.Safety.History.{History, Extends}
use scribe_drop.Controller.Safety.Logic.{Safe, Guard, Effect, Justified, CasEffect, Anything}

module _ (h : String) where
  Justified-Extends :
      (mine : Bool) (H H' : History) (v : ℕ) (n : ControlRecord)
      → Extends H H'
      → Justified h mine H v n
      → Justified h mine H' v n
  Justified-Extends mine H H' v n ext (inl other) = inl other
  Justified-Extends mine H H' v n ext (inr (x, kind, ours, known, e, change)) =
      inr (x, kind, ours, ext x known, e, change)

  Guard-Extends :
      (mine : Bool) (H H' : History) (c r : ℕ) (q : Call)
      → Extends H H'
      → Guard h mine H c r q
      → Guard h mine H' c r q
  Guard-Extends mine H H' c r (Call.compare_and_set v n) ext g =
      Justified-Extends mine H H' v n ext g
  Guard-Extends mine H H' c r (Call.create_job j m) ext g = g
  Guard-Extends mine H H' c r (Call.run_job j) ext g = g
  Guard-Extends mine H H' c r _ ext g = tt

  CasEffect-Extends :
      (mine : Bool) (H H' : History) (c r v : ℕ) (n : ControlRecord) (ext : Extends H H')
      (g : Justified h mine H v n) (a : Bool) (H'' : History) (c' r' : ℕ)
      → CasEffect h mine H' c r v n (Justified-Extends mine H H' v n ext g) a H'' c' r'
      → CasEffect h mine H c r v n g a H'' c' r'
  unfolding Justified-Extends
  CasEffect-Extends mine H H' c r v n ext (inl other) a H'' c' r' eff = eff
  CasEffect-Extends mine H H' c r v n ext (inr x) true H'' c' r' eff = eff
  CasEffect-Extends mine H H' c r v n ext (inr x) false H'' c' r' eff = eff

  Effect-Extends :
      (mine : Bool) (H H' : History) (c r : ℕ) (q : Call) (ext : Extends H H')
      (g : Guard h mine H c r q) (a : Answer q) (H'' : History) (c' r' : ℕ)
      → Effect h mine H' c r q (Guard-Extends mine H H' c r q ext g) a H'' c' r'
      → Effect h mine H c r q g a H'' c' r'
  unfolding Guard-Extends
  Effect-Extends mine H H' c r (Call.compare_and_set v n) ext g a H'' c' r' eff =
      CasEffect-Extends mine H H' c r v n ext g a H'' c' r' eff
  Effect-Extends mine H H' c r _ ext g a H'' c' r' eff = eff

  -- What a thread knows it still knows when others have moved on.
  pub Safe-Extends :
      (mine : Bool) (H H' : History) (c r : ℕ) (p : Program Outcome)
      → Extends H H'
      → Safe h mine Anything H c r p
      → Safe h mine Anything H' c r p
  Safe-Extends mine H H' c r (done a) ext s = tt
  Safe-Extends mine H H' c r (fail e) ext s = s
  Safe-Extends mine H H' c r (ask q k) ext (g, s) = (
    Guard-Extends mine H H' c r q ext g,
    λ a H'' c' r' ext' eff.
        s a H'' c' r' (λ x i. ext' x (ext x i))
          (Effect-Extends mine H H' c r q ext g a H'' c' r' eff),
  )

  abbrev pub SafeThread : History → ℕ → ℕ → Thread → Type 0
  SafeThread H c r t = Safe h (owned_by h t.owner) Anything H c r t.program

  abbrev pub Threads : History → ℕ → ℕ → List Thread → Type 0
  Threads H C R [] = (C ≡ 0) × (R ≡ 0)
  Threads H C R (t ∷ ts) =
      (c r C' R' : ℕ) × (C ≡ c + C') × (R ≡ r + R') × SafeThread H c r t × Threads H C' R' ts

  pub Threads-Extends :
      (H H' : History) (C R : ℕ) (ts : List Thread)
      → Extends H H'
      → Threads H C R ts
      → Threads H' C R ts
  Threads-Extends H H' C R [] ext ks = ks
  Threads-Extends H H' C R (t ∷ ts) ext (c, r, C', R', e, e', s, ks) = (
    c,
    r,
    C',
    R',
    e,
    e',
    Safe-Extends (owned_by h t.owner) H H' c r t.program ext s,
    Threads-Extends H H' C' R' ts ext ks,
  )

  -- One thread among the others: its permits, and what replaces it.
  abbrev pub Among : History → ℕ → ℕ → List Thread → Thread → List Thread → Type 0
  Among H C R before t after =
      (c r C' R' : ℕ) × (C ≡ c + C')
      × (R ≡ r + R')
      × SafeThread H c r t
      × ((H' : History) (c' r' : ℕ) (u : Thread)
          → Extends H H'
          → SafeThread H' c' r' u
          → Threads H' (c' + C') (r' + R') (before ++ u ∷ after))

  pub Threads-Among :
      (H : History) (C R : ℕ) (before : List Thread) (t : Thread) (after : List Thread)
      → Threads H C R (before ++ t ∷ after)
      → Among H C R before t after
  Threads-Among H C R [] t after (c, r, C', R', e, e', s, ks) = (
    c,
    r,
    C',
    R',
    e,
    e',
    s,
    λ H' c' r' u ext s'. (c', r', C', R', refl, refl, s', Threads-Extends H H' C' R' after ext ks),
  )
  Threads-Among H C R (b ∷ before) t after (c, r, C1, R1, e, e', s, ks) =
      let (ct, rt, C2, R2, et, et', st, replace) = Threads-Among H C1 R1 before t after ks in
      (
        ct,
        rt,
        c + C2,
        r + R2,
        omega arith,
        omega arith,
        st,
        λ H' c' r' u ext s'. (
          c,
          r,
          c' + C2,
          r' + R2,
          omega arith,
          omega arith,
          Safe-Extends (owned_by h b.owner) H H' c r b.program ext s,
          replace H' c' r' u ext s',
        ),
      )
