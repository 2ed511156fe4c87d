-- ===== src/Processor/Launch.antt =====
-- processor.go, the start of `process`: the jobs of the run stand in the lanes or are done.
use mathlib.Core.Option.{some-injective}
use jorb.Base.{
  ◌≡◌, refl, subst, ◌∙◌, ◌⊎◌, inl, inr, Bool-cases, String, true, some, [], ◌∷◌, ◌==◌, Dict, lookup,
  Distinct, All, All-map, eq_iff,
}
use jorb.Effect.{Returns, Returns-bind, Returns-map}
use jorb.Job.{Job}
use jorb.Run.{Run}
use jorb.Storage.{Storage, process_job, is_terminal}
use jorb.Storage.Invariant.{Inv, SameStates}
use jorb.Storage.Holds.{Holds, Admits, process_job-Admits}
use jorb.Processor.Registered.{
  IsRegistered, SameStates-refl, SameStates-trans, IsRegistered-SameStates,
}
use jorb.Processor.Tracking.{Found}
use jorb.Processor.System.{System, count_jobs, count_returns}
use jorb.Processor.Safety.{SystemOk}
use jorb.Processor.Finishing.{Away, Tracked}
use jorb.Processor.Process.{start_jobs}

module _ {E L C : Type 0} where
  -- The job is done, or a lane has it.
  abbrev pub Placed : Storage E L C → Job C → Type 0
  Placed s j = (is_terminal s j ≡ true) ⊎ Holds j.id s

  pub record Started (s t : Storage E L C) (jobs : Dict (Job C)) : Type 0 where
    pub inv : Inv (λ k. 0) t
    pub same : SameStates s t
    pub keeps : (i : String) → Holds i s → Holds i t
    pub placed : All (λ (id, j). Placed t j) jobs

  is_terminal_same :
      (s t : Storage E L C) (j : Job C) → SameStates s t → is_terminal t j ≡ is_terminal s j
  unfolding is_terminal
  is_terminal_same s t j same = rw same.state_map refl

  first-Placed :
      (s t u : Storage E L C) (j : Job C)
      → Admits (λ k. 0) s j t
      → SameStates t u
      → ((i : String) → Holds i t → Holds i u)
      → Placed u j
  first-Placed s t u j x same keeps = elim (Bool-cases (is_terminal s j)) [
    | inl e ↦ inl (is_terminal_same s u j (SameStates-trans x.same same) ∙ e)
    | inr live ↦ inr (keeps j.id (x.adds live))
  ]

  pub start_jobs-Started :
      (s : Storage E L C) (jobs : Dict (Job C))
      → All (λ (id, j). IsRegistered s j.state) jobs
      → Inv (λ k. 0) s
      → Returns (start_jobs s jobs) (λ t. Started s t jobs)
  unfolding start_jobs
  start_jobs-Started s [] a h = record {
    inv = h;
    same = SameStates-refl s;
    keeps = λ i x. x;
    placed = tt;
  }
  start_jobs-Started s ((id, j) ∷ jobs) a h =
      Returns-bind _ _ (process_job s j) _ (process_job-Admits (λ k. 0) s j a.0.0 a.0.1 h) λ t x.
        Returns-map _ _ (start_jobs t jobs)
          (start_jobs-Started t jobs
            (All-map _ _ jobs (λ (id', i). IsRegistered-SameStates i.state x.same) a.1) x.inv)
          λ u y. record {
            inv = y.inv;
            same = SameStates-trans x.same y.same;
            keeps = λ i b. y.keeps i (x.keeps i b);
            placed = (first-Placed s t u j x y.same y.keeps, y.placed);
          }

All-lookup :
    {V : Type 0} (P : String × V → Type 0) (i : String) (v : V) (m : Dict V)
    → All P m
    → lookup i m ≡ some v
    → P (i, v)
unfolding lookup
All-lookup P i v [] a e = cc
All-lookup P i v ((k, w) ∷ m) a e = elim (Bool-cases (k == i)) [
  | inl same ↦
      subst (λ x. P (i, x)) (some-injective w v (rw same at e))
        (subst (λ x. P (x, w)) ((eq_iff k i).0 same) a.0)
  | inr other ↦ All-lookup P i v m a.1 (rw other at e)
]

-- The processor that `Exec` starts: its storage with the jobs of the run, and no goroutine busy.
abbrev pub launched : {E L W OC C : Type 0} → Storage E L C → Run OC C → W → System E L W OC C
launched t run store = record {
  main = record { storage = t; run = run; store = store };
  working = [];
  returning = [];
}

module _ {E L W OC C : Type 0} where
  pub launched-SystemOk :
      (t : Storage E L C) (run : Run OC C) (store : W)
      → Inv (λ k. 0) t
      → SystemOk (launched t run store)
  unfolding count_jobs count_returns
  launched-SystemOk t run store h = record { lanes = h; working = tt; returning = tt }

  pub launched-Tracked :
      (s t : Storage E L C) (run : Run OC C) (store : W)
      → Distinct run.jobs
      → All (λ (id, j). j.id ≡ id) run.jobs
      → Started s t run.jobs
      → Tracked (launched t run store)
  launched-Tracked s t run store d keyed x = record {
    tracks = λ i j e.
        found i j (All-lookup _ i j run.jobs keyed e)
          (All-lookup (λ (id, j). Placed t j) i j run.jobs x.placed e);
    distinct = d;
  }
    where
      found :
          (i : String) (j : Job C)
          → j.id ≡ i
          → Placed t j
          → Found (Away (launched t run store)) t i j
      found i j p (inl e) = inl e
      found i j p (inr h) = inr (inl (subst (λ x. Holds x t) p h))
