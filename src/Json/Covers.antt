-- ===== src/Json/Covers.antt =====
-- What a checkpoint and a log hold of a run, job by job and but for stamps: `w` is the run as the
-- updates that are written leave it, and `made` the updates that the main goroutine has made since.
use jorb.Base.{
  ◌≡◌, refl, sym, ap, ◌∙◌, ◌⊎◌, inl, inr, String, ◌==◌, eq_iff, true, false, Option, some, List, [],
  ◌∷◌, ◌++◌, All, All-split, Bool-cases, lookup, arith,
}
use jorb.Job.{Job, Time}
use jorb.Run.{Run, update_job}
use jorb.Json.Replay.{unstamped, overlay, overlay-append, overlay-unstamped, update_job-lookup}

-- No two updates are of the same job.
abbrev pub DistinctJobs : {C : Type 0} → List (Job C) → Type 0
DistinctJobs [] = Unit
DistinctJobs (j ∷ js) = All (λ i. (j.id == i.id) ≡ false) js × DistinctJobs js

-- The log has no update of the job.
abbrev pub Absent : {C : Type 0} → String → List (Job C) → Type 0
Absent {C} k js = (o : Option (Job C)) → overlay k o js ≡ o

module _ {C : Type 0} where
  pub others-Absent :
      (j : Job C) (k : String) (js : List (Job C))
      → (j.id == k) ≡ true
      → All (λ i. (j.id == i.id) ≡ false) js
      → Absent k js
  others-Absent j k [] e a o = refl
  others-Absent j k (i ∷ js) e a o =
      let ne : (i.id == k) ≡ false =
        ground (arith, a.0, eq_iff j.id k, eq_iff i.id k, eq_iff j.id i.id) in
      rw ne (others-Absent j k js e a.1 o)

  -- Of two parts of a list of distinct updates, at most one has an update of the job.
  pub Absent-either :
      (k : String) (xs ys : List (Job C)) → DistinctJobs (xs ++ ys) → Absent k xs ⊎ Absent k ys
  Absent-either k [] ys d = inl (λ o. refl)
  Absent-either k (x ∷ xs) ys d = elim (Bool-cases (x.id == k)) [
    | inl same ↦ inr (others-Absent x k ys same (All-split _ xs ys d.0).1)
    | inr other ↦ elim (Absent-either k xs ys d.1) [
      | inl absent ↦ inl (λ o. rw other (absent o))
      | inr absent ↦ inr absent
    ]
  ]

  appended_self :
      (k : String) (o : Option (Job C)) (log : List (Job C)) (j : Job C)
      → (j.id == k) ≡ true
      → overlay k o (log ++ j ∷ []) ≡ some j
  appended_self k o log j e = overlay-append k o log (j ∷ []) ∙ rw e refl

  appended_other :
      (k : String) (o : Option (Job C)) (log : List (Job C)) (j : Job C)
      → (j.id == k) ≡ false
      → overlay k o (log ++ j ∷ []) ≡ overlay k o log
  appended_other k o log j e = overlay-append k o log (j ∷ []) ∙ rw e refl

module _ {OC C : Type 0} where
  -- The job is in `c` as it was written last, or as it is in memory.
  abbrev pub Between : Run OC C → List (Job C) → Run OC C → String → Type 0
  Between w made c k =
      (unstamped (lookup k c.jobs) ≡ unstamped (lookup k w.jobs))
      ⊎ (unstamped (lookup k c.jobs) ≡ unstamped (overlay k (lookup k w.jobs) made))

  -- What a restart from `c` and `log` finds of the job is `Between`, and stays so when `c` is replaced.
  abbrev pub Covers : Run OC C → List (Job C) → Run OC C → List (Job C) → String → Type 0
  Covers w made c log k =
      ((o : Option (Job C)) → unstamped (overlay k o log) ≡ unstamped (lookup k w.jobs))
      ⊎ (Absent k log × Between w made c k)

  -- More updates in memory.
  pub Between-made :
      (w c : Run OC C) (made us : List (Job C)) (k : String)
      → DistinctJobs (made ++ us)
      → Between w made c k
      → Between w (made ++ us) c k
  Between-made w c made us k d (inl e) = inl e
  Between-made w c made us k d (inr e) = elim (Absent-either k made us d) [
    | inl absent ↦ inl (e ∙ ap unstamped (absent _))
    | inr absent ↦ inr (e ∙ sym (ap unstamped (overlay-append k _ made us ∙ absent _)))
  ]

  pub Covers-made :
      (w c : Run OC C) (made us log : List (Job C)) (k : String)
      → DistinctJobs (made ++ us)
      → Covers w made c log k
      → Covers w (made ++ us) c log k
  Covers-made w c made us log k d (inl h) = inl h
  Covers-made w c made us log k d (inr (a, b)) = inr (a, Between-made w c made us k d b)

  -- The oldest of the updates is written.
  pub Between-written :
      (now : Time) (w c : Run OC C) (j : Job C) (made : List (Job C)) (k : String)
      → (j.id == k) ≡ false
      → Between w (j ∷ made) c k
      → Between (update_job now w j) made c k
  Between-written now w c j made k ne (inl e) =
      inl (e ∙ sym (update_job-lookup now w j k ∙ rw ne refl))
  Between-written now w c j made k ne (inr e) =
      inr
        (e ∙ rw ne (sym (overlay-unstamped k _ _ made (update_job-lookup now w j k ∙ rw ne refl))))

  pub Covers-written :
      (now : Time) (w c : Run OC C) (j : Job C) (made log : List (Job C)) (k : String)
      → Covers w (j ∷ made) c log k
      → Covers (update_job now w j) made c (log ++ j ∷ []) k
  Covers-written now w c j made log k h = elim (Bool-cases (j.id == k)) [
    | inl same ↦ inl (λ o.
        ap unstamped (appended_self k o log j same)
        ∙ sym (update_job-lookup now w j k ∙ rw same refl))
    | inr other ↦ elim h [
      | inl hides ↦ inl (λ o.
          ap unstamped (appended_other k o log j other)
          ∙ hides o
          ∙ sym (update_job-lookup now w j k ∙ rw other refl))
      | inr (a, b) ↦
          inr (λ o. appended_other k o log j other ∙ a o, Between-written now w c j made k other b)
    ]
  ]

  -- A checkpoint takes the place of another, and the log of one that has it all is dropped.
  pub Covers-published :
      (w c c' : Run OC C) (made log : List (Job C)) (k : String)
      → Between w made c' k
      → Covers w made c log k
      → Covers w made c' log k
  Covers-published w c c' made log k b (inl h) = inl h
  Covers-published w c c' made log k b (inr (a, b')) = inr (a, b)

  -- What a restart finds.
  pub Covers-Between :
      (w c v : Run OC C) (made log : List (Job C)) (k : String)
      → unstamped (lookup k v.jobs) ≡ unstamped (overlay k (lookup k c.jobs) log)
      → Covers w made c log k
      → Between w made v k
  Covers-Between w c v made log k e (inl hides) = inl (e ∙ hides _)
  Covers-Between w c v made log k e (inr (absent, inl b)) = inl (e ∙ ap unstamped (absent _) ∙ b)
  Covers-Between w c v made log k e (inr (absent, inr b)) = inr (e ∙ ap unstamped (absent _) ∙ b)

  -- What was found is what the files hold.
  pub Covers-found :
      (w c v : Run OC C) (made log : List (Job C)) (k : String)
      → unstamped (lookup k v.jobs) ≡ unstamped (overlay k (lookup k c.jobs) log)
      → Covers w made c log k
      → Covers v [] c log k
  Covers-found w c v made log k e (inl hides) = inl (λ o. hides o ∙ sym (e ∙ hides _))
  Covers-found w c v made log k e (inr (absent, b)) =
      inr (absent, inl (sym (e ∙ ap unstamped (absent _))))
