-- ===== src/Tests/Runs.antt =====
-- Witnesses for runs and jobs.
use jorb.Base.{
  ◌↔◌, length, All, ℕ, ◌≡◌, refl, String, ◌==◌, true, false, none, some, List, [], ◌∷◌, ◌≢◌, ◌↔◌,
  lookup, insert, All, Distinct, suc, length, eqb, arith,
}
use jorb.Job.{Job, truncate, millisecond}
use jorb.Run.{Run, Draw, bytes, failed, generate_job_id, fresh_id, add_job_with_state, equal}
use jorb.Run.Adding.{fresh_id-eq-none_iff, add_job_with_state_lem}
use jorb.Run.Equal.{equal_iff, Counterpart}
use jorb.Tests.Config.{job_in}

abbrev run : Run Unit ℕ
run = record { name = "run"; jobs = ("0000002a", job_in "0000002a" "new") ∷ []; overall = tt }

-- The bytes 0, 0, 0, 42 make the id 0000002a, which is taken; 255, 0, 1, 2 do not.
generate_job_id_run : generate_job_id (bytes 255 0 1 42) ≡ "ff00012a"
unfolding generate_job_id
generate_job_id_run = refl

fresh_id-eq-none_iff_example :
    (fresh_id run.jobs (bytes 0 0 0 42 ∷ []) ≡ none)
    ↔ All (λ d. lookup (generate_job_id d) run.jobs ≢ none) (bytes 0 0 0 42 ∷ [])
fresh_id-eq-none_iff_example = fresh_id-eq-none_iff run.jobs (bytes 0 0 0 42 ∷ [])

abbrev draws : List Draw
draws = bytes 0 0 0 42 ∷ failed 4_294_967_299 ∷ []

abbrev added : Job ℕ
added = record {
  id = "00000003";
  c = 9;
  state = "new";
  state_errors = some [];
  last_update = some 5_000_000;
}

abbrev grown : Run Unit ℕ
grown = record {
  name = "run";
  jobs = ("0000002a", job_in "0000002a" "new") ∷ ("00000003", added) ∷ [];
  overall = tt;
}

grows : add_job_with_state 5_999_999 draws run 9 "new" ≡ some grown
unfolding add_job_with_state generate_job_id lookup insert
grows = refl

add_job_with_state_lem_example :
    (id : String) × (lookup id run.jobs ≡ none)
    × (lookup id grown.jobs
        ≡ some (record {
          id = id;
          c = 9;
          state = "new";
          state_errors = some [];
          last_update = some (truncate 5_999_999 millisecond);
        }))
    × ((k : String) → (id == k) ≡ false → lookup k grown.jobs ≡ lookup k run.jobs)
    × (length grown.jobs ≡ suc (length run.jobs))
add_job_with_state_lem_example =
    add_job_with_state_lem 5_999_999 draws run 9 "new" {t = grown} grows

eqb_refl : (n : ℕ) → eqb n n ≡ true
eqb_refl n = ground arith

grown-Distinct : Distinct grown.jobs
unfolding lookup
grown-Distinct = (refl, (refl, tt))

-- The same run, with the job stamped a millisecond later.
abbrev stamped : Run Unit ℕ
stamped = record {
  name = "run";
  jobs =
      ("00000003", record added { last_update = some 6_000_000 })
      ∷ ("0000002a", job_in "0000002a" "new")
      ∷ [];
  overall = tt;
}

equal_iff_example : (equal eqb grown stamped ≡ true) ↔ (
    (grown.name ≡ stamped.name)
    × (length grown.jobs ≡ length stamped.jobs)
    × All
        (λ (k, j). (j' : Job ℕ) × (lookup k stamped.jobs ≡ some j') × Counterpart eqb j j')
        grown.jobs)
equal_iff_example = equal_iff eqb grown stamped

stamps_agree : equal eqb grown stamped ≡ true
unfolding equal lookup
stamps_agree = refl
