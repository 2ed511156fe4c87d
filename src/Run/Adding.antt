-- ===== src/Run/Adding.antt =====
-- What adding and updating a job does to a run.
use mathlib.Core.Option.{some-injective}
use jorb.Base.{
  suc, ◌≡◌, refl, sym, ◌∙◌, ◌≢◌, ◌↔◌, String, ◌==◌, false, Option, none, some, List, [], ◌∷◌, Dict,
  lookup, insert, lookup-insert_self, lookup-insert_ne, length, All, arith, ap, inl, inr,
  Option-cases,
}
use jorb.Job.{Job, Time, update_last_event, truncate, millisecond}
use jorb.Run.{Run, Draw, generate_job_id, fresh_id, update_job, add_job_with_state}

length-insert_new :
    {V : Type 0} (k : String) (v : V) (m : Dict V)
    → lookup k m ≡ none
    → length (insert k v m) ≡ suc (length m)
unfolding insert lookup
length-insert_new k v [] h = refl
length-insert_new k v (e ∷ m) h = ground (arith, length-insert_new k v m)

fresh_id-new :
    {C : Type 0} (jobs : Dict (Job C)) (ds : List Draw) {id : String}
    → fresh_id jobs ds ≡ some id
    → lookup id jobs ≡ none
unfolding fresh_id
fresh_id-new jobs [] e = cc
fresh_id-new jobs (d ∷ ds) {id} e = ground (arith, fresh_id-new jobs ds {id = id})

-- The search for an id fails exactly when each draw makes an id that a job has.
pub fresh_id-eq-none_iff :
    {C : Type 0} (jobs : Dict (Job C)) (ds : List Draw)
    → (fresh_id jobs ds ≡ none) ↔ All (λ d. lookup (generate_job_id d) jobs ≢ none) ds
unfolding fresh_id
fresh_id-eq-none_iff jobs [] = (λ e. tt, λ a. refl)
fresh_id-eq-none_iff jobs (d ∷ ds) =
    let (there, back) = fresh_id-eq-none_iff jobs ds in
    (λ e. ground (arith, there), λ a. ground (arith, back))

module _ {OC C : Type 0} where
  -- `add_job_with_state` once the search for an id is over.
  abbrev taken : Time → Run OC C → C → String → Option String → Option (Run OC C)
  taken now r c state none = none
  taken now r c state (some id) = some (record r {
    jobs =
        insert id
          (record {
            id = id;
            c = c;
            state = state;
            state_errors = some [];
            last_update = some (truncate now millisecond);
          })
          r.jobs;
  })

  -- A job that is added has an id that no job had, its context and state, no errors and a stamp in whole
  -- milliseconds; every other job is as it was, and the run has one job more.
  pub add_job_with_state_lem :
      (now : Time) (draws : List Draw) (r : Run OC C) (c : C) (state : String) {t : Run OC C}
      → add_job_with_state now draws r c state ≡ some t
      → (id : String) × (lookup id r.jobs ≡ none)
        × (lookup id t.jobs
            ≡ some (record {
              id = id;
              c = c;
              state = state;
              state_errors = some [];
              last_update = some (truncate now millisecond);
            }))
        × ((k : String) → (id == k) ≡ false → lookup k t.jobs ≡ lookup k r.jobs)
        × (length t.jobs ≡ suc (length r.jobs))
  unfolding add_job_with_state update_last_event
  add_job_with_state_lem now draws r c state {t} e = elim (Option-cases (fresh_id r.jobs draws)) [
    | inl out ↦ cc (ap (taken now r c state) out)
    | inr (id, found) ↦
        let is_new = fresh_id-new r.jobs draws found in
        let result : t ≡ _ = some-injective _ _ (sym e ∙ ap (taken now r c state) found) in
        (
          id,
          is_new,
          rw result (lookup-insert_self id _ r.jobs),
          λ k ne. rw result (lookup-insert_ne id k _ r.jobs ne),
          rw result (length-insert_new id _ r.jobs is_new),
        )
  ]

  -- An update writes the job under its id, with a new stamp, and leaves every other job.
  update_job_lem :
      (now : Time) (r : Run OC C) (j : Job C)
      → (lookup j.id (update_job now r j).jobs ≡ some (update_last_event now j))
        × ((k : String)
            → (j.id == k) ≡ false
            → lookup k (update_job now r j).jobs ≡ lookup k r.jobs)
  unfolding update_job
  update_job_lem now r j =
      (lookup-insert_self j.id _ r.jobs, λ k ne. lookup-insert_ne j.id k _ r.jobs ne)
