-- ===== src/Json/Survival.antt =====
-- An update from the call that appends it to the start that reads it.
use mathlib.Core.List.{append-nil}
use text.Mathlib.TextPositions.{eq_refl}
use jorb.Base.{
  ℕ, ◌≡◌, refl, sym, ap, ◌∙◌, subst, inl, inr, true, none, some, List, [], ◌∷◌, ◌++◌, lookup,
}
use jorb.Job.{Job, Time}
use jorb.Run.{Run, update_job}
use jorb.Json.{Codec, RoundTrips}
use jorb.Json.Replay.{unstamped, overlay, update_job-lookup}
use jorb.Json.Covers.{DistinctJobs, others-Absent}
use jorb.Json.Disk.{Store, done, environment, syscall}
use jorb.Json.Start.{job_update, new_json_serializer}
use jorb.Json.Durable.{Sound, to_come}
use jorb.Json.Appending.{Alone, with_line, appended-After}
use jorb.Json.Restart.{restarted}
use jorb.Json.Unfailing.{opened}
use jorb.Json.Returns.{new_json_serializer_returns}

module _ {Line OC C : Type 0} (codec : Codec Line C) (laws : RoundTrips codec) (now : ℕ → ℕ → Time)
    (overall : OC) where
  job_update_returns :
      (cut : Line → Line) (j : Job C) (s : Store Line OC C)
      → s.append_file ≡ true
      → s.events ≡ []
      → job_update codec cut j s ≡ (done tt, with_line codec j s)
  unfolding job_update environment syscall
  job_update_returns cut j s is_open idle = rw is_open (rw idle refl)

  -- With one update still to be written, the oldest, the job is as that update has it.
  updated_job :
      (w : Run OC C) (t : Time) (j : Job C) (rest : List (Job C)) (s : Store Line OC C)
      → DistinctJobs (j ∷ rest)
      → Sound codec (update_job t w j) rest (update_job t w j) s
      → s.events ≡ []
      → (unstamped (lookup j.id (update_job t w j).jobs) ≡ unstamped (some j))
        × (unstamped (lookup j.id s.run.jobs) ≡ unstamped (some j))
  updated_job w t j rest s distinct h idle =
      let all_made : h.made ≡ rest =
        sym (append-nil h.made) ∙ ap (λ x. h.made ++ to_come x) (sym idle) ∙ h.total in
      let written = update_job-lookup t w j j.id ∙ rw (eq_refl j.id) refl in
      (
        written,
        h.memory j.id
            ∙ ap unstamped (ap (λ m. overlay j.id (lookup j.id (update_job t w j).jobs) m) all_made)
            ∙ ap unstamped (others-Absent j j.id rest (eq_refl j.id) distinct.0 _)
            ∙ written,
      )

  -- When the oldest pending update is appended with the handle open, and no call fails, `JobUpdate`
  -- returns without an error, and a start on the files as they are then, in which no call fails, returns
  -- a run in which the job is as the update has it.
  pub appended_update_survives :
      (w : Run OC C) (t : Time) (j : Job C) (rest : List (Job C)) (cut : Line → Line)
      (s : Store Line OC C) (run : Run OC C)
      → DistinctJobs (j ∷ rest)
      → Sound codec w (j ∷ rest) w s
      → s.append_file ≡ true
      → s.events ≡ []
      → ((job_update codec cut j s).0 ≡ done tt)
        × (v : Run OC C) × (new_json_serializer codec now overall
              (restarted (job_update codec cut j s).1.disk run [])
            ≡ (done v, opened v none))
        × (unstamped (lookup j.id v.jobs) ≡ unstamped (some j))
  appended_update_survives w t j rest cut s run distinct h is_open idle =
      let appended = job_update_returns cut j s is_open idle in
      let sound =
        appended-After codec w t j rest distinct s is_open (subst Alone (sym idle) tt) h in
      let (v, header, jobs, starts) =
        new_json_serializer_returns codec laws now overall (update_job t w j) rest
          (with_line codec j s) run sound in
      let (written, in_memory) = updated_job w t j rest (with_line codec j s) distinct sound idle in
      (
        ap (λ x. x.0) appended,
        v,
        subst
            (λ x.
              new_json_serializer codec now overall (restarted x.1.disk run [])
              ≡ (done v, opened v none))
            (sym appended) starts,
        elim (jobs j.id) [ inl e ↦ e ∙ written | inr e ↦ e ∙ in_memory ],
      )
