-- ===== src/Processor/Dying.antt =====
-- processor.go, `persistAfterCompletion`, on the `JsonSerializer`: what a start finds when an update
-- fails, which ends the program, or when the program dies among the updates.
use mathlib.Core.List.{append-nil}
use jorb.Base.{
  ℕ, ◌≡◌, sym, ap, ◌∙◌, subst, ◌⊎◌, inl, inr, String, Option, none, some, List, [], ◌++◌, lookup,
}
use jorb.Job.{Job, Time}
use jorb.Run.{Run}
use jorb.Json.{Codec, RoundTrips}
use jorb.Json.Replay.{unstamped, overlay, update_all, update_all-lookup}
use jorb.Json.Covers.{DistinctJobs, Absent-either}
use jorb.Json.Disk.{Failure, Store, done}
use jorb.Json.Start.{new_json_serializer}
use jorb.Json.Appending.{Quiet, Quiet-to_come}
use jorb.Json.Durable.{Sound}
use jorb.Json.Restart.{restarted}
use jorb.Json.Unfailing.{opened}
use jorb.Json.Returns.{new_json_serializer_returns}
use jorb.Processor.{Return, persist_after_completion}
use jorb.Processor.Touched.{touched_jobs, touched_jobs-DistinctJobs}
use jorb.Processor.Persisting.{
  sharing, json_serializer, Unwritten, Ended, persist_after_completion-Ended,
}

module _ {Line OC C : Type 0} (codec : Codec Line C) (cut : Line → Line)
    (message : Failure → String) (now : ℕ → Time) (run : Run OC C) where
  -- A start on the files of `t` returns a run with each job as in `w` or as in memory.
  abbrev pub StartsBetween : (ℕ → ℕ → Time) → OC → Run OC C → Run OC C → Store Line OC C → Type 0
  StartsBetween again overall other w t =
      (v : Run OC C) × ((k : String)
        → (unstamped (lookup k v.jobs) ≡ unstamped (lookup k w.jobs))
          ⊎ (unstamped (lookup k v.jobs) ≡ unstamped (lookup k run.jobs)))
      × (new_json_serializer codec again overall (restarted t.disk other [])
          ≡ (done v, opened v none))

  partly_written :
      (laws : RoundTrips codec) (again : ℕ → ℕ → Time) (overall : OC) (other : Run OC C) (n : ℕ)
      (w : Run OC C) (written rest : List (Job C)) (t : Store Line OC C)
      → DistinctJobs (written ++ rest)
      → Unwritten codec cut message now run (update_all now n written w) rest t
      → StartsBetween again overall other w t
  partly_written laws again overall other n w written rest t distinct (h, q) =
      let (v, header, jobs, starts) =
        new_json_serializer_returns codec laws again overall (update_all now n written w) rest
          (sharing run t) other h in
      (v, λ k. between v k (jobs k), starts)
    where
      before : Run OC C
      before = update_all now n written w

      all_made : h.made ≡ rest
      all_made =
          sym (append-nil h.made)
          ∙ ap (λ xs. h.made ++ xs) (sym (Quiet-to_come t.events q))
          ∙ h.total

      between :
          (v : Run OC C) (k : String)
          → (unstamped (lookup k v.jobs) ≡ unstamped (lookup k before.jobs))
            ⊎ (unstamped (lookup k v.jobs) ≡ unstamped (lookup k run.jobs))
          → (unstamped (lookup k v.jobs) ≡ unstamped (lookup k w.jobs))
            ⊎ (unstamped (lookup k v.jobs) ≡ unstamped (lookup k run.jobs))
      between v k (inr e) = inr e
      between v k (inl e) = elim (Absent-either k written rest distinct) [
        | inl absent ↦ inl (e ∙ update_all-lookup now n written w k ∙ ap unstamped (absent _))
        | inr absent ↦ inr (
            e
            ∙ sym (
                h.memory k
                ∙ ap (λ xs. unstamped (overlay k (lookup k before.jobs) xs)) all_made
                ∙ ap unstamped (absent _)))
      ]

  -- Let the updates of a return be in memory, nothing of them on the disk, and what is written be
  -- readable. Whichever calls of the serializer fail, also if the program dies in one, but with no write
  -- of a line cut off part way: a start on the files as they are then, in which no call fails, returns
  -- a run in which each job is as it was written before the return, or as it was in memory. The main
  -- goroutine, which is in the calls, makes no updates. (After a write that is cut off the start fails,
  -- see `Json.Refused.new_json_serializer_of_cut`.)
  pub persist_after_completion_survives :
      (laws : RoundTrips codec) (again : ℕ → ℕ → Time) (overall : OC) (other : Run OC C)
      (r : Return C) (w : Run OC C) (s : Store Line OC C)
      → Sound codec w (touched_jobs r) w (sharing run s)
      → Quiet s.events
      → StartsBetween again overall other w
          (persist_after_completion (json_serializer codec cut message) s r).1
  persist_after_completion_survives laws again overall other r w s h quiet =
      ended (persist_after_completion (json_serializer codec cut message) s r)
        (persist_after_completion-Ended codec cut message now run 0 r w s (h, quiet))
    where
      ended :
          (x : Option String × Store Line OC C)
          → Ended codec cut message now run 0 w (touched_jobs r) x
          → StartsBetween again overall other w x.1
      ended (none, t) g =
          partly_written laws again overall other 0 w (touched_jobs r) [] t
            (subst DistinctJobs (sym (append-nil (touched_jobs r))) (touched_jobs-DistinctJobs r)) g
      ended (some e, t) (written, rest, split, g) =
          partly_written laws again overall other 0 w written rest t
            (subst DistinctJobs split (touched_jobs-DistinctJobs r)) g
