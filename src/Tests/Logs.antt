-- ===== src/Tests/Logs.antt =====
-- Witnesses for the replay of logs and the retries of checkpoints.
use jorb.Base.{ℕ, ◌≡◌, refl, false, none, some, List, [], ◌∷◌, ◌++◌, map, pos}
use jorb.Job.{Job}
use jorb.Run.{Run}
use jorb.Json.{
  Codec, RoundTrips, Record, record_of, loaded, refused, unsupported_version, line,
  apply_jsonl_line, replay_lines, replay_jsonl_file,
}
use jorb.Json.Replay.{update_all, SameJobs, replay_jsonl_file-SameJobs}
use jorb.Tests.Config.{job_in}

-- A line that is its record.
abbrev pub plain : Codec (Record ℕ) ℕ
plain = record { encode = λ r. r; decode = λ l. some l; is_blank = λ l. false }

pub plain-RoundTrips : RoundTrips plain
plain-RoundTrips = record { decode-encode = λ r. refl; written = λ r. refl }

abbrev run : Run Unit ℕ
run = record { name = "run"; jobs = []; overall = tt }

-- Job "a" moves on twice; the checkpoint has its first two updates, and the log all but the first.
abbrev first : List (Job ℕ)
first = job_in "a" "fetch" ∷ []

abbrev second_update : List (Job ℕ)
second_update = job_in "a" "keep" ∷ []

abbrev last : List (Job ℕ)
last = job_in "a" "done" ∷ job_in "b" "fetch" ∷ []

replay_jsonl_file-SameJobs_example :
    (t : Run Unit ℕ) × (replay_jsonl_file plain
        (λ i. 2_000_000)
        (record {
          lines = map (λ j. plain.encode (record_of j)) (second_update ++ last);
          err = none;
        })
        (update_all (λ i. 1_000_000) 0 (first ++ second_update) run)
      ≡ loaded t)
    × SameJobs (update_all (λ i. 1_000_000) 0 (first ++ (second_update ++ last)) run) t
replay_jsonl_file-SameJobs_example =
    replay_jsonl_file-SameJobs plain plain-RoundTrips (λ i. 1_000_000) (λ i. 2_000_000) first
      second_update last run

-- A record of another version is refused, with the number of its line.
other_version :
    replay_jsonl_file plain
      (λ i. 0)
      (record {
        lines =
            record_of (job_in "a" "fetch")
            ∷ record (record_of (job_in "a" "keep")) { v = pos 2 }
            ∷ [];
        err = none;
      })
      run
    ≡ refused (line 2 (unsupported_version (pos 2)))
unfolding replay_jsonl_file replay_lines apply_jsonl_line
other_version = refl
