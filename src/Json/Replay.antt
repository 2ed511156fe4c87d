-- ===== src/Json/Replay.antt =====
-- What a restart gives back.
use jorb.Base.{
  ℕ, suc, ◌≡◌, refl, sym, ap, ◌∙◌, String, ◌==◌, Bool-cases, inl, inr, ◌⊎◌, Option, none, some,
  List, [], ◌∷◌, ◌++◌, map, lookup, lookup-insert, if◌then◌else◌, arith,
}
use jorb.Job.{Job, Time, update_last_event}
use jorb.Run.{Run, update_job}
use jorb.Json.{
  Codec, RoundTrips, record_of, loaded, apply_jsonl_line, replay_lines, replay_jsonl_file,
}

-- A job but for its stamp.
abbrev pub unstamped : {C : Type 0} → Option (Job C) → Option (Job C)
unstamped none = none
unstamped (some j) = some (record j { last_update = none })

-- The last job of a log with id `k`, or else what was there before.
abbrev pub overlay : {C : Type 0} → String → Option (Job C) → List (Job C) → Option (Job C)
overlay k before [] = before
overlay k before (j ∷ js) = overlay k (if j.id == k then some j else before) js

module _ {C : Type 0} where
  pub overlay-append :
      (k : String) (o : Option (Job C)) (xs ys : List (Job C))
      → overlay k o (xs ++ ys) ≡ overlay k (overlay k o xs) ys
  overlay-append k o [] ys = refl
  overlay-append k o (x ∷ xs) ys = overlay-append k (if x.id == k then some x else o) xs ys

  -- A log has no job with the id, or one that hides what was there before.
  pub overlay_cases :
      (k : String) (js : List (Job C))
      → ((o : Option (Job C)) → overlay k o js ≡ o)
        ⊎ ((j : Job C) × ((o : Option (Job C)) → overlay k o js ≡ some j))
  overlay_cases k [] = inl (λ o. refl)
  overlay_cases k (x ∷ xs) = elim (overlay_cases k xs) [
    | inr (j, found) ↦ inr (j, λ o. found _)
    | inl absent ↦ elim (Bool-cases (x.id == k)) [
      | inl same ↦ inr (x, λ o. absent _ ∙ rw same refl)
      | inr other ↦ inl (λ o. absent _ ∙ rw other refl)
    ]
  ]

  pub overlay_twice :
      (k : String) (o : Option (Job C)) (js : List (Job C))
      → overlay k (overlay k o js) js ≡ overlay k o js
  overlay_twice k o js = elim (overlay_cases k js) [
    | inl absent ↦ absent _
    | inr (j, found) ↦ found _ ∙ sym (found o)
  ]

  pub overlay-unstamped :
      (k : String) (o p : Option (Job C)) (js : List (Job C))
      → unstamped o ≡ unstamped p
      → unstamped (overlay k o js) ≡ unstamped (overlay k p js)
  overlay-unstamped k o p js e = elim (overlay_cases k js) [
    | inl absent ↦ ap unstamped (absent o) ∙ e ∙ sym (ap unstamped (absent p))
    | inr (j, found) ↦ ap unstamped (found o ∙ sym (found p))
  ]

  -- A log on top of one that it overlaps adds only what is new.
  overlay_overlap :
      (k : String) (o : Option (Job C)) (a b c : List (Job C))
      → overlay k (overlay k o (a ++ b)) (b ++ c) ≡ overlay k o (a ++ (b ++ c))
  overlay_overlap k o a b c =
      let x = overlay k o a in
      ap (λ p. overlay k p (b ++ c)) (overlay-append k o a b)
      ∙ overlay-append k (overlay k x b) b c
      ∙ ap (λ p. overlay k p c) (overlay_twice k x b)
      ∙ sym (overlay-append k x b c)
      ∙ sym (overlay-append k o a (b ++ c))

module _ {OC C : Type 0} where
  -- The updates of a run, one after the other.
  unfoldable pub update_all : (ℕ → Time) → ℕ → List (Job C) → Run OC C → Run OC C
  update_all now n [] r = r
  update_all now n (j ∷ js) r = update_all now (suc n) js (update_job (now n) r j)

  -- The runs have the same name and overall context, and the same jobs but for their stamps.
  pub record SameJobs (r t : Run OC C) : Type 0 where
    pub name : t.name ≡ r.name
    pub overall : t.overall ≡ r.overall
    pub jobs : (k : String) → unstamped (lookup k t.jobs) ≡ unstamped (lookup k r.jobs)

  pub update_job-lookup :
      (now : Time) (r : Run OC C) (j : Job C) (k : String)
      → unstamped (lookup k (update_job now r j).jobs)
        ≡ unstamped (if j.id == k then some j else lookup k r.jobs)
  unfolding update_job update_last_event
  update_job-lookup now r j k =
      ground (arith, lookup-insert j.id k (update_last_event now j) r.jobs)

  pub update_all-lookup :
      (now : ℕ → Time) (n : ℕ) (js : List (Job C)) (r : Run OC C) (k : String)
      → unstamped (lookup k (update_all now n js r).jobs)
        ≡ unstamped (overlay k (lookup k r.jobs) js)
  unfolding update_all
  update_all-lookup now n [] r k = refl
  update_all-lookup now n (j ∷ js) r k =
      update_all-lookup now (suc n) js (update_job (now n) r j) k
      ∙ overlay-unstamped k _ _ js (update_job-lookup (now n) r j k)

  pub update_all-rest :
      (now : ℕ → Time) (n : ℕ) (js : List (Job C)) (r : Run OC C)
      → ((update_all now n js r).name ≡ r.name) × ((update_all now n js r).overall ≡ r.overall)
  unfolding update_all update_job
  update_all-rest now n [] r = (refl, refl)
  update_all-rest now n (j ∷ js) r = update_all-rest now (suc n) js (update_job (now n) r j)

module _ {Line OC C : Type 0} (codec : Codec Line C) (laws : RoundTrips codec) where
  -- Reading the lines that were written for some updates makes these updates.
  pub replay_lines_lem :
      (now : ℕ → Time) (n : ℕ) (js : List (Job C)) (r : Run OC C)
      → replay_lines codec now n (map (λ j. codec.encode (record_of j)) js) r
        ≡ loaded (update_all now n js r)
  unfolding replay_lines apply_jsonl_line update_all
  replay_lines_lem now n [] r = refl
  replay_lines_lem now n (j ∷ js) r = ground (
    arith,
    laws.written (record_of j),
    laws.decode-encode (record_of j),
    replay_lines_lem now (suc n) js (update_job (now n) r j),
  )

  -- Given that what is written can be read: a run whose checkpoint has the updates `a` and `b`,
  -- and whose log still holds `b` and already `c`, is read back without an error, and has the
  -- jobs that all three left behind, but for their stamps: a log may be replayed on a checkpoint
  -- that has some of it.
  pub replay_jsonl_file-SameJobs :
      (live : ℕ → Time) (again : ℕ → Time) (a b c : List (Job C)) (r : Run OC C)
      → (t : Run OC C) × (replay_jsonl_file codec again
            (record { lines = map (λ j. codec.encode (record_of j)) (b ++ c); err = none })
            (update_all live 0 (a ++ b) r)
          ≡ loaded t)
        × SameJobs (update_all live 0 (a ++ (b ++ c)) r) t
  unfolding replay_jsonl_file
  replay_jsonl_file-SameJobs live again a b c r =
      let start = update_all live 0 (a ++ b) r in
      let (name, overall) = update_all-rest live 0 (a ++ b) r in
      let (name', overall') = update_all-rest again 0 (b ++ c) start in
      let (name'', overall'') = update_all-rest live 0 (a ++ (b ++ c)) r in
      (
        update_all again 0 (b ++ c) start,
        rw (replay_lines_lem again 0 (b ++ c) start) refl,
        record {
          name = name' ∙ name ∙ sym name'';
          overall = overall' ∙ overall ∙ sym overall'';
          jobs = λ k.
              update_all-lookup again 0 (b ++ c) start k
              ∙ overlay-unstamped k _ _ (b ++ c) (stamped k)
              ∙ ap unstamped (overlay_overlap k (lookup k r.jobs) a b c)
              ∙ sym (update_all-lookup live 0 (a ++ (b ++ c)) r k);
        },
      )
    where
      stamped :
          (k : String)
          → unstamped (lookup k (update_all live 0 (a ++ b) r).jobs)
            ≡ unstamped (overlay k (lookup k r.jobs) (a ++ b))
      stamped k = update_all-lookup live 0 (a ++ b) r k
