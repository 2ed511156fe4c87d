-- ===== src/Json/Durable.antt =====
-- What the files of a serializer hold at any moment, and that the main goroutine's turns keep it.
use mathlib.Core.List.{append_assoc}
use jorb.Base.{
  ℕ, ◌≡◌, refl, sym, ap, ◌∙◌, subst, String, true, none, some, List, [], ◌∷◌, ◌++◌, map, All-split,
  lookup,
}
use jorb.Job.{Job, Time}
use jorb.Run.{Run, update_job}
use jorb.Json.{Codec, record_of}
use jorb.Json.Replay.{unstamped, overlay, overlay-append, overlay-unstamped, update_job-lookup}
use jorb.Json.Covers.{DistinctJobs, Between, Covers, Between-made, Covers-made}
use jorb.Json.Disk.{whole, Disk, Event, Store, update_run, environment, turn, is_there}

abbrev pub SameHeader : {OC C : Type 0} → Run OC C → Run OC C → Type 0
SameHeader a b = (a.name ≡ b.name) × (a.overall ≡ b.overall)

-- There is one log at most, and `lines` are its lines.
pub data Logs {Line OC C : Type 0} (d : Disk Line OC C) (lines : List Line) : Type 0 where
  no_log : d.active ≡ none → d.sealed ≡ [] → lines ≡ [] → Logs d lines
  only_active : d.active ≡ some lines → d.sealed ≡ [] → Logs d lines
  only_sealed : (n : ℕ) → d.active ≡ none → d.sealed ≡ (n, lines) ∷ [] → Logs d lines

-- The jobs that the main goroutine is yet to update.
abbrev pub jobs_of_updates : {C : Type 0} → List (Time × Job C) → List (Job C)
jobs_of_updates [] = []
jobs_of_updates ((now, j) ∷ us) = j ∷ jobs_of_updates us

abbrev pub to_come : {C : Type 0} → List (Event C) → List (Job C)
to_come [] = []
to_come (e ∷ es) = jobs_of_updates e.updates ++ to_come es

DistinctJobs-prefix :
    {C : Type 0} (xs ys : List (Job C)) → DistinctJobs (xs ++ ys) → DistinctJobs xs
DistinctJobs-prefix [] ys d = tt
DistinctJobs-prefix (x ∷ xs) ys d = ((All-split _ xs ys d.0).0, DistinctJobs-prefix xs ys d.1)

-- The lines that the updates have in a log.
abbrev pub lines_of : {Line C : Type 0} → Codec Line C → List (Job C) → List Line
lines_of codec js = map (λ j. codec.encode (record_of j)) js

module _ {Line OC C : Type 0} (codec : Codec Line C) where
  -- The checkpoint and the log hold each job of `w`, or what `made` has made of it.
  pub record Holds (w : Run OC C) (made : List (Job C)) (d : Disk Line OC C) : Type 0 where
    pub checkpoint : Run OC C
    pub main : d.main ≡ some (whole checkpoint)
    pub header : SameHeader checkpoint w
    pub log : List (Job C)
    pub logs : Logs d (lines_of codec log)
    pub covers : (k : String) → Covers w made checkpoint log k

  -- `w` is the run as the written updates leave it, `all` the updates that the main goroutine makes in
  -- memory without writing them, and `c` a copy of the run.
  pub record Sound (w : Run OC C) (all : List (Job C)) (c : Run OC C) (s : Store Line OC C)
      : Type 0 where
    pub made : List (Job C)
    pub total : (made ++ to_come s.events) ≡ all
    pub memory :
        (k : String)
        → unstamped (lookup k s.run.jobs) ≡ unstamped (overlay k (lookup k w.jobs) made)
    pub run_header : SameHeader s.run w
    pub copy_header : SameHeader c w
    pub copy : (k : String) → Between w made c k
    pub holds : Holds w made s.disk
    pub handle : s.append_file ≡ true → is_there s.disk.active ≡ true

  pub Holds-made :
      (w : Run OC C) (made us : List (Job C)) (d : Disk Line OC C)
      → DistinctJobs (made ++ us)
      → Holds w made d
      → Holds w (made ++ us) d
  Holds-made w made us d distinct h = record {
    checkpoint = h.checkpoint;
    main = h.main;
    header = h.header;
    log = h.log;
    logs = h.logs;
    covers = λ k. Covers-made w h.checkpoint made us h.log k distinct (h.covers k);
  }

module _ {Line OC C : Type 0} where
  pub Logs-same :
      (d e : Disk Line OC C) (ls : List Line)
      → e.active ≡ d.active
      → e.sealed ≡ d.sealed
      → Logs d ls
      → Logs e ls
  Logs-same d e ls p q (no_log a b c) = no_log (p ∙ a) (q ∙ b) c
  Logs-same d e ls p q (only_active a b) = only_active (p ∙ a) (q ∙ b)
  Logs-same d e ls p q (only_sealed n a b) = only_sealed n (p ∙ a) (q ∙ b)

module _ {Line OC C : Type 0} (codec : Codec Line C) where
  pub Holds-same :
      (v : Run OC C) (made : List (Job C)) (d e : Disk Line OC C)
      → (e.main ≡ d.main) × (e.active ≡ d.active) × (e.sealed ≡ d.sealed)
      → Holds codec v made d
      → Holds codec v made e
  Holds-same v made d e (m, a, l) h = record {
    checkpoint = h.checkpoint;
    main = m ∙ h.main;
    header = h.header;
    log = h.log;
    logs = Logs-same d e (lines_of codec h.log) a l h.logs;
    covers = h.covers;
  }

update_run-lookup :
    {OC C : Type 0} (us : List (Time × Job C)) (r : Run OC C) (k : String)
    → unstamped (lookup k (update_run us r).jobs)
      ≡ unstamped (overlay k (lookup k r.jobs) (jobs_of_updates us))
unfolding update_run
update_run-lookup [] r k = refl
update_run-lookup ((now, j) ∷ us) r k =
    update_run-lookup us (update_job now r j) k
    ∙ overlay-unstamped k _ _ (jobs_of_updates us) (update_job-lookup now r j k)

update_run-header :
    {OC C : Type 0} (us : List (Time × Job C)) (r : Run OC C) → SameHeader (update_run us r) r
unfolding update_run update_job
update_run-header [] r = (refl, refl)
update_run-header ((now, j) ∷ us) r = update_run-header us (update_job now r j)

module _ {Line OC C : Type 0} (codec : Codec Line C) (w : Run OC C) (all : List (Job C)) where
  turn-Sound :
      (c : Run OC C) (es : List (Event C)) (s : Store Line OC C)
      → s.events ≡ es
      → DistinctJobs all
      → Sound codec w all c s
      → Sound codec w all c (turn es s)
  turn-Sound c [] s e distinct h = h
  turn-Sound c (ev ∷ es) s e distinct h =
      let us = jobs_of_updates ev.updates in
      let total : ((h.made ++ us) ++ to_come es) ≡ all =
        append_assoc h.made us (to_come es) ∙ ap (λ x. h.made ++ to_come x) (sym e) ∙ h.total in
      let fresh =
        DistinctJobs-prefix (h.made ++ us) (to_come es) (subst DistinctJobs (sym total) distinct) in
      let header = update_run-header ev.updates s.run in
      record {
        made = h.made ++ us;
        total = total;
        memory = λ k.
            update_run-lookup ev.updates s.run k
            ∙ overlay-unstamped k _ _ us (h.memory k)
            ∙ sym (ap unstamped (overlay-append k _ h.made us));
        run_header = (header.0 ∙ h.run_header.0, header.1 ∙ h.run_header.1);
        copy_header = h.copy_header;
        copy = λ k. Between-made w c h.made us k fresh (h.copy k);
        holds = Holds-made codec w h.made us s.disk fresh h.holds;
        handle = h.handle;
      }

  -- The main goroutine's turn changes the run in memory, and so what a restart may find, but keeps the
  -- bounds.
  pub environment-Sound :
      (c : Run OC C) (s : Store Line OC C)
      → DistinctJobs all
      → Sound codec w all c s
      → Sound codec w all c (environment s)
  unfolding environment
  environment-Sound c s distinct h = turn-Sound c s.events s refl distinct h

module _ {Line OC C : Type 0} where
  turn-rest :
      (es : List (Event C)) (s : Store Line OC C)
      → ((turn es s).disk ≡ s.disk) × ((turn es s).append_file ≡ s.append_file)
  turn-rest [] s = (refl, refl)
  turn-rest (e ∷ es) s = (refl, refl)

  pub environment-rest :
      (s : Store Line OC C)
      → ((environment s).disk ≡ s.disk) × ((environment s).append_file ≡ s.append_file)
  unfolding environment
  environment-rest s = turn-rest s.events s
