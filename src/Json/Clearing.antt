-- ===== src/Json/Clearing.antt =====
-- The removal of the logs once the copy of the run is published, and the new log.
use jorb.Base.{
  ℕ, ◌≡◌, refl, sym, ap, ◌∙◌, subst, inl, inr, Bool, true, Option, none, some, List, [], ◌∷◌, ◌++◌,
  map, arith, if◌then◌else◌,
}
use jorb.Job.{Job}
use jorb.Run.{Run}
use jorb.Json.{Codec}
use jorb.Json.Covers.{DistinctJobs}
use jorb.Json.Disk.{whole, Disk, Store, modify, pure, change, is_there, or_empty}
use jorb.Json.Store.{
  drop_segment, LogFile, active_log, sealed_log, log_files, without_log, seq_of, remove_each,
  remove_all_append_artifacts, open_append,
}
use jorb.Json.Rules.{Post, bind_rule, change_rule}
use jorb.Json.Durable.{Logs, no_log, only_active, only_sealed, Sound, lines_of}
use jorb.Json.Checkpoint.{Safe, Published, Cleared, with_disk-Stable}

module _ {Line OC C : Type 0} (codec : Codec Line C) (w : Run OC C) (all : List (Job C))
    (distinct : DistinctJobs all) where
  pub Sound-fields :
      (c : Run OC C) (s : Store Line OC C) (b : Bool) (n : ℕ)
      → (b ≡ true → is_there s.disk.active ≡ true)
      → Sound codec w all c s
      → Sound codec w all c (record s { append_file = b; seal_seq = n })
  Sound-fields c s b n there h = record {
    made = h.made;
    total = h.total;
    memory = h.memory;
    run_header = h.run_header;
    copy_header = h.copy_header;
    copy = h.copy;
    holds = h.holds;
    handle = there;
  }

  -- With the copy published, the logs can go.
  cleared :
      (c : Run OC C) (s : Store Line OC C) (d : Disk Line OC C)
      → d.main ≡ s.disk.main
      → d.active ≡ none
      → d.sealed ≡ []
      → Published codec w all distinct c s
      → Cleared codec w all distinct (record s { disk = d })
  cleared c s d m a l ((h, e), main) = (
    (
      record {
        made = h.made;
        total = h.total;
        memory = h.memory;
        run_header = h.run_header;
        copy_header = (refl, refl);
        copy = λ k. inl refl;
        holds = record {
          checkpoint = c;
          main = m ∙ main;
          header = h.copy_header;
          log = [];
          logs = no_log a l refl;
          covers = λ k. inr (λ o. refl, h.copy k);
        };
        handle = λ t. cc (e, t);
      },
      e,
    ),
    a,
    l,
  )

  drop_only :
      (n : ℕ) (ls : List Line) (l : List (ℕ × List Line)) → l ≡ (n, ls) ∷ [] → drop_segment n l ≡ []
  unfolding drop_segment
  drop_only n ls l e = rw e (ground arith)

  log_files_of :
      (d : Disk Line OC C) (a : Option (List Line)) (l : List (ℕ × List Line))
      → d.active ≡ a
      → d.sealed ≡ l
      → log_files d
        ≡ ((if is_there a then active_log ∷ [] else []) ++ map (λ p. sealed_log (seq_of p)) l)
  unfolding log_files
  log_files_of d a l e f = simp (e, f)

  remove_one :
      (c : Run OC C) (s : Store Line OC C) (file : LogFile)
      → Published codec w all distinct c s
      → ((without_log file s.disk).main ≡ s.disk.main)
      → ((without_log file s.disk).active ≡ none)
      → ((without_log file s.disk).sealed ≡ [])
      → Post
          (Safe codec w all distinct)
          (remove_each (file ∷ []) s)
          (λ u t. Cleared codec w all distinct t)
  unfolding remove_each
  remove_one c s file h m a l =
      bind_rule (Safe codec w all distinct) (change (without_log file)) (λ u. pure tt) s
        (λ u t. Cleared codec w all distinct t) (λ u t. Cleared codec w all distinct t)
        (change_rule (Safe codec w all distinct) _
          (with_disk-Stable codec w all distinct c (λ d.
            (d.main ≡ some (whole c))
            × ((without_log file d).main ≡ d.main)
            × ((without_log file d).active ≡ none)
            × ((without_log file d).sealed ≡ [])))
          (without_log file) (Cleared codec w all distinct) s (h.0, (h.1, m, a, l))
          (λ t (x, (x', m', a', l')). cleared c t (without_log file t.disk) m' a' l' (x, x')))
        λ u t x. x

  remove-Logs :
      (c : Run OC C) (s : Store Line OC C) (ls : List Line)
      → Published codec w all distinct c s
      → Logs s.disk ls
      → Post
          (Safe codec w all distinct)
          (remove_each (log_files s.disk) s)
          (λ u t. Cleared codec w all distinct t)
  unfolding remove_each
  remove-Logs c s ls h (no_log a b e) =
      subst
        (λ fs.
          Post (Safe codec w all distinct) (remove_each fs s)
            (λ u t. Cleared codec w all distinct t))
        (sym (log_files_of s.disk none [] a b)) (cleared c s s.disk refl a b h)
  remove-Logs c s ls h (only_active a b) =
      subst
        (λ fs.
          Post (Safe codec w all distinct) (remove_each fs s)
            (λ u t. Cleared codec w all distinct t))
        (sym (log_files_of s.disk (some ls) [] a b)) (remove_one c s active_log h refl refl b)
  remove-Logs c s ls h (only_sealed n a b) =
      subst
        (λ fs.
          Post (Safe codec w all distinct) (remove_each fs s)
            (λ u t. Cleared codec w all distinct t))
        (sym (log_files_of s.disk none ((n, ls) ∷ []) a b))
        (remove_one c s (sealed_log n) h refl a (drop_only n ls s.disk.sealed b))

  pub remove_all_rule :
      (c : Run OC C) (s : Store Line OC C)
      → Published codec w all distinct c s
      → Post
          (Safe codec w all distinct)
          (remove_all_append_artifacts s)
          (λ u t. Cleared codec w all distinct t)
  unfolding remove_all_append_artifacts
  remove_all_rule c s h =
      bind_rule (Safe codec w all distinct) (remove_each (log_files s.disk))
        (λ u. modify (λ s. record s { seal_seq = 0 })) s (λ u v. Cleared codec w all distinct v)
        (λ u v. Cleared codec w all distinct v)
        (remove-Logs c s (lines_of codec h.0.0.holds.log) h h.0.0.holds.logs)
        λ u v y. ((Sound-fields w v v.append_file 0 y.0.0.handle y.0.0, y.0.1), y.1, y.2)

  opened-Logs :
      (d : Disk Line OC C) (ls : List Line)
      → d.active ≡ none
      → d.sealed ≡ []
      → Logs d ls
      → Logs (record d { active = some (or_empty d.active) }) ls
  opened-Logs d ls a l (no_log a' b c) = only_active (ap some (ap or_empty a ∙ sym c)) b
  opened-Logs d ls a l (only_active a' b) = cc (a, a')
  opened-Logs d ls a l (only_sealed n a' b) = cc (l, b)

  opened :
      (s : Store Line OC C)
      → Cleared codec w all distinct s
      → Safe codec w all distinct (record s {
        disk = record s.disk { active = some (or_empty s.disk.active) };
        append_file = true;
      })
  opened s ((h, e), a, l) = record {
    made = h.made;
    total = h.total;
    memory = h.memory;
    run_header = h.run_header;
    copy_header = h.copy_header;
    copy = h.copy;
    holds = record {
      checkpoint = h.holds.checkpoint;
      main = h.holds.main;
      header = h.holds.header;
      log = h.holds.log;
      logs = opened-Logs s.disk (lines_of codec h.holds.log) a l h.holds.logs;
      covers = h.holds.covers;
    };
    handle = λ t. refl;
  }

  -- A new log is opened, and with it the serializer.
  pub open_append_rule :
      (s : Store Line OC C)
      → Cleared codec w all distinct s
      → Post
          (Safe codec w all distinct)
          (open_append s)
          (λ u t. Safe codec w all distinct t × (t.append_file ≡ true))
  unfolding open_append
  open_append_rule s (h, a, l) =
      bind_rule (Safe codec w all distinct)
        (change (λ d. record d { active = some (or_empty d.active) }))
        (λ u. modify (λ t. record t { append_file = true })) s
        (λ u t. Safe codec w all distinct (record t { append_file = true }))
        (λ u t. Safe codec w all distinct t × (t.append_file ≡ true))
        (change_rule (Safe codec w all distinct) _
          (with_disk-Stable codec w all distinct w (λ d. (d.active ≡ none) × (d.sealed ≡ [])))
          (λ d. record d { active = some (or_empty d.active) })
          (λ t. Safe codec w all distinct (record t { append_file = true })) s (h, (a, l))
          (λ t (x, (a', l')). opened t (x, a', l')))
        λ u t x. (x, refl)
