-- ===== src/Json/Restart.antt =====
-- A start on the files of a serializer that stopped, was killed or failed at any point.
use jorb.Base.{
  ℕ, ◌≡◌, refl, sym, ap, ◌∙◌, subst, ◌⊎◌, inl, inr, true, false, List, [], ◌∷◌, ◌++◌, lookup,
  String,
}
use jorb.Job.{Job, Time}
use jorb.Run.{Run}
use jorb.Json.{Codec, RoundTrips}
use jorb.Json.Replay.{unstamped, update_all-rest}
use jorb.Json.Covers.{Between}
use jorb.Json.Disk.{Disk, Event, Store, touch}
use jorb.Json.Store.{recover_checkpoint_atomic, open_append}
use jorb.Json.Start.{load_checkpoint_and_replay, materialize_clean_incremental, new_json_serializer}
use jorb.Json.Rules.{Post, bind_rule, fail_map, Stable, touch_rule}
use jorb.Json.Durable.{SameHeader, Holds, Sound, to_come, jobs_of_updates}
use jorb.Json.Checkpoint.{Safe, Closing, Cleared}
use jorb.Json.Rotation.{materialize_rule}
use jorb.Json.Clearing.{open_append_rule}
use jorb.Json.ReadBack.{Alone, read_back, read_back-Between, read_back-Holds, log_number}
use jorb.Json.Starting.{Starting, Kept, Starting-Stable, recover_rule}
use jorb.Json.Loading.{load-Logs}

-- A process that has just started, on the files `d`; `run` is what its memory holds.
abbrev pub restarted :
    {Line OC C : Type 0} → Disk Line OC C → Run OC C → List (Event C) → Store Line OC C
restarted d run events = record {
  disk = d;
  run = run;
  append_file = false;
  seal_seq = 0;
  events = events;
}

no_updates : {C : Type 0} (es : List (Event C)) → Alone es → to_come es ≡ []
no_updates [] q = refl
no_updates (e ∷ es) q = ap (λ us. jobs_of_updates us ++ to_come es) q.0.0 ∙ no_updates es q.1

append_nothing : {A : Type 0} (xs ys : List A) → (xs ++ ys) ≡ [] → xs ≡ []
append_nothing [] ys e = refl
append_nothing (x ∷ xs) ys e = cc

module _ {Line OC C : Type 0} (codec : Codec Line C) (laws : RoundTrips codec) (now : ℕ → ℕ → Time)
    (overall : OC) where
  pub read_back_in_memory :
      (w : Run OC C) (all : List (Job C)) (s : Store Line OC C) (h : Sound codec w all w s)
      (k : String)
      → (unstamped (lookup k (read_back codec laws now overall h.holds).jobs)
          ≡ unstamped (lookup k w.jobs))
        ⊎ (unstamped (lookup k (read_back codec laws now overall h.holds).jobs)
            ≡ unstamped (lookup k s.run.jobs))
  read_back_in_memory w all s h k =
      split (read_back-Between codec laws now overall w h.made s.disk h.holds k)
    where
      v : Run OC C
      v = read_back codec laws now overall h.holds

      split :
          Between w h.made v k
          → (unstamped (lookup k v.jobs) ≡ unstamped (lookup k w.jobs))
            ⊎ (unstamped (lookup k v.jobs) ≡ unstamped (lookup k s.run.jobs))
      split (inl e) = inl e
      split (inr e) = inr (e ∙ sym (h.memory k))

  Safe-Holds : (v : Run OC C) (t : Store Line OC C) → Safe codec v [] tt t → Holds codec v [] t.disk
  Safe-Holds v t h =
      subst (λ m. Holds codec v m t.disk) (append_nothing h.made (to_come t.events) h.total) h.holds

  running :
      (v r c : Run OC C) (d : Disk Line OC C) (t : Store Line OC C)
      → r ≡ v
      → Starting codec laws now overall v c d.active d.sealed t
      → Closing codec v [] tt v (record t { run = r })
  running v r c d t e (h, closed, alone, m, p, q) = (
    record {
      made = [];
      total = no_updates t.events alone;
      memory = λ k. ap (λ x. unstamped (lookup k x.jobs)) e;
      run_header = (ap (λ x. x.name) e, ap (λ x. x.overall) e);
      copy_header = (refl, refl);
      copy = λ k. inl refl;
      holds = h;
      handle = λ o. cc (closed, o);
    },
    closed,
  )

  start_lem :
      (w : Run OC C) (made : List (Job C)) (d : Disk Line OC C) (h : Holds codec w made d)
      (run : Run OC C) (events : List (Event C))
      → Alone events
      → Post
          (λ t. Holds codec (read_back codec laws now overall h) [] t.disk)
          (new_json_serializer codec now overall (restarted d run events))
          (λ r t.
            (r ≡ read_back codec laws now overall h)
            × Sound codec r [] r t
            × (t.append_file ≡ true))
  unfolding new_json_serializer materialize_clean_incremental
  start_lem w made d h run events alone =
      bind_rule K touch _ s₀ (λ u t. Begun t) _
        (touch_rule K Begun stable s₀
          (read_back-Holds codec laws now overall w made d h, refl, alone, h.main, refl, refl))
        λ u t x.
          bind_rule K recover_checkpoint_atomic _ t (λ u y. Begun y) _
            (recover_rule codec laws now overall v c d.active d.sealed t x)
            λ u t x.
              bind_rule K (load_checkpoint_and_replay codec now overall) _ t
                (λ r y. (r ≡ v) × Begun y) _
                (load-Logs codec laws now overall v c d h.log h.logs t refl x)
                λ r t (e, x).
                  bind_rule K (materialize_clean_incremental codec now overall) _
                    (record t { run = r }) (λ u y. Cleared codec v [] tt y) _
                    (fail_map K
                      (materialize_clean_incremental codec now overall (record t { run = r }))
                      (Safe codec v [] tt) (λ u y. Cleared codec v [] tt y)
                      (materialize_rule codec v [] tt (record t { run = r })
                        (running v r c d t e x))
                      (Safe-Holds v))
                    λ u t x.
                      bind_rule K open_append _ t
                        (λ u y. Safe codec v [] tt y × (y.append_file ≡ true)) _
                        (fail_map K (open_append t) (Safe codec v [] tt)
                          (λ u y. Safe codec v [] tt y × (y.append_file ≡ true))
                          (open_append_rule codec v [] tt t x) (Safe-Holds v))
                        λ u t x. (e, subst (λ q. Sound codec q [] q t) (sym e) x.0, x.1)
    where
      v : Run OC C
      v = read_back codec laws now overall h

      c : Run OC C
      c = h.checkpoint

      s₀ : Store Line OC C
      s₀ = restarted d run events

      K : Store Line OC C → Type 0
      K = Kept codec laws now overall v c d.active d.sealed

      Begun : Store Line OC C → Type 0
      Begun = Starting codec laws now overall v c d.active d.sealed

      stable : Stable K Begun
      stable = Starting-Stable codec laws now overall v c d.active d.sealed

  -- For the files of a sound store, taken at any moment, there is a run in which every job is as it was
  -- written last or as it was in memory at that moment, such that a start in which no call fails, when
  -- it returns, returns this run, with the store sound and open; and when the program dies in it, at any
  -- of its calls, the files hold this run still.
  pub restart-Sound :
      (w : Run OC C) (all : List (Job C)) (s : Store Line OC C) (run : Run OC C)
      (events : List (Event C))
      → Sound codec w all w s
      → Alone events
      → (v : Run OC C) × SameHeader v w
        × ((k : String)
            → (unstamped (lookup k v.jobs) ≡ unstamped (lookup k w.jobs))
              ⊎ (unstamped (lookup k v.jobs) ≡ unstamped (lookup k s.run.jobs)))
        × Post
            (λ t. Holds codec v [] t.disk)
            (new_json_serializer codec now overall (restarted s.disk run events))
            (λ r t. (r ≡ v) × Sound codec r [] r t × (t.append_file ≡ true))
  restart-Sound w all s run events h alone =
      let v = read_back codec laws now overall h.holds in
      let rest = update_all-rest (now (log_number h.holds.logs)) 0 h.holds.log h.holds.checkpoint in
      (
        v,
        (rest.0 ∙ h.holds.header.0, rest.1 ∙ h.holds.header.1),
        read_back_in_memory w all s h,
        start_lem w h.made s.disk h.holds run events alone,
      )
