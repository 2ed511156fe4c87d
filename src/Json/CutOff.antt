-- ===== src/Json/CutOff.antt =====
-- json_serializer.go, `JobUpdate`: what every end of the call leaves, also a write that is cut off.
use jorb.Base.{◌≡◌, ◌∙◌, refl, ◌⊎◌, inl, inr, Bool, true, false, some, List, ◌∷◌}
use jorb.Job.{Job, Time}
use jorb.Run.{Run, update_job}
use jorb.Json.{Codec, record_of}
use jorb.Json.Covers.{DistinctJobs}
use jorb.Json.Disk.{Store, touch, environment, or_empty}
use jorb.Json.Start.{append_to, write_line, write_update, job_update}
use jorb.Json.Rules.{Post, bind_rule, syscall_rule, touch_rule}
use jorb.Json.Durable.{Sound, environment-Sound, environment-rest}
use jorb.Json.Appending.{Alone, Alone-environment, Before, After, appended-After}

module _ {Line OC C : Type 0} (codec : Codec Line C) (w : Run OC C) (now : Time) (j : Job C)
    (rest : List (Job C)) (distinct : DistinctJobs (j ∷ rest)) (cut : Line → Line) where
  -- The store is that of before the call but for one thing: behind the log's lines stands the part of
  -- the update's line that `cut` leaves.
  abbrev pub CutOff : Store Line OC C → Type 0
  CutOff t =
      (s : Store Line OC C) × Sound codec w (j ∷ rest) w s
      × (s.append_file ≡ true)
      × (t ≡ record s {
        disk = record s.disk {
          active = some (append_to (or_empty s.disk.active) (cut (codec.encode (record_of j))));
        };
      })

  -- Not written, written, or cut off.
  abbrev AnyEnd : Store Line OC C → Type 0
  AnyEnd t = Before codec w now j rest distinct t ⊎ After codec w now j rest distinct t ⊎ CutOff t

  write_update-AnyEnd :
      (s : Store Line OC C) (b : Bool)
      → s.append_file ≡ b
      → Alone s.events
      → Sound codec w (j ∷ rest) w s
      → Post AnyEnd
          (write_update codec cut j b s)
          (λ u t. Sound codec (update_job now w j) rest (update_job now w j) t)
  write_update-AnyEnd s false e alone h = inl h
  write_update-AnyEnd s true e alone h =
      bind_rule AnyEnd (write_line codec cut (codec.encode (record_of j))) (λ u. touch) s
        (λ u t. After codec w now j rest distinct t) (λ u t. After codec w now j rest distinct t)
        (syscall_rule AnyEnd _ _ s (λ u t. After codec w now j rest distinct t)
          (appended-After codec w now j rest distinct (environment s) there
            (Alone-environment s alone) turned)
          (inl turned) (inr (inr (environment s, turned, there, refl))))
        λ u t y.
          touch_rule AnyEnd (After codec w now j rest distinct)
            (record {
              turn = λ v z.
                  environment-Sound codec (update_job now w j) rest (update_job now w j) v
                    distinct.1 z;
              safe = λ v z. inr (inl z);
            })
            t y
    where
      turned : Sound codec w (j ∷ rest) w (environment s)
      turned = environment-Sound codec w (j ∷ rest) w s distinct h

      there : (environment s).append_file ≡ true
      there = (environment-rest s).1 ∙ e

  -- Whatever calls of `JobUpdate` on the files fail, are cut off or see the program die: when it returns
  -- without an error the update is written; otherwise it is not written, or it is, or the store is as
  -- without the update but for a part of its line at the end of the log. Meanwhile the main goroutine,
  -- which is in the call, makes no updates.
  pub job_update-Sound :
      (s : Store Line OC C)
      → Alone s.events
      → Sound codec w (j ∷ rest) w s
      → Post
          (λ t.
            Sound codec w (j ∷ rest) w t
            ⊎ Sound codec (update_job now w j) rest (update_job now w j) t
            ⊎ CutOff t)
          (job_update codec cut j s)
          (λ u t. Sound codec (update_job now w j) rest (update_job now w j) t)
  unfolding job_update
  job_update-Sound s alone h = write_update-AnyEnd s s.append_file refl alone h
