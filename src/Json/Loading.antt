-- ===== src/Json/Loading.antt =====
-- A start reads from the files what they hold.
use jorb.Base.{ℕ, ◌≡◌, refl, sym, ap, ◌∙◌, subst, Option, none, some, List, [], ◌∷◌, map, arith}
use jorb.Job.{Job, Time}
use jorb.Run.{Run}
use jorb.Json.{Codec, RoundTrips, loaded, replay_jsonl_file}
use jorb.Json.Replay.{update_all, replay_lines_lem}
use jorb.Json.Disk.{whole, Disk, Store, Answer, touch, stat, is_there, or_empty, ◌>>=◌}
use jorb.Json.Store.{segment, sort_by_seq, seq_of}
use jorb.Json.Start.{
  from_load, replay_log, replay_sealed, decode_checkpoint, replay_active,
  load_checkpoint_and_replay,
}
use jorb.Json.Rules.{Post, bind_rule, sure_stat_rule, Stable, touch_rule}
use jorb.Json.Durable.{Logs, no_log, only_active, only_sealed, lines_of}
use jorb.Json.ReadBack.{Alone-next, log_number}
use jorb.Json.Starting.{Starting, Kept, Starting-Stable}

module _ {Line OC C : Type 0} (codec : Codec Line C) (laws : RoundTrips codec) (now : ℕ → ℕ → Time)
    (overall : OC) where
  module _ (v c : Run OC C) (a : Option (List Line)) (l : List (ℕ × List Line)) where
    abbrev Now : Store Line OC C → Type 0
    Now = Starting codec laws now overall v c a l

    abbrev Then : Store Line OC C → Type 0
    Then = Kept codec laws now overall v c a l

    Now-stable : Stable Then Now
    Now-stable = Starting-Stable codec laws now overall v c a l

    file_lem :
        (clock : ℕ → Time) (ls : List Line) (js : List (Job C)) (r : Run OC C)
        → ls ≡ lines_of codec js
        → replay_jsonl_file codec clock (record { lines = ls; err = none }) r
          ≡ loaded (update_all clock 0 js r)
    unfolding replay_jsonl_file
    file_lem clock ls js r e = rw e (rw (replay_lines_lem codec laws clock 0 js r) refl)

    replay_log_rule :
        (n : ℕ) (ls : List Line) (js : List (Job C)) (r : Run OC C) (s : Store Line OC C)
        → ls ≡ lines_of codec js
        → Now s
        → Post Then
            (replay_log codec now overall n ls r s)
            (λ r' t. (r' ≡ update_all (now n) 0 js r) × Now t)
    unfolding replay_log
    replay_log_rule n ls js r s e h =
        bind_rule Then touch _ s (λ u t. Now t) _ (touch_rule Then (Now) Now-stable s h)
          λ u t x.
            subst
              (λ y.
                Post Then (from_load codec y t) (λ r' z. (r' ≡ update_all (now n) 0 js r) × Now z))
              (sym (file_lem (now n) ls js r e)) (refl, x)

    -- What the parts of a load give.
    abbrev pub Gives : Run OC C → Answer (Run OC C) × Store Line OC C → Type 0
    Gives r x = Post Then x (λ r' t. (r' ≡ r) × Now t)

    load_rule :
        (v' v'' : Run OC C)
        → ((s : Store Line OC C)
            → Now s
            → Gives v'
                (replay_sealed codec now overall 1 (sort_by_seq (map seq_of s.disk.sealed)) c s))
        → ((s : Store Line OC C)
            → Now s
            → Gives v''
                ((stat (λ d. is_there d.active) >>= λ b. replay_active codec now overall b v') s))
        → (s : Store Line OC C) → Now s
        → Gives v'' (load_checkpoint_and_replay codec now overall s)
    unfolding load_checkpoint_and_replay
    load_rule v' v'' sealed active s h =
        bind_rule Then touch _ s (λ u t. Now t) _ (touch_rule Then (Now) Now-stable s h)
          λ u t x.
            bind_rule Then (decode_checkpoint codec now overall (now 0 0) t.disk.main) _ t
              (λ r y. (r ≡ c) × Now y) _
              (subst
                (λ m.
                  Post Then (decode_checkpoint codec now overall (now 0 0) m t)
                    (λ r y. (r ≡ c) × Now y))
                (sym x.3) (decoded t x))
              λ r t (e, x).
                bind_rule Then
                  (replay_sealed codec now overall 1 (sort_by_seq (map seq_of t.disk.sealed)) r) _ t
                  (λ r y. (r ≡ v') × Now y) _
                  (subst
                    (λ r. Gives v' (
                      replay_sealed codec now overall 1 (sort_by_seq (map seq_of t.disk.sealed)) r
                        t))
                    (sym e) (sealed t x))
                  λ r t (e, x).
                    subst
                      (λ r. Gives v'' (
                        (stat (λ d. is_there d.active) >>= λ b. replay_active codec now overall b r)
                          t))
                      (sym e) (active t x)
      where
        decoded :
            (t : Store Line OC C)
            → Now t
            → Post Then
                (decode_checkpoint codec now overall (now 0 0) (some (whole c)) t)
                (λ r y. (r ≡ c) × Now y)
        decoded t x =
            bind_rule Then touch _ t (λ u y. Now y) _ (touch_rule Then (Now) Now-stable t x)
              λ u y z. (refl, z)

    no_sealed_rule :
        (s : Store Line OC C)
        → l ≡ []
        → Now s
        → Gives c (replay_sealed codec now overall 1 (sort_by_seq (map seq_of s.disk.sealed)) c s)
    unfolding replay_sealed sort_by_seq
    no_sealed_rule s e h =
        subst (λ l'. Gives c (replay_sealed codec now overall 1 (sort_by_seq (map seq_of l')) c s))
          (sym (h.5 ∙ e)) (refl, h)

    segment_only :
        (n : ℕ) (ls : List Line) (l' : List (ℕ × List Line))
        → l' ≡ (n, ls) ∷ []
        → or_empty (segment n l') ≡ ls
    unfolding segment
    segment_only n ls l' e = rw e (ground arith)

    one_sealed_rule :
        (n : ℕ) (js : List (Job C)) (s : Store Line OC C)
        → l ≡ (n, lines_of codec js) ∷ []
        → Now s
        → Gives
            (update_all (now 1) 0 js c)
            (replay_sealed codec now overall 1 (sort_by_seq (map seq_of s.disk.sealed)) c s)
    unfolding replay_sealed sort_by_seq
    one_sealed_rule n js s e h =
        subst
          (λ l'.
            Gives (update_all (now 1) 0 js c)
              (replay_sealed codec now overall 1 (sort_by_seq (map seq_of l')) c s))
          (sym (h.5 ∙ e))
          (bind_rule Then (replay_log codec now overall 1 (or_empty (segment n s.disk.sealed)) c) _
            s (λ r t. (r ≡ update_all (now 1) 0 js c) × Now t) _
            (replay_log_rule 1 (or_empty (segment n s.disk.sealed)) js c s
              (segment_only n (lines_of codec js) s.disk.sealed (h.5 ∙ e)) h)
            λ r t x. x)

    is_active_rule :
        (s : Store Line OC C)
        → Now s
        → Post Then (stat (λ d. is_there d.active) s) (λ b t. (b ≡ is_there a) × Now t)
    is_active_rule s h =
        let turned = Now-stable.turn s h in
        sure_stat_rule Then (λ d. is_there d.active) s (λ b t. (b ≡ is_there a) × Now t)
          (Alone-next s.events h.2) (ap is_there turned.4, turned) turned.0

    no_active_rule :
        (r : Run OC C) (s : Store Line OC C)
        → a ≡ none
        → Now s
        → Gives r ((stat (λ d. is_there d.active) >>= λ b. replay_active codec now overall b r) s)
    no_active_rule r s e h =
        bind_rule Then (stat (λ d. is_there d.active)) _ s (λ b t. (b ≡ is_there a) × Now t) _
          (is_active_rule s h)
          λ b t (there, x).
            subst (λ b'. Gives r (replay_active codec now overall b' r t))
              (sym (there ∙ ap is_there e)) (refl, x)

    one_active_rule :
        (js : List (Job C)) (r : Run OC C) (s : Store Line OC C)
        → a ≡ some (lines_of codec js)
        → Now s
        → Gives
            (update_all (now 0) 0 js r)
            ((stat (λ d. is_there d.active) >>= λ b. replay_active codec now overall b r) s)
    one_active_rule js r s e h =
        bind_rule Then (stat (λ d. is_there d.active)) _ s (λ b t. (b ≡ is_there a) × Now t) _
          (is_active_rule s h)
          λ b t (there, x).
            subst (λ b'. Gives (update_all (now 0) 0 js r) (replay_active codec now overall b' r t))
              (sym (there ∙ ap is_there e))
              (replay_log_rule 0 (or_empty t.disk.active) js r t (ap or_empty (x.4 ∙ e)) x)

  -- What a load reads is what the files hold.
  pub no_lines : (js : List (Job C)) → lines_of codec js ≡ [] → js ≡ []
  no_lines [] e = refl
  no_lines (j ∷ js) e = cc

  pub load-Logs :
      (v c : Run OC C) (d : Disk Line OC C) (js : List (Job C)) (logs : Logs d (lines_of codec js))
      (s : Store Line OC C)
      → update_all (now (log_number logs)) 0 js c ≡ v
      → Starting codec laws now overall v c d.active d.sealed s
      → Gives v c d.active d.sealed v (load_checkpoint_and_replay codec now overall s)
  unfolding update_all
  load-Logs v c d js (no_log p q e) s same x =
      let nothing : c ≡ v = sym (ap (λ l. update_all (now 0) 0 l c) (no_lines js e)) ∙ same in
      load_rule v c d.active d.sealed c v (λ t y. no_sealed_rule v c d.active d.sealed t q y)
        (λ t y.
          subst
            (λ r.
              Gives v c d.active d.sealed v
                ((stat (λ f. is_there f.active) >>= λ b. replay_active codec now overall b r) t))
            (sym nothing) (no_active_rule v c d.active d.sealed v t p y))
        s x
  load-Logs v c d js (only_active p q) s same x =
      load_rule v c d.active d.sealed c v (λ t y. no_sealed_rule v c d.active d.sealed t q y)
        (λ t y.
          subst
            (λ r.
              Gives v c d.active d.sealed r
                ((stat (λ f. is_there f.active) >>= λ b. replay_active codec now overall b c) t))
            same (one_active_rule v c d.active d.sealed js c t p y))
        s x
  load-Logs v c d js (only_sealed n p q) s same x =
      load_rule v c d.active d.sealed v v
        (λ t y.
          subst
            (λ r.
              Gives v c d.active d.sealed r
                (replay_sealed codec now overall 1 (sort_by_seq (map seq_of t.disk.sealed)) c t))
            same (one_sealed_rule v c d.active d.sealed n js t q y))
        (λ t y. no_active_rule v c d.active d.sealed v t p y) s x
