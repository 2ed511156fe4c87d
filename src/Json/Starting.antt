-- ===== src/Json/Starting.antt =====
-- While a serializer starts: the recovery of the checkpoint file.
use jorb.Base.{ℕ, ◌≡◌, refl, sym, ap, ◌∙◌, subst, false, Option, none, some, List, []}
use jorb.Job.{Time}
use jorb.Run.{Run}
use jorb.Json.{Codec, RoundTrips}
use jorb.Json.Disk.{whole, Disk, Store, ignoring, change, touch, environment, is_there}
use jorb.Json.Store.{remove_tmp, remove_old, promote_unless, recover_checkpoint_atomic}
use jorb.Json.Rules.{Post, bind_rule, ignoring_rule, Stable, touch_rule, change_rule}
use jorb.Json.Durable.{Holds, environment-rest, Holds-same}
use jorb.Json.ReadBack.{Alone, Alone-environment}

module _ {Line OC C : Type 0} (codec : Codec Line C) (laws : RoundTrips codec) (now : ℕ → ℕ → Time)
    (overall : OC) where
  -- While a serializer starts: nothing that is read has changed.
  abbrev pub Starting :
      Run OC C → Run OC C → Option (List Line) → List (ℕ × List Line) → Store Line OC C → Type 0
  Starting v c a l s =
      Holds codec v [] s.disk
      × (s.append_file ≡ false)
      × Alone s.events
      × (s.disk.main ≡ some (whole c))
      × (s.disk.active ≡ a)
      × (s.disk.sealed ≡ l)

  module _ (v c : Run OC C) (a : Option (List Line)) (l : List (ℕ × List Line)) where
    abbrev pub Kept : Store Line OC C → Type 0
    Kept s = Holds codec v [] s.disk

    pub Starting-turn :
        (s : Store Line OC C) → Starting v c a l s → Starting v c a l (environment s)
    Starting-turn s (h, closed, alone, m, p, q) =
        let (same, still) = environment-rest s in
        (
          subst (Holds codec v []) (sym same) h,
          still ∙ closed,
          Alone-environment s alone,
          ap (λ d. d.main) same ∙ m,
          ap (λ d. d.active) same ∙ p,
          ap (λ d. d.sealed) same ∙ q,
        )

    pub Starting-Stable : Stable Kept (Starting v c a l)
    Starting-Stable = record { turn = Starting-turn; safe = λ s h. h.0 }

    kept-Starting :
        (f : Disk Line OC C → Disk Line OC C) (s : Store Line OC C)
        → ((d : Disk Line OC C)
            → ((f d).main ≡ d.main) × ((f d).active ≡ d.active) × ((f d).sealed ≡ d.sealed))
        → Starting v c a l s
        → Starting v c a l (record s { disk = f s.disk })
    kept-Starting f s same (h, closed, alone, m, p, q) =
        let (i, j, k) = same s.disk in
        (
          Holds-same codec v [] s.disk (f s.disk) (same s.disk) h,
          closed,
          alone,
          i ∙ m,
          j ∙ p,
          k ∙ q,
        )

    removal_rule :
        (f : Disk Line OC C → Disk Line OC C) (s : Store Line OC C)
        → ((d : Disk Line OC C)
            → ((f d).main ≡ d.main) × ((f d).active ≡ d.active) × ((f d).sealed ≡ d.sealed))
        → Starting v c a l s
        → Post Kept (ignoring (change f) s) (λ u t. Starting v c a l t)
    removal_rule f s same h =
        ignoring_rule Kept (change f) s (Starting v c a l)
          (change_rule (Starting v c a l) (Starting v c a l)
            (record { turn = Starting-turn; safe = λ t x. x }) f (Starting v c a l) s h
            (λ t x. kept-Starting f t same x))
          (λ t x. x.0)

    -- The checkpoint is there, so what is left of others is removed.
    pub recover_rule :
        (s : Store Line OC C)
        → Starting v c a l s
        → Post Kept (recover_checkpoint_atomic s) (λ u t. Starting v c a l t)
    unfolding recover_checkpoint_atomic
    recover_rule s h =
        bind_rule Kept touch _ s (λ u t. Starting v c a l t) _
          (touch_rule Kept (Starting v c a l) Starting-Stable s h)
          λ u t x.
            subst (λ m. Post Kept (promote_unless (is_there m) t) (λ u y. Starting v c a l y))
              (sym x.3)
              (bind_rule Kept remove_tmp (λ u. remove_old) t (λ u y. Starting v c a l y) _
                (removal_rule (λ d. record d { tmp = none }) t (λ d. (refl, refl, refl)) x)
                λ u y z. removal_rule (λ d. record d { old = none }) y (λ d. (refl, refl, refl)) z)
