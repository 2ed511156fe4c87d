-- ===== src/Json/Rules.antt =====
-- How the chains of calls are reasoned about: what holds after a call that worked, and what holds
-- after any that did not.
use jorb.Base.{◌≡◌, ◌≢◌, refl, Bool, true, false, if◌then◌else◌}
use jorb.Json.Disk.{
  Outcome, works, fails, dies, Event, Store, os_error, Answer, done, failed, died, Io, continue,
  ◌>>=◌, raise, ignoring, ◌on_error◌, environment, syscall, change, settle, recover, give_up, found,
  touch, stat, Disk, next_event,
}

-- `Q` holds of what was returned, or `E` if the call failed or the program died.
abbrev pub Post :
    {Line OC C A : Type 0}
    → (Store Line OC C → Type 0)
    → Answer A × Store Line OC C
    → (A → Store Line OC C → Type 0)
    → Type 0
Post E (done a, s) Q = Q a s
Post E (failed e, s) Q = E s
Post E (died, s) Q = E s

module _ {Line OC C : Type 0} (E : Store Line OC C → Type 0) where
  pub post_map :
      {A : Type 0} (r : Answer A × Store Line OC C) (P Q : A → Store Line OC C → Type 0)
      → Post E r P
      → ((a : A) (t : Store Line OC C) → P a t → Q a t)
      → Post E r Q
  post_map (done a, s) P Q h k = k a s h
  post_map (failed e, s) P Q h k = h
  post_map (died, s) P Q h k = h

  pub fail_map :
      {A : Type 0} (r : Answer A × Store Line OC C) (F : Store Line OC C → Type 0)
      (Q : A → Store Line OC C → Type 0)
      → Post F r Q
      → ((t : Store Line OC C) → F t → E t)
      → Post E r Q
  fail_map (done a, s) F Q h k = h
  fail_map (failed e, s) F Q h k = k s h
  fail_map (died, s) F Q h k = k s h

  step_rule :
      {A B : Type 0} (r : Answer A × Store Line OC C) (f : A → Io Line OC C B)
      (P : A → Store Line OC C → Type 0) (Q : B → Store Line OC C → Type 0)
      → Post E r P
      → ((a : A) (t : Store Line OC C) → P a t → Post E (f a t) Q)
      → Post E (continue r.0 f r.1) Q
  step_rule (done a, s) f P Q h k = k a s h
  step_rule (failed e, s) f P Q h k = h
  step_rule (died, s) f P Q h k = h

  pub bind_rule :
      {A B : Type 0} (m : Io Line OC C A) (f : A → Io Line OC C B) (s : Store Line OC C)
      (P : A → Store Line OC C → Type 0) (Q : B → Store Line OC C → Type 0)
      → Post E (m s) P
      → ((a : A) (t : Store Line OC C) → P a t → Post E (f a t) Q)
      → Post E ((m >>= f) s) Q
  bind_rule m f s P Q h k = step_rule (m s) f P Q h k

  settle_rule :
      (e : Event C) (effect part : Store Line OC C → Store Line OC C) (s : Store Line OC C)
      (Q : Unit {0} → Store Line OC C → Type 0)
      → Q tt (effect s)
      → E s
      → E (part s)
      → Post E (settle e effect part s) Q
  settle_rule e effect part s Q h k l = split e.outcome e.partial
    where
      split :
          (o : Outcome) (b : Bool)
          → Post E
              (elim o [
                | works ↦ (done tt, effect s)
                | fails ↦ (failed os_error, if b then part s else s)
                | dies ↦ (died, if b then part s else s)
              ])
              Q
      split works b = h
      split fails true = l
      split fails false = k
      split dies true = l
      split dies false = k

  pub syscall_rule :
      (effect part : Store Line OC C → Store Line OC C) (s : Store Line OC C)
      (Q : Unit {0} → Store Line OC C → Type 0)
      → Q tt (effect (environment s))
      → E (environment s)
      → E (part (environment s))
      → Post E (syscall effect part s) Q
  unfolding syscall
  syscall_rule effect part s Q h k l =
      settle_rule (next_event s.events) effect part (environment s) Q h k l

  recover_rule :
      (r : Answer (Unit {0}) × Store Line OC C) (P : Store Line OC C → Type 0)
      → Post P r (λ u t. P t)
      → ((t : Store Line OC C) → P t → E t)
      → Post E (recover r.0, r.1) (λ u t. P t)
  recover_rule (done u, t) P h k = h
  recover_rule (failed e, t) P h k = h
  recover_rule (died, t) P h k = k t h

  -- A call whose write, if it is one, is not cut off.
  pub whole_call_rule :
      (effect part : Store Line OC C → Store Line OC C) (s : Store Line OC C)
      (Q : Unit {0} → Store Line OC C → Type 0)
      → (next_event s.events).partial ≡ false
      → Q tt (effect (environment s))
      → E (environment s)
      → Post E (syscall effect part s) Q
  unfolding syscall
  whole_call_rule effect part s Q e h k =
      split (next_event s.events).outcome (next_event s.events).partial e
    where
      split :
          (o : Outcome) (b : Bool)
          → b ≡ false
          → Post E
              (elim o [
                | works ↦ (done tt, effect (environment s))
                | fails ↦ (failed os_error, if b then part (environment s) else environment s)
                | dies ↦ (died, if b then part (environment s) else environment s)
              ])
              Q
      split works b e = h
      split fails true e = cc
      split fails false e = k
      split dies true e = cc
      split dies false e = k

  -- A call whose failure is overlooked.
  pub ignoring_rule :
      (m : Io Line OC C (Unit {0})) (s : Store Line OC C) (P : Store Line OC C → Type 0)
      → Post P (m s) (λ u t. P t)
      → ((t : Store Line OC C) → P t → E t)
      → Post E (ignoring m s) (λ u t. P t)
  ignoring_rule m s P h k = recover_rule (m s) P h k

  give_up_rule :
      (r : Answer (Unit {0}) × Store Line OC C) (g : Io Line OC C (Unit {0}))
      (F P : Store Line OC C → Type 0)
      → Post F r (λ u t. P t)
      → ((t : Store Line OC C) → F t → E t)
      → ((t : Store Line OC C) → F t → Post E (g t) (λ u v. E v))
      → Post E (give_up r.0 g r.1) (λ u t. P t)
  give_up_rule (done u, t) g F P h l k = h
  give_up_rule (failed e, t) g F P h l k =
      step_rule (g t) (λ u. raise e) (λ u v. E v) (λ u v. P v) (k t h) (λ u v x. x)
  give_up_rule (died, t) g F P h l k = l t h

  -- A call whose failure is followed by another call, and returned.
  pub on_error_rule :
      (m g : Io Line OC C (Unit {0})) (s : Store Line OC C) (F P : Store Line OC C → Type 0)
      → Post F (m s) (λ u t. P t)
      → ((t : Store Line OC C) → F t → E t)
      → ((t : Store Line OC C) → F t → Post E (g t) (λ u v. E v))
      → Post E (◌on_error◌ m g s) (λ u t. P t)
  on_error_rule m g s F P h l k = give_up_rule (m s) g F P h l k

  found_rule :
      (r : Answer (Unit {0}) × Store Line OC C) (test : Disk Line OC C → Bool)
      (P : Bool → Store Line OC C → Type 0)
      → Post (P false) r (λ u t. P (test t.disk) t)
      → ((t : Store Line OC C) → P false t → E t)
      → Post E (found r.0 (test r.1.disk), r.1) P
  found_rule (done u, t) test P h k = h
  found_rule (failed e, t) test P h k = h
  found_rule (died, t) test P h k = k t h

  -- A question to the file system that counts as answered with no when it fails.
  pub stat_rule :
      (test : Disk Line OC C → Bool) (s : Store Line OC C) (P : Bool → Store Line OC C → Type 0)
      → Post (P false) (touch s) (λ u t. P (test t.disk) t)
      → ((t : Store Line OC C) → P false t → E t)
      → Post E (stat test s) P
  unfolding stat
  stat_rule test s P h k = found_rule (touch s) test P h k

  -- A question that does not fail.
  pub sure_stat_rule :
      (test : Disk Line OC C → Bool) (s : Store Line OC C) (P : Bool → Store Line OC C → Type 0)
      → (next_event s.events).outcome ≢ fails
      → P (test (environment s).disk) (environment s)
      → E (environment s)
      → Post E (stat test s) P
  unfolding stat syscall
  sure_stat_rule test s P sure h k =
      split (next_event s.events).outcome (next_event s.events).partial sure
    where
      after : Outcome → Bool → Answer (Unit {0}) × Store Line OC C
      after o b = elim o [
        | works ↦ (done tt, environment s)
        | fails ↦ (failed os_error, if b then environment s else environment s)
        | dies ↦ (died, if b then environment s else environment s)
      ]

      split :
          (o : Outcome) (b : Bool)
          → o ≢ fails
          → Post E (found (after o b).0 (test (after o b).1.disk), (after o b).1) P
      split works b sure = h
      split fails b sure = absurd (sure refl)
      split dies true sure = k
      split dies false sure = k

-- The main goroutine's turn keeps the assertion, and the assertion is enough when a call fails.
pub record Stable {Line OC C : Type 0} (E I : Store Line OC C → Type 0) : Type 0 where
  pub turn : (s : Store Line OC C) → I s → I (environment s)
  pub safe : (s : Store Line OC C) → I s → E s

module _ {Line OC C : Type 0} (E I : Store Line OC C → Type 0) (stable : Stable E I) where
  pub touch_rule : (s : Store Line OC C) → I s → Post E (touch s) (λ u t. I t)
  touch_rule s h =
      let now = stable.turn s h in
      syscall_rule E (λ t. t) (λ t. t) s (λ u t. I t) now (stable.safe _ now) (stable.safe _ now)

  pub change_rule :
      (f : Disk Line OC C → Disk Line OC C) (J : Store Line OC C → Type 0) (s : Store Line OC C)
      → I s
      → ((t : Store Line OC C) → I t → J (record t { disk = f t.disk }))
      → Post E (change f s) (λ u t. J t)
  change_rule f J s h k =
      let now = stable.turn s h in
      syscall_rule E (λ t. record t { disk = f t.disk }) (λ t. t) s (λ u t. J t) (k _ now)
        (stable.safe _ now) (stable.safe _ now)
