-- ===== src/Processor/Goroutines/Beginning.antt =====
-- processor.go, the place at which `Exec` starts the goroutines.
use jorb.Base.{
  ◌≡◌, ◌≤◌, refl, sym, ap, ◌∙◌, subst, inl, inr, String, false, none, some, List, [], ◌∷◌, pos_part,
  Distinct, All, All-map, Any, lookup, arith,
}
use jorb.Channel.{make_chan}
use jorb.Run.{Run}
use jorb.State.{State}
use jorb.Storage.{Storage, is_terminal}
use jorb.Storage.New.{validate, new_state_storage_from_states}
use jorb.Storage.Valid.{StateOk, validate_iff}
use jorb.Storage.Status.{all_jobs_are_terminal}
use jorb.Processor.Registered.{IsRegistered, IsRegistered-SameStates}
use jorb.Processor.Safety.{SystemOk}
use jorb.Processor.Finishing.{Tracked}
use jorb.Processor.Starting.{DistinctStates}
use jorb.Processor.Launch.{launched, Started, launched-SystemOk, launched-Tracked}
use jorb.Processor.Goroutines.{
  Worker, idle, Goroutines, start_workers, start_goroutines, is_finished,
}
use jorb.Processor.Goroutines.Workers.{system, jobs_held, NameOk, AnswersHeld}
use jorb.Processor.Goroutines.Placed.{StatesOk}
use jorb.Processor.Goroutines.Alive.{Alive}
use jorb.Processor.Goroutines.Over.{AtRest}
use jorb.Processor.Goroutines.Going.{none_held}
use jorb.Processor.Goroutines.Configured.{
  new_storage-states, new_storage-IsRegistered, new_storage-entry, start_workers-All,
  start_workers-Any,
}

-- What holds of each element of the list.
every :
    {A : Type 0} (P : A → Type 0) (xs : List A) → ((x : A) → Any (λ y. y ≡ x) xs → P x) → All P xs
every P [] f = tt
every P (x ∷ xs) f = (f x (inl refl), every P xs (λ y m. f y (inr m)))

All-member :
    {A : Type 0} (P : A → Type 0) (xs : List A) (x : A) → All P xs → Any (λ y. y ≡ x) xs → P x
All-member P [] x a m = elim m [ ]
All-member P (y ∷ xs) x a (inl e) = subst P e a.0
All-member P (y ∷ xs) x a (inr m) = All-member P xs x a.1 m

Any-map :
    {A : Type 0} (P Q : A → Type 0) (xs : List A) → ((x : A) → P x → Q x) → Any P xs → Any Q xs
Any-map P Q [] f a = elim a [ ]
Any-map P Q (x ∷ xs) f (inl p) = inl (f x p)
Any-map P Q (x ∷ xs) f (inr a) = inr (Any-map P Q xs f a)

module _ {E L C : Type 0} where
  idle-All :
      (P : String × Worker C → Type 0) (ss : List (State E L))
      → ((c : State E L) → P (c.trigger_state, idle))
      → All P (start_workers ss)
  idle-All P ss f = start_workers-All P ss (every _ ss (λ c m. f c))

module _ {E L : Type 0} (C : Type 0) where
  all_idle : (ss : List (State E L)) → jobs_held {C = C} (start_workers ss) ≡ []
  all_idle ss = none_held (start_workers ss) (idle-All (λ (n, w). AtRest w) ss (λ c. tt))

module _ {E L W OC C : Type 0} (states : List (State E L)) (run : Run OC C) (store : W) where
  abbrev s₀ : Storage E L C
  s₀ = new_state_storage_from_states states

  module _ (valid : validate s₀ ≡ none) (distinct : DistinctStates states) (t : Storage E L C)
      (h : Started s₀ t run.jobs) where
    abbrev y : Goroutines E L W OC C
    y = start_goroutines t run store

    t-states : t.states ≡ states
    t-states = h.same.states ∙ new_storage-states C states

    registered : All (λ c. IsRegistered t c.trigger_state) states
    registered =
        All-map _ _ states (λ c. IsRegistered-SameStates c.trigger_state h.same)
          (new_storage-IsRegistered C states)

    states_ok : StatesOk t
    states_ok =
        subst (λ cs. All (λ c. IsRegistered t c.trigger_state) cs × DistinctStates cs)
          (sym t-states) (registered, distinct)

    named : All (λ (n, w). NameOk t n) (start_workers {C = C} t.states)
    named =
        start_workers-All (λ (n, w). NameOk t n) t.states
          (every _ t.states (λ c m. (
            All-member (λ c. IsRegistered t c.trigger_state) t.states c states_ok.0 m,
            Any-map _ _ t.states (λ d e. ap (λ x. x.trigger_state) e) m,
          )))

    worked :
        (c : State E L) → Any (λ d. d ≡ c) states → c.terminal ≡ false → 1 ≤ pos_part c.concurrency
    worked c m live =
        let good =
          All-member (StateOk s₀.state_map) states c
            (subst (All (StateOk s₀.state_map)) (new_storage-states C states)
              ((validate_iff s₀).0 valid))
            m in
        ground (arith, good.concurrency live)

    staffed :
        (k : String) (c : State E L)
        → lookup k t.state_map ≡ some c
        → c.terminal ≡ false
        → Any {A = String × Worker C} (λ (n, w). n ≡ k) (start_workers t.states)
    staffed k c e live =
        let (m, name) = new_storage-entry C states k c (ap (lookup k) (sym h.same.state_map) ∙ e) in
        subst (λ cs. Any {A = String × Worker C} (λ (n, w). n ≡ k) (start_workers cs))
          (sym t-states)
          (Any-map {A = String × Worker C} _ _ (start_workers states) (λ (n, w) p. p ∙ name)
            (start_workers-Any C states c m live (worked c m live)))

    unfinished : all_jobs_are_terminal s₀ run ≡ false → is_finished y.main ≡ false
    unfolding all_jobs_are_terminal is_terminal start_goroutines
    unfinished e = rw h.same.state_map (rw e refl)

    pub start-Alive :
        Distinct run.jobs
        → All (λ (id, j). j.id ≡ id) run.jobs
        → all_jobs_are_terminal s₀ run ≡ false
        → Alive y
    unfolding start_goroutines make_chan
    start-Alive unique keyed e = record {
      sound = subst SystemOk (sym same) (launched-SystemOk t run store h.inv);
      tracked = subst Tracked (sym same) (launched-Tracked s₀ t run store unique keyed h);
      still = refl;
      placed = record {
        staff = record {
          named = named;
          answers = idle-All (λ (n, w). AnswersHeld y w) t.states (λ c. tt);
          cap = refl;
        };
        staffed = staffed;
        is_open = refl;
        phase = unfinished e;
        states = states_ok;
      };
    }
      where
        same : system y ≡ launched t run store
        same =
            ap
              (λ js. record {
                main = record { storage = t; run = run; store = store };
                working = js;
                returning = [];
              })
              (all_idle C t.states)
