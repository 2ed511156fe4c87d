-- ===== src/Processor/Goroutines/Placed.antt =====
-- Where the goroutines stand while the channels are open, and that their moves keep it.
use jorb.Base.{
  ◌≡◌, refl, sym, ap, ◌∙◌, subst, inl, inr, String, Bool-cases, true, false, some, List, [], ◌∷◌,
  ◌++◌, All, All-map, All-append, All-split, Any, Any-append_left, Any-append_right, Any-split,
  lookup, if◌then◌else◌,
}
use jorb.Channel.{Channel}
use jorb.Job.{Job}
use jorb.State.{State}
use jorb.Storage.{Storage, is_terminal}
use jorb.Storage.Invariant.{SameStates}
use jorb.Storage.Status.{all_jobs_are_terminal, has_executing_jobs}
use jorb.Processor.{Return, Main}
use jorb.Processor.Registered.{IsRegistered, IsRegistered-SameStates}
use jorb.Processor.System.{Answers}
use jorb.Processor.Starting.{DistinctStates}
use jorb.Processor.Goroutines as G
use jorb.Processor.Goroutines.{
  Worker, idle, executing, executed, sending, stopped, Phase, selecting, draining, leaving, ended,
  Goroutines, Moves, moved, is_finished, Go,
}
use jorb.Processor.Goroutines.Workers.{NameOk, AnswersHeld, Staff, mover, All-moved, Any-moved}

to_front :
    {A : Type 0} (P : A → Type 0) (before after : List A) (x : A)
    → Any P (before ++ x ∷ after)
    → Any P (x ∷ before ++ after)
to_front P before after x a = elim (Any-split P before (x ∷ after) a) [
  | inl b ↦ inr (Any-append_left P before after b)
  | inr (inl p) ↦ inl p
  | inr (inr b) ↦ inr (Any-append_right P before after b)
]

All-to_front :
    {A : Type 0} (P : A → Type 0) (before after : List A) (x y : A)
    → P y
    → All P (before ++ x ∷ after)
    → All P (y ∷ before ++ after)
All-to_front P before after x y p a =
    let (b, (h, c)) = All-split P before (x ∷ after) a in (p, All-append P before after b c)

-- Every state of the list is in the map, and no two have the same trigger state.
abbrev pub StatesOk : {E L C : Type 0} → Storage E L C → Type 0
StatesOk s = All (λ c. IsRegistered s c.trigger_state) s.states × DistinctStates s.states

NameOk-SameStates :
    {E L C : Type 0} {s t : Storage E L C} (k : String) → SameStates s t → NameOk s k → NameOk t k
NameOk-SameStates k same (a, b) =
    (IsRegistered-SameStates k same a, subst (Any (λ c. c.trigger_state ≡ k)) (sym same.states) b)

Answers-SameStates :
    {E L C : Type 0} {s t : Storage E L C} (j : Job C) (r : Return C)
    → SameStates s t
    → Answers s j r
    → Answers t j r
Answers-SameStates j r same a = record {
  prior = a.prior;
  same_id = a.same_id;
  next = IsRegistered-SameStates r.job.state same a.next;
  kicks = All-map _ _ r.kick_requests (λ k. IsRegistered-SameStates k.state same) a.kicks;
}

module _ {E L W OC C : Type 0} where
  -- A state that is worked has a worker.
  abbrev pub Staffed : Goroutines E L W OC C → Type 0
  Staffed y =
      (k : String) (c : State E L)
      → lookup k y.main.storage.state_map ≡ some c
      → c.terminal ≡ false
      → Any (λ (n, w). n ≡ k) y.workers

  abbrev pub PhaseOk : Phase → Main E L W OC C → Type 0
  PhaseOk selecting m = is_finished m ≡ false
  PhaseOk draining m = Unit
  PhaseOk leaving m = is_finished m ≡ true
  PhaseOk ended m = ⊥

  -- But for what holds of the system without the places.
  pub record Placed (y : Goroutines E L W OC C) : Type 0 where
    pub staff : Staff y
    pub staffed : Staffed y
    pub is_open : y.returns.closed ≡ false
    pub phase : PhaseOk y.phase y.main
    pub states : StatesOk y.main.storage

  pub Placed-moved :
      (y : Goroutines E L W OC C) (k : String) (w w' : Worker C) (m : Moves y k w)
      → AnswersHeld y w'
      → Placed y
      → Placed (moved y m w')
  Placed-moved y k w w' m a h = record {
    staff = record {
      named =
          All-moved _ m.before m.after k w w'
            (mover (λ (n, v). NameOk y.main.storage n) y k w m h.staff.named)
            (subst (All (λ (n, v). NameOk y.main.storage n)) m.at h.staff.named);
      answers =
          All-moved (λ (n, v). AnswersHeld y v) m.before m.after k w w' a
            (subst (All (λ (n, v). AnswersHeld y v)) m.at h.staff.answers);
      cap = h.staff.cap;
    };
    staffed = λ i c e t.
        Any-moved i m.before m.after k w w'
          (subst (Any (λ (n, v). n ≡ i)) m.at (h.staffed i c e t));
    is_open = h.is_open;
    phase = h.phase;
    states = h.states;
  }

  is_finished-received :
      (m : Main E L W OC C) (k : String) (ch : Channel (Job C)) (rest : List (Job C))
      → is_finished (G.received m k ch rest) ≡ is_finished m
  unfolding all_jobs_are_terminal has_executing_jobs is_terminal
  is_finished-received m k ch rest = refl

  PhaseOk-same :
      (p : Phase) (m n : Main E L W OC C)
      → is_finished n ≡ is_finished m
      → PhaseOk p m
      → PhaseOk p n
  PhaseOk-same selecting m n e h = e ∙ h
  PhaseOk-same draining m n e h = tt
  PhaseOk-same leaving m n e h = e ∙ h
  PhaseOk-same ended m n e h = h

  pub Placed-received :
      (y : Goroutines E L W OC C) (k : String) (m : Moves y k idle) (ch : Channel (Job C))
      (j : Job C) (rest : List (Job C))
      → Placed y
      → Placed (record y {
        main = G.received y.main k ch rest;
        workers = (k, executing j) ∷ m.before ++ m.after;
      })
  Placed-received y k m ch j rest h = record {
    staff = record {
      named =
          All-to_front (λ (n, v). NameOk y.main.storage n) m.before m.after (k, idle)
            (k, executing j) (mover (λ (n, v). NameOk y.main.storage n) y k idle m h.staff.named)
            (subst (All (λ (n, v). NameOk y.main.storage n)) m.at h.staff.named);
      answers = answers;
      cap = h.staff.cap;
    };
    staffed = λ i c e t.
        to_front (λ (n, v). n ≡ i) m.before m.after (k, executing j)
          (Any-moved i m.before m.after k idle (executing j)
            (subst (Any (λ (n, v). n ≡ i)) m.at (h.staffed i c e t)));
    is_open = h.is_open;
    phase = PhaseOk-same y.phase y.main _ (is_finished-received y.main k ch rest) h.phase;
    states = h.states;
  }
    where
      z : Goroutines E L W OC C
      z = record y { main = G.received y.main k ch rest }

      same_answers : (v : Worker C) → AnswersHeld y v → AnswersHeld z v
      same_answers idle a = a
      same_answers (executing i) a = a
      same_answers (executed i r) a = record {
        prior = a.prior;
        same_id = a.same_id;
        next = a.next;
        kicks = a.kicks;
      }
      same_answers (sending i r) a = record {
        prior = a.prior;
        same_id = a.same_id;
        next = a.next;
        kicks = a.kicks;
      }
      same_answers stopped a = a

      answers : All (λ (n, v). AnswersHeld z v) ((k, executing j) ∷ m.before ++ m.after)
      answers =
          All-to_front (λ (n, v). AnswersHeld z v) m.before m.after (k, idle) (k, executing j) tt
            (subst (All (λ (n, v). AnswersHeld z v)) m.at (
              All-map (λ (n, v). AnswersHeld y v) (λ (n, v). AnswersHeld z v) y.workers
                (λ (n, v). same_answers v) h.staff.answers))

  pub Placed-sent :
      (y : Goroutines E L W OC C) (k : String) (j : Job C) (r : Return C)
      (m : Moves y k (sending j r))
      → Placed y
      → Placed (record y {
        workers = m.before ++ (k, idle) ∷ m.after;
        returns = record y.returns { buf = y.returns.buf ++ r ∷ [] };
      })
  Placed-sent y k j r m h =
      let p = Placed-moved y k (sending j r) idle m tt h in
      record {
        staff = record { named = p.staff.named; answers = p.staff.answers; cap = p.staff.cap };
        staffed = p.staffed;
        is_open = p.is_open;
        phase = p.phase;
        states = p.states;
      }

  pub Placed-handled :
      (y : Goroutines E L W OC C) (m : Main E L W OC C) (rest : List (Return C))
      → SameStates y.main.storage m.storage
      → Placed y
      → Placed (record y { main = m; phase = draining; returns = record y.returns { buf = rest } })
  Placed-handled y m rest same h = record {
    staff = record {
      named = All-map _ _ y.workers (λ (n, v). NameOk-SameStates n same) h.staff.named;
      answers =
          All-map (λ (n, v). AnswersHeld y v) (λ (n, v). AnswersHeld z v) y.workers
            (λ (n, v). same_answers v) h.staff.answers;
      cap = h.staff.cap;
    };
    staffed = λ i c e t. h.staffed i c (ap (lookup i) (sym same.state_map) ∙ e) t;
    is_open = h.is_open;
    phase = tt;
    states =
        subst (λ cs. All (λ c. IsRegistered m.storage c.trigger_state) cs × DistinctStates cs)
          (sym same.states)
          (
            All-map _ _ y.main.storage.states (λ c. IsRegistered-SameStates c.trigger_state same)
                h.states.0,
            h.states.1,
          );
  }
    where
      z : Goroutines E L W OC C
      z = record y { main = m }

      same_answers : (v : Worker C) → AnswersHeld y v → AnswersHeld z v
      same_answers idle a = a
      same_answers (executing i) a = a
      same_answers (executed i r) a = Answers-SameStates i r same a
      same_answers (sending i r) a = Answers-SameStates i r same a
      same_answers stopped a = a

  pub Placed-drained :
      (y : Goroutines E L W OC C)
      → Placed y
      → Placed (record y { phase = if is_finished y.main then leaving else selecting })
  Placed-drained y h = record {
    staff = record { named = h.staff.named; answers = h.staff.answers; cap = h.staff.cap };
    staffed = h.staffed;
    is_open = h.is_open;
    phase = elim (Bool-cases (is_finished y.main)) [
      | inl e ↦ subst (λ b. PhaseOk (if b then leaving else selecting) y.main) (sym e) e
      | inr e ↦ subst (λ b. PhaseOk (if b then leaving else selecting) y.main) (sym e) e
    ];
    states = h.states;
  }
