-- ===== src/Processor/Goroutines/Workers.antt =====
-- The goroutines as the steps of Processor.System: what the workers hold, and what their moves are there.
use mathlib.Core.List.{append_assoc}
use jorb.Base.{
  ◌<◌, ◌≡◌, ◌≢◌, refl, sym, ap, ◌∙◌, subst, ◌⊎◌, inl, inr, String, false, some, List, [], ◌∷◌, ◌++◌,
  All, All-append, All-split, Any, Any-append_left, Any-append_right, Any-split, lookup, length,
}
use mathlib.Core.Option.{some-injective}
use jorb.Channel.{Channel}
use jorb.Job.{Job}
use jorb.Storage.{Storage}
use jorb.Processor.{Serializer}
use jorb.Processor.Registered.{IsRegistered, NeverFails}
use jorb.Processor.System.{System, return_cap, Answers, Step, finish, handle, take_job}
use jorb.Processor.Safety.{SystemOk}
use jorb.Processor.Progress.{take_next}
use jorb.Processor.Goroutines as G
use jorb.Processor.Goroutines.{
  Worker, idle, executing, executed, sending, stopped, Phase, ended, Goroutines, Moves, moved, Go,
}

abbrev pub held : {C : Type 0} → Worker C → List (Job C)
held idle = []
held (executing j) = j ∷ []
held (executed j r) = j ∷ []
held (sending j r) = j ∷ []
held stopped = []

abbrev pub jobs_held : {C : Type 0} → List (String × Worker C) → List (Job C)
jobs_held [] = []
jobs_held ((k, w) ∷ ws) = held w ++ jobs_held ws

module _ {C : Type 0} where
  pub jobs_held-append :
      (xs ys : List (String × Worker C)) → jobs_held (xs ++ ys) ≡ jobs_held xs ++ jobs_held ys
  jobs_held-append [] ys = refl
  jobs_held-append ((k, w) ∷ xs) ys =
      ap (λ js. held w ++ js) (jobs_held-append xs ys)
      ∙ sym (append_assoc (held w) (jobs_held xs) (jobs_held ys))

  -- What holds of every worker holds once one of them has moved.
  pub All-moved :
      (P : String × Worker C → Type 0) (before after : List (String × Worker C)) (k : String)
      (w w' : Worker C)
      → P (k, w')
      → All P (before ++ (k, w) ∷ after)
      → All P (before ++ (k, w') ∷ after)
  All-moved P before after k w w' p a =
      let (b, (h, c)) = All-split P before ((k, w) ∷ after) a in
      All-append P before ((k, w') ∷ after) b (p, c)

  pub Any-moved :
      (i : String) (before after : List (String × Worker C)) (k : String) (w w' : Worker C)
      → Any (λ (n, v). n ≡ i) (before ++ (k, w) ∷ after)
      → Any (λ (n, v). n ≡ i) (before ++ (k, w') ∷ after)
  Any-moved i before after k w w' a = elim (Any-split _ before ((k, w) ∷ after) a) [
    | inl b ↦ Any-append_left _ before ((k, w') ∷ after) b
    | inr c ↦ Any-append_right _ before ((k, w') ∷ after) c
  ]

-- The name is that of a state.
abbrev pub NameOk : {E L C : Type 0} → Storage E L C → String → Type 0
NameOk s k = IsRegistered s k × Any (λ c. c.trigger_state ≡ k) s.states

module _ {E L W OC C : Type 0} where
  -- The goroutines without the places where they stand.
  abbrev pub system : Goroutines E L W OC C → System E L W OC C
  system y = record { main = y.main; working = jobs_held y.workers; returning = y.returns.buf }

  pub rest_held :
      (y : Goroutines E L W OC C) (k : String) (w : Worker C) (m : Moves y k w)
      → jobs_held y.workers ≡ jobs_held m.before ++ (held w ++ jobs_held m.after)
  rest_held y k w m = ap jobs_held m.at ∙ jobs_held-append m.before ((k, w) ∷ m.after)

  -- A worker that moves and keeps what it holds.
  pub moved-system :
      (y : Goroutines E L W OC C) (k : String) (w w' : Worker C) (m : Moves y k w)
      → held w' ≡ held w
      → system (moved y m w') ≡ system y
  moved-system y k w w' m e =
      ap (λ js. record { main = y.main; working = js; returning = y.returns.buf })
        (jobs_held-append m.before ((k, w') ∷ m.after)
          ∙ ap (λ js. jobs_held m.before ++ (js ++ jobs_held m.after)) e
          ∙ sym (jobs_held-append m.before ((k, w) ∷ m.after))
          ∙ ap jobs_held (sym m.at))

  abbrev pub AnswersHeld : Goroutines E L W OC C → Worker C → Type 0
  AnswersHeld y idle = Unit
  AnswersHeld y (executing j) = Unit
  AnswersHeld y (executed j r) = Answers y.main.storage j r
  AnswersHeld y (sending j r) = Answers y.main.storage j r
  AnswersHeld y stopped = ⊥

  -- What holds of the workers while the channels are open and the context is not done.
  pub record Staff (y : Goroutines E L W OC C) : Type 0 where
    pub named : All (λ (n, w). NameOk y.main.storage n) y.workers
    pub answers : All (λ (n, w). AnswersHeld y w) y.workers
    pub cap : y.returns.cap ≡ return_cap

  pub mover :
      (P : String × Worker C → Type 0) (y : Goroutines E L W OC C) (k : String) (w : Worker C)
      (m : Moves y k w)
      → All P y.workers
      → P (k, w)
  mover P y k w m a = (All-split P m.before ((k, w) ∷ m.after) (subst (All P) m.at a)).1.0

module _ {E L W OC C : Type 0} (serializer : Serializer W C) (never : NeverFails serializer)
    (y : Goroutines E L W OC C) (h : SystemOk (system y)) (staff : Staff y) where
  -- Nothing moves there, or there is a step there.
  abbrev pub Simulates : Goroutines E L W OC C → Type 0
  Simulates z = (system z ≡ system y) ⊎ Step serializer (system y) (system z)

  taken :
      (k : String) (m : Moves y k idle) (ch : Channel (Job C)) (j : Job C) (rest : List (Job C))
      → lookup k y.main.storage.state_chan ≡ some ch
      → ch.buf ≡ j ∷ rest
      → Step serializer (system y) (take_job (system y) k ch j rest)
  taken k m ch j rest e b =
      let (c, known) = (mover _ y k idle m staff.named).0 in
      let (l, has, good) = h.lanes.lanes k c known in
      let same : l.chan ≡ ch = some-injective _ _ (sym has.chan ∙ e) in
      subst (λ x. Step serializer (system y) (take_job (system y) k x j rest)) same
        (take_next serializer never (system y) k c l j rest known has good
          (ap (λ x. x.buf) same ∙ b))

  -- While the context is not done and the channels are not closed yet, each move of a goroutine is a
  -- step of Processor.System, or one that does not show there.
  pub Go-Simulates :
      (z : Goroutines E L W OC C)
      → Go serializer y z
      → y.canceled ≡ false
      → z.phase ≢ ended
      → Simulates z
  Go-Simulates z (G.receive k m ch j rest e b ez) live on = subst Simulates (sym ez) (
      inr (
        subst
          (λ js. Step serializer (system y) (record {
            main = G.received y.main k ch rest;
            working = j ∷ js;
            returning = y.returns.buf;
          }))
          (rest_held y k idle m ∙ sym (jobs_held-append m.before m.after))
          (taken k m ch j rest e b)))
  Go-Simulates z (G.stop_closed k m ch e b closed ez) live on =
      inl (ap system ez ∙ moved-system y k idle stopped m refl)
  Go-Simulates z (G.stop_canceled k m canceled ez) live on =
      inl (ap system ez ∙ moved-system y k idle stopped m refl)
  Go-Simulates z (G.execute k j m r a ez) live on =
      inl (ap system ez ∙ moved-system y k (executing j) (executed j r) m refl)
  Go-Simulates z (G.drop k j r m canceled ez) live on = cc (live, canceled)
  Go-Simulates z (G.pass k j r m still ez) live on =
      inl (ap system ez ∙ moved-system y k (executed j r) (sending j r) m refl)
  Go-Simulates z (G.send k j r m is_open room ez) live on = subst Simulates (sym ez) (
      inr (
        finish (jobs_held m.before) (jobs_held m.after) j r (rest_held y k (sending j r) m)
          (mover _ y k (sending j r) m staff.answers)
          (subst (λ n. length y.returns.buf < n) staff.cap room)
          (ap (λ js. record { main = y.main; working = js; returning = y.returns.buf ++ r ∷ [] })
            (jobs_held-append m.before ((k, idle) ∷ m.after)))))
  Go-Simulates z (G.handle now r rest m changed ph e did ez) live on =
      subst Simulates (sym ez) (inr (handle now r rest m changed e did refl))
  Go-Simulates z (G.drained ph e ez) live on = inl (ap system ez)
  Go-Simulates z (G.leave ph canceled ez) live on = inl (ap system ez)
  Go-Simulates z (G.close_all t returns ph did ez) live on = absurd (on (ap (λ x. x.phase) ez))
  Go-Simulates z (G.cancel ez) live on = inl (ap system ez)
