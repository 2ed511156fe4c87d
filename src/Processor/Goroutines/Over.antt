-- ===== src/Processor/Goroutines/Over.antt =====
-- The goroutines while the channels are open, and once they are closed.
use mathlib.Core.Option.{some-injective}
use jorb.Base.{
  ◌+◌, ◌≡◌, ◌≢◌, refl, sym, ap, ◌∙◌, subst, ◌⊎◌, inl, inr, String, Bool, true, false, not, ◌&&◌,
  some, List, [], ◌∷◌, All, All-map, Any, lookup, length, arith, if◌then◌else◌,
}
use jorb.Channel.{Channel}
use jorb.Effect.{ok, Returns}
use jorb.Job.{Job}
use jorb.State.{State}
use jorb.Storage.{Storage, is_terminal}
use jorb.Storage.Lane.{Lane, HasLane}
use jorb.Storage.Status.{all_jobs_are_terminal, has_executing_jobs}
use jorb.Processor.{Serializer, Return, Main}
use jorb.Processor.Registered.{IsRegistered, NeverFails}
use jorb.Processor.Process.{shutdown}
use jorb.Processor.Progress.{stop_quiet}
use jorb.Processor.Starting.{HasChannel, shutdown-HasChannel}
use jorb.Processor.Goroutines as G
use jorb.Processor.Goroutines.{
  Worker, idle, executing, executed, sending, stopped, Phase, selecting, draining, leaving, ended,
  Goroutines, Moves, moved, is_finished, Go,
}
use jorb.Processor.Goroutines.Workers.{system, jobs_held, NameOk, mover, All-moved}
use jorb.Processor.Goroutines.Placed.{PhaseOk}
use jorb.Processor.Goroutines.Alive.{Alive, Go-Alive}
use jorb.Processor.Goroutines.Ending.{OnlyCloses, shutdown-OnlyCloses}

All-Any : {A : Type 0} (P Q : A → Type 0) (xs : List A) → All P xs → Any Q xs → (x : A) × P x × Q x
All-Any P Q [] a b = elim b [ ]
All-Any P Q (x ∷ xs) a (inl q) = (x, a.0, q)
All-Any P Q (x ∷ xs) a (inr b) = All-Any P Q xs a.1 b

module _ {C : Type 0} where
  -- A worker that holds nothing.
  abbrev pub AtRest : Worker C → Type 0
  AtRest idle = Unit
  AtRest (executing j) = ⊥
  AtRest (executed j r) = ⊥
  AtRest (sending j r) = ⊥
  AtRest stopped = Unit

  at_rest : (ws : List (String × Worker C)) → jobs_held ws ≡ [] → All (λ (n, w). AtRest w) ws
  at_rest [] e = tt
  at_rest ((k, idle) ∷ ws) e = (tt, at_rest ws e)
  at_rest ((k, stopped) ∷ ws) e = (tt, at_rest ws e)
  at_rest ((k, executing j) ∷ ws) e = cc
  at_rest ((k, executed j r) ∷ ws) e = cc
  at_rest ((k, sending j r) ∷ ws) e = cc

-- The channel of the state is closed, and nothing is left in it.
abbrev pub Drained : {E L C : Type 0} → Storage E L C → String → Type 0
Drained {E} {L} {C} s k =
    (ch : Channel (Job C)) × (lookup k s.state_chan ≡ some ch) × (ch.closed ≡ true) × (ch.buf ≡ [])

module _ {E L W OC C : Type 0} where
  -- What holds once the main goroutine has ended without a cancellation.
  pub record Over (y : Goroutines E L W OC C) : Type 0 where
    pub phase : y.phase ≡ ended
    pub finished : is_finished y.main ≡ true
    pub rest : All (λ (n, w). AtRest w) y.workers
    pub drained : All (λ (n, w). Drained y.main.storage n) y.workers

  Over-moved :
      (y : Goroutines E L W OC C) (k : String) (w w' : Worker C) (m : Moves y k w)
      → AtRest w'
      → Over y
      → Over (moved y m w')
  Over-moved y k w w' m a h = record {
    phase = h.phase;
    finished = h.finished;
    rest =
        All-moved (λ (n, v). AtRest v) m.before m.after k w w' a
          (subst (All (λ (n, v). AtRest v)) m.at h.rest);
    drained =
        All-moved (λ (n, v). Drained y.main.storage n) m.before m.after k w w'
          (mover (λ (n, v). Drained y.main.storage n) y k w m h.drained)
          (subst (All (λ (n, v). Drained y.main.storage n)) m.at h.drained);
  }

  busy_not :
      (y : Goroutines E L W OC C) (k : String) (w : Worker C) (m : Moves y k w)
      → (AtRest w → ⊥)
      → Over y
      → ⊥
  busy_not y k w m f h = f (mover (λ (n, v). AtRest v) y k w m h.rest)

  pub Go-Over :
      (serializer : Serializer W C) (y z : Goroutines E L W OC C)
      → Go serializer y z
      → z.canceled ≡ false
      → Over y
      → Over z
  Go-Over serializer y z (G.receive k m ch j rest e b ez) live h =
      let (d, f, closed, empty) = mover (λ (n, v). Drained y.main.storage n) y k idle m h.drained in
      let same : d ≡ ch = some-injective _ _ (sym f ∙ e) in cc (ap (λ x. x.buf) same, empty, b)
  Go-Over serializer y z (G.stop_closed k m ch e b closed ez) live h =
      subst Over (sym ez) (Over-moved y k idle stopped m tt h)
  Go-Over serializer y z (G.stop_canceled k m canceled ez) live h =
      subst Over (sym ez) (Over-moved y k idle stopped m tt h)
  Go-Over serializer y z (G.execute k j m r a ez) live h =
      absurd (busy_not y k (executing j) m (λ x. x) h)
  Go-Over serializer y z (G.drop k j r m canceled ez) live h =
      absurd (busy_not y k (executed j r) m (λ x. x) h)
  Go-Over serializer y z (G.pass k j r m still ez) live h =
      absurd (busy_not y k (executed j r) m (λ x. x) h)
  Go-Over serializer y z (G.send k j r m is_open room ez) live h =
      absurd (busy_not y k (sending j r) m (λ x. x) h)
  Go-Over serializer y z (G.handle now r rest m changed (inl ph) e did ez) live h = cc (ph, h.phase)
  Go-Over serializer y z (G.handle now r rest m changed (inr ph) e did ez) live h = cc (ph, h.phase)
  Go-Over serializer y z (G.drained ph e ez) live h = cc (ph, h.phase)
  Go-Over serializer y z (G.leave ph canceled ez) live h = cc (ph, h.phase)
  Go-Over serializer y z (G.close_all t returns ph did ez) live h = cc (ph, h.phase)
  Go-Over serializer y z (G.cancel ez) live h = let e = ap (λ x. x.canceled) ez in cc (e, live)

empty_of : {A : Type 0} (xs : List A) → length xs ≡ 0 → xs ≡ []
empty_of [] e = refl
empty_of (x ∷ xs) e = absurd (omega (arith, e))

halves : (a b : Bool) → (a && not b) ≡ true → b ≡ false
halves true false e = refl
halves true true e = cc
halves false b e = cc

module _ {E L W OC C : Type 0} (y : Goroutines E L W OC C) (h : Alive y) where
  open_channels : All (λ c. HasChannel y.main.storage false c.trigger_state) y.main.storage.states
  open_channels =
      All-map (λ c. IsRegistered y.main.storage c.trigger_state) _ y.main.storage.states
        (λ c (d, e).
          let (l, has, good) = h.sound.lanes.lanes c.trigger_state d e in
          (l.chan, has.chan, good.is_open))
        h.placed.states.0

  -- The channels can be closed.
  pub shutdown_returns : Returns (shutdown y.main.storage y.returns) (λ (t, returns).
      All (λ c. HasChannel t true c.trigger_state) y.main.storage.states × (returns.closed ≡ true))
  shutdown_returns =
      shutdown-HasChannel y.main.storage y.returns h.placed.states.1 open_channels h.placed.is_open

  is_finished_closed :
      (m : Main E L W OC C) (t : Storage E L C)
      → t ≡ record m.storage { state_chan = t.state_chan }
      → is_finished (record m { storage = t }) ≡ is_finished m
  unfolding all_jobs_are_terminal has_executing_jobs is_terminal
  is_finished_closed m t e = ap (λ u. is_finished (record m { storage = u })) e

  close-Over :
      (t : Storage E L C) (returns : Channel (Return C))
      → y.phase ≡ leaving
      → shutdown y.main.storage y.returns ≡ ok (t, returns)
      → Over (record y { main = record y.main { storage = t }; phase = ended; returns = returns })
  close-Over t returns ph did = record {
    phase = refl;
    finished = is_finished_closed y.main t closes.1 ∙ finished;
    rest = at_rest y.workers quiet.0;
    drained =
        All-map (λ (n, w). NameOk y.main.storage n) (λ (n, w). Drained t n) y.workers
          (λ (n, w) (known, listed). drained n known listed) h.placed.staff.named;
  }
    where
      finished : is_finished y.main ≡ true
      finished = subst (λ p. PhaseOk p y.main) ph h.placed.phase

      closes : OnlyCloses y.main.storage t
      closes = shutdown-OnlyCloses y.main.storage t y.returns returns did

      quiet :
          (jobs_held y.workers ≡ [])
          × (y.returns.buf ≡ [])
          × ((k : String) (c : State E L)
              → lookup k y.main.storage.state_map ≡ some c
              → (l : Lane E L C) × HasLane y.main.storage k l
                × (length l.chan.buf + length l.queue ≡ 0))
      quiet = stop_quiet (system y) h.sound (halves _ _ finished)

      closed : All (λ c. HasChannel t true c.trigger_state) y.main.storage.states
      closed =
          (subst
            (λ q. Returns q (λ (u, r).
              All (λ c. HasChannel u true c.trigger_state) y.main.storage.states
              × (r.closed ≡ true)))
            did shutdown_returns).0

      drained :
          (n : String)
          → IsRegistered y.main.storage n
          → Any (λ c. c.trigger_state ≡ n) y.main.storage.states
          → Drained t n
      drained n (c, known) listed =
          let (d, has_channel, same) =
            All-Any (λ c. HasChannel t true c.trigger_state) (λ c. c.trigger_state ≡ n)
              y.main.storage.states closed listed in
          let (ch, e, is_closed) = subst (HasChannel t true) same has_channel in
          let (before, f, same_buf) = closes.0 n ch e in
          let (l, has, none_left) = quiet.2 n c known in
          let lane : before ≡ l.chan = some-injective _ _ (sym f ∙ has.chan) in
          (
            ch,
            e,
            is_closed,
            same_buf ∙ ap (λ x. x.buf) lane ∙ empty_of l.chan.buf (omega (arith, none_left)),
          )

-- What holds of the goroutines of a run that is not canceled.
abbrev pub Good : {E L W OC C : Type 0} → Goroutines E L W OC C → Type 0
Good y = Alive y ⊎ Over y

phase_cases : (p : Phase) → (p ≡ ended) ⊎ (p ≢ ended)
phase_cases selecting = inr (λ e. cc)
phase_cases draining = inr (λ e. cc)
phase_cases leaving = inr (λ e. cc)
phase_cases ended = inl refl

module _ {E L W OC C : Type 0} (serializer : Serializer W C) (never : NeverFails serializer)
    (y z : Goroutines E L W OC C) (h : Alive y) where
  on : y.phase ≢ ended
  on e = subst (λ p. PhaseOk p y.main) e h.placed.phase

  after_drain : (b : Bool) → (if b then leaving else selecting) ≢ ended
  after_drain true e = cc
  after_drain false e = cc

  -- Only the closing of the channels ends the main goroutine.
  Go-closes : Go serializer y z → z.phase ≡ ended → Over z
  Go-closes (G.receive k m ch j rest e b ez) p = absurd (on (sym (ap (λ x. x.phase) ez) ∙ p))
  Go-closes (G.stop_closed k m ch e b closed ez) p = absurd (on (sym (ap (λ x. x.phase) ez) ∙ p))
  Go-closes (G.stop_canceled k m canceled ez) p = absurd (on (sym (ap (λ x. x.phase) ez) ∙ p))
  Go-closes (G.execute k j m r a ez) p = absurd (on (sym (ap (λ x. x.phase) ez) ∙ p))
  Go-closes (G.drop k j r m canceled ez) p = absurd (on (sym (ap (λ x. x.phase) ez) ∙ p))
  Go-closes (G.pass k j r m still ez) p = absurd (on (sym (ap (λ x. x.phase) ez) ∙ p))
  Go-closes (G.send k j r m is_open room ez) p = absurd (on (sym (ap (λ x. x.phase) ez) ∙ p))
  Go-closes (G.handle now r rest m changed ph e did ez) p =
      let q = sym (ap (λ x. x.phase) ez) ∙ p in cc (q)
  Go-closes (G.drained ph e ez) p =
      absurd (after_drain (is_finished y.main) (sym (ap (λ x. x.phase) ez) ∙ p))
  Go-closes (G.leave ph canceled ez) p = let q = sym (ap (λ x. x.phase) ez) ∙ p in cc (q)
  Go-closes (G.close_all t returns ph did ez) p =
      subst Over (sym ez) (close-Over y h t returns ph did)
  Go-closes (G.cancel ez) p = absurd (on (sym (ap (λ x. x.phase) ez) ∙ p))

  Go-Alive_or : Go serializer y z → z.canceled ≡ false → Good z
  Go-Alive_or g live = elim (phase_cases z.phase) [
    | inl p ↦ inr (Go-closes g p)
    | inr ne ↦ inl (Go-Alive serializer never y h z g live ne)
  ]

module _ {E L W OC C : Type 0} (serializer : Serializer W C) (never : NeverFails serializer) where
  pub Go-Good :
      (y z : Goroutines E L W OC C) → Go serializer y z → z.canceled ≡ false → Good y → Good z
  Go-Good y z g live (inl h) = Go-Alive_or serializer never y z h g live
  Go-Good y z g live (inr h) = inr (Go-Over serializer y z g live h)
