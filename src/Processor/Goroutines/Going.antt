-- ===== src/Processor/Goroutines/Going.antt =====
-- The goroutines of a run that is not canceled: none panics, and one can move until all have ended.
use mathlib.Core.Option.{some-injective}
use jorb.Base.{
  ℕ, ◌≡◌, ◌≢◌, refl, sym, ap, ◌∙◌, subst, ◌⊎◌, inl, inr, String, Bool-cases, true, false, some,
  List, [], ◌∷◌, ◌++◌, All, All-split, Any, lookup, length, arith,
}
use jorb.Channel.{Channel}
use jorb.Effect.{Panic, panic}
use jorb.Job.{Job, Time}
use jorb.State.{State}
use jorb.Processor.{Serializer, Return, handle_return}
use jorb.Processor.Registered.{IsRegistered, NeverFails}
use jorb.Processor.Process.{shutdown}
use jorb.Processor.System.{System, take, finish, handle, Step}
use jorb.Processor.Safety.{handle-SystemOk}
use jorb.Processor.Progress.{Returns-ok}
use jorb.Processor.Waiting.{waits_never}
use jorb.Processor.Goroutines as G
use jorb.Processor.Goroutines.{
  Worker, idle, executing, executed, sending, stopped, Phase, selecting, draining, leaving, ended,
  Goroutines, Moves, moved, is_finished, Go, Crashes, send_on_closed, in_handle, in_shutdown,
}
use jorb.Processor.Goroutines.Workers.{jobs_held, system, AnswersHeld, mover, rest_held}
use jorb.Processor.Goroutines.Placed.{PhaseOk}
use jorb.Processor.Goroutines.Alive.{Alive}
use jorb.Processor.Goroutines.Over.{AtRest, Drained, Over, Good, shutdown_returns}

-- An element without the property, or all have it.
first_without :
    {A : Type 0} (P : A → Type 0) (test : (x : A) → P x ⊎ (P x → ⊥)) (xs : List A)
    → All P xs
      ⊎ ((before : List A) × (x : A) × (after : List A) × (xs ≡ before ++ x ∷ after) × (P x → ⊥))
first_without P test [] = inl tt
first_without P test (x ∷ xs) = elim (test x) [
  | inr no_x ↦ inr ([], x, xs, refl, no_x)
  | inl p ↦ elim (first_without P test xs) [
    | inl a ↦ inl (p, a)
    | inr (before, y, after, e, no_y) ↦ inr (x ∷ before, y, after, ap (λ ys. x ∷ ys) e, no_y)
  ]
]

Any-at :
    {A : Type 0} (P : A → Type 0) (xs : List A)
    → Any P xs
    → (before : List A) × (x : A) × (after : List A) × (xs ≡ before ++ x ∷ after) × P x
Any-at P [] a = elim a [ ]
Any-at P (x ∷ xs) (inl p) = ([], x, xs, refl, p)
Any-at P (x ∷ xs) (inr a) =
    let (before, y, after, e, q) = Any-at P xs a in (x ∷ before, y, after, ap (λ ys. x ∷ ys) e, q)

module _ {C : Type 0} where
  AtRest-or_not : (w : Worker C) → AtRest w ⊎ (AtRest w → ⊥)
  AtRest-or_not idle = inl tt
  AtRest-or_not (executing j) = inr (λ x. x)
  AtRest-or_not (executed j r) = inr (λ x. x)
  AtRest-or_not (sending j r) = inr (λ x. x)
  AtRest-or_not stopped = inl tt

  stopped_or_not : (w : Worker C) → (w ≡ stopped) ⊎ (w ≢ stopped)
  stopped_or_not idle = inr (λ e. cc)
  stopped_or_not (executing j) = inr (λ e. cc)
  stopped_or_not (executed j r) = inr (λ e. cc)
  stopped_or_not (sending j r) = inr (λ e. cc)
  stopped_or_not stopped = inl refl

  pub none_held : (ws : List (String × Worker C)) → All (λ (n, w). AtRest w) ws → jobs_held ws ≡ []
  none_held [] a = refl
  none_held ((k, idle) ∷ ws) a = none_held ws a.1
  none_held ((k, executing j) ∷ ws) a = absurd a.0
  none_held ((k, executed j r) ∷ ws) a = absurd a.0
  none_held ((k, sending j r) ∷ ws) a = absurd a.0
  none_held ((k, stopped) ∷ ws) a = none_held ws a.1

module _ {E L W OC C : Type 0} where
  -- All goroutines have ended, with every job of the run in a terminal state and none that executes.
  pub record AllDone (y : Goroutines E L W OC C) : Type 0 where
    pub phase : y.phase ≡ ended
    pub finished : is_finished y.main ≡ true
    pub workers : All (λ (n, w). w ≡ stopped) y.workers

module _ {E L W OC C : Type 0} (serializer : Serializer W C) (never : NeverFails serializer)
    (y : Goroutines E L W OC C) where
  abbrev pub Moving : Type 0
  Moving = (z : Goroutines E L W OC C) × Go serializer y z × (z.canceled ≡ false)

  module _ (h : Alive y) where
    busy_moves :
        y.returns.buf ≡ [] → (k : String) (w : Worker C) → Moves y k w → (AtRest w → ⊥) → Moving
    busy_moves b k idle m n = absurd (n tt)
    busy_moves b k stopped m n = absurd (n tt)
    busy_moves b k (executing j) m n = (
      _,
      G.execute k j m (record { prior_state = j.state; job = j; kick_requests = [] })
          (record { prior = refl; same_id = refl; next = known; kicks = tt }) refl,
      h.still,
    )
      where
        known : IsRegistered y.main.storage j.state
        known =
            (All-split (λ i. IsRegistered y.main.storage i.state) (jobs_held m.before)
              (j ∷ jobs_held m.after)
              (subst (All (λ i. IsRegistered y.main.storage i.state))
                (rest_held y k (executing j) m) h.sound.working)).1.0
    busy_moves b k (executed j r) m n = (_, G.pass k j r m h.still refl, h.still)
    busy_moves b k (sending j r) m n = (
      _,
      G.send k j r m h.placed.is_open (rw (h.placed.staff.cap, b) (omega arith)) refl,
      h.still,
    )

    receives :
        (k : String) (c : State E L) (ch : Channel (Job C)) (j : Job C) (rest : List (Job C))
        → All (λ (n, w). AtRest w) y.workers
        → lookup k y.main.storage.state_map ≡ some c
        → lookup k y.main.storage.state_chan ≡ some ch
        → ch.buf ≡ j ∷ rest
        → Moving
    receives k c ch j rest quiet ec e b = elim (Bool-cases c.terminal) [
      | inl t ↦
          let (l, has, good) = h.sound.lanes.lanes k c ec in
          let same : l.chan ≡ ch = some-injective _ _ (sym has.chan ∙ e) in
          let config : l.config ≡ c = some-injective _ _ (sym has.config ∙ ec) in
          absurd (
            omega (
              arith,
              good.idle (ap (λ x. x.terminal) config ∙ t),
              ap (λ x. length x.buf) same,
              ap length b,
            ))
      | inr live ↦
          let (before, (n, w), after, at, name) =
            Any-at _ y.workers (h.placed.staffed k c ec live) in
          free w before after (at ∙ ap (λ i. before ++ (i, w) ∷ after) name)
    ]
      where
        free :
            (w : Worker C) (before after : List (String × Worker C))
            → y.workers ≡ before ++ (k, w) ∷ after
            → Moving
        free idle before after at = (
          _,
          G.receive k (record { before = before; after = after; at = at }) ch j rest e b refl,
          h.still,
        )
        free (executing i) before after at = absurd (
            mover (λ (n, w). AtRest w) y k (executing i)
              (record { before = before; after = after; at = at }) quiet)
        free (executed i r) before after at = absurd (
            mover (λ (n, w). AtRest w) y k (executed i r)
              (record { before = before; after = after; at = at }) quiet)
        free (sending i r) before after at = absurd (
            mover (λ (n, w). AtRest w) y k (sending i r)
              (record { before = before; after = after; at = at }) quiet)
        free stopped before after at = absurd (
            mover (λ (n, w). AnswersHeld y w) y k stopped
              (record { before = before; after = after; at = at }) h.placed.staff.answers)

    -- The step of Processor.System that is there can only be the start of a job.
    start_moves :
        (z : System E L W OC C)
        → All (λ (n, w). AtRest w) y.workers
        → y.returns.buf ≡ []
        → Step serializer (system y) z
        → Moving
    start_moves z quiet b (take k c ch j rest ec e buf free ez) =
        receives k c ch j rest quiet ec e buf
    start_moves z quiet b (finish [] after j r e a room ez) =
        let f = sym (none_held y.workers quiet) ∙ e in cc (f)
    start_moves z quiet b (finish (x ∷ before) after j r e a room ez) =
        let f = sym (none_held y.workers quiet) ∙ e in cc (f)
    start_moves z quiet b (handle now r rest m changed e did ez) = let f = sym b ∙ e in cc (f)

    waiting_moves : y.phase ≡ selecting → y.returns.buf ≡ [] → Moving
    waiting_moves ph b =
        elim (first_without (λ (n, w). AtRest w) (λ (n, w). AtRest-or_not w) y.workers) [
          | inr (before, (k, w), after, at, busy) ↦
              busy_moves b k w (record { before = before; after = after; at = at }) busy
          | inl quiet ↦
              let (z, s) =
                waits_never serializer never (system y) h.sound h.tracked
                  (subst (λ p. PhaseOk p y.main) ph h.placed.phase) in
              start_moves z quiet b s
        ]

    handle_moves :
        (r : Return C) (rest : List (Return C))
        → (y.phase ≡ selecting) ⊎ (y.phase ≡ draining)
        → y.returns.buf ≡ r ∷ rest
        → Moving
    handle_moves r rest ph b =
        let ((m, changed), did, good) =
          Returns-ok _ (handle_return serializer (λ i. 0) y.main r)
            (handle-SystemOk serializer (λ i. 0) (system y) r rest never b h.sound) in
        (_, G.handle (λ i. 0) r rest m changed ph b did refl, h.still)

    alive_moves : (p : Phase) (b : List (Return C)) → y.phase ≡ p → y.returns.buf ≡ b → Moving
    alive_moves selecting [] ph b = waiting_moves ph b
    alive_moves selecting (r ∷ rest) ph b = handle_moves r rest (inl ph) b
    alive_moves draining [] ph b = (_, G.drained ph b refl, h.still)
    alive_moves draining (r ∷ rest) ph b = handle_moves r rest (inr ph) b
    alive_moves leaving bs ph b =
        let ((t, returns), did, good) =
          Returns-ok _ (shutdown y.main.storage y.returns) (shutdown_returns y h) in
        (_, G.close_all t returns ph did refl, h.still)
    alive_moves ended bs ph b = absurd (subst (λ p. PhaseOk p y.main) ph h.placed.phase)

  Over-moves : y.canceled ≡ false → Over y → AllDone y ⊎ Moving
  Over-moves still h =
      elim (first_without (λ (n, w). w ≡ stopped) (λ (n, w). stopped_or_not w) y.workers) [
        | inl all ↦ inl (record { phase = h.phase; finished = h.finished; workers = all })
        | inr (before, (k, w), after, at, ne) ↦
            inr (stops w (record { before = before; after = after; at = at }) ne)
      ]
    where
      stops : {k : String} (w : Worker C) → Moves y k w → w ≢ stopped → Moving
      stops {k} idle m ne =
          let (ch, e, closed, empty) : Drained y.main.storage k =
            mover (λ (n, w). Drained y.main.storage n) y k idle m h.drained in
          (_, G.stop_closed k m ch e empty closed refl, still)
      stops {k} (executing j) m ne = absurd (mover (λ (n, w). AtRest w) y k (executing j) m h.rest)
      stops {k} (executed j r) m ne =
          absurd (mover (λ (n, w). AtRest w) y k (executed j r) m h.rest)
      stops {k} (sending j r) m ne = absurd (mover (λ (n, w). AtRest w) y k (sending j r) m h.rest)
      stops stopped m ne = absurd (ne refl)

  pub Good-goes : y.canceled ≡ false → Good y → AllDone y ⊎ Moving
  Good-goes still (inl h) = inr (alive_moves h y.phase y.returns.buf refl refl)
  Good-goes still (inr h) = Over-moves still h

  handle_fine :
      (now : ℕ → Time) (r : Return C) (rest : List (Return C)) (p : Panic)
      → y.returns.buf ≡ r ∷ rest
      → handle_return serializer now y.main r ≡ panic p
      → Alive y
      → ⊥
  handle_fine now r rest p b e h =
      let (m, did, good) =
        Returns-ok _ (handle_return serializer now y.main r)
          (handle-SystemOk serializer now (system y) r rest never b h.sound) in
      cc (e, did)

  shutdown_fine : (p : Panic) → shutdown y.main.storage y.returns ≡ panic p → Alive y → ⊥
  shutdown_fine p e h =
      let (t, did, good) =
        Returns-ok _ (shutdown y.main.storage y.returns) (shutdown_returns y h) in
      cc (e, did)

  -- No goroutine panics with its next move.
  pub Good-Crashes : Good y → ¬ (Crashes serializer y)
  Good-Crashes (inl h) (send_on_closed k j r m closed) = cc (h.placed.is_open, closed)
  Good-Crashes (inl h) (in_handle now r rest p ph b e) = handle_fine now r rest p b e h
  Good-Crashes (inl h) (in_shutdown p ph e) = shutdown_fine p e h
  Good-Crashes (inr h) (send_on_closed k j r m closed) =
      absurd (mover (λ (n, w). AtRest w) y k (sending j r) m h.rest)
  Good-Crashes (inr h) (in_handle now r rest p (inl ph) b e) = cc (ph, h.phase)
  Good-Crashes (inr h) (in_handle now r rest p (inr ph) b e) = cc (ph, h.phase)
  Good-Crashes (inr h) (in_shutdown p ph e) = cc (ph, h.phase)
