-- ===== src/Processor/Starting.antt =====
-- processor.go: the end of the loop of `process`, and `shutdown`.
use jorb.Base.{
  ℤ, pos, negsuc, ltb_ℤ, any_of, All-of_all_of, ◌≡◌, refl, sym, subst, if◌then◌else◌, ap, ◌∙◌,
  String, ◌==◌, Bool, true, false, not, ◌&&◌, Option, none, some, List, [], ◌∷◌, Dict, lookup,
  lookup-insert_self, lookup-insert_ne, All, All-map, All-map_two, arith, eq_iff,
}
use jorb.Channel.{Channel, close}
use jorb.Effect.{
  Result, ok, panic, close_of_closed, Returns, Returns-bind, Returns-map, bind-eq-ok, ◌>>=◌,
}
use jorb.Job.{Job}
use jorb.State.{State, StatusCount}
use jorb.Storage.{Storage, is_terminal, terminal_of}
use jorb.Storage.Status.{all_jobs_are_terminal, has_executing_jobs, get_status_counts}
use jorb.Processor.{Serializer, Main, Return, handle_return}
use jorb.Processor.Process.{
  Timed, after_takes, close_chan, close_job_channel_for_state, close_all, shutdown, drain, round,
  process_loop,
}

-- No two states of the list have the same trigger state.
abbrev pub DistinctStates : {E L : Type 0} → List (State E L) → Type 0
DistinctStates [] = Unit
DistinctStates (c ∷ cs) =
    All (λ d. (c.trigger_state == d.trigger_state) ≡ false) cs × DistinctStates cs

close-closed :
    {A : Type 0} (ch : Channel A) → ch.closed ≡ false → Returns (close ch) (λ c. c.closed ≡ true)
unfolding close
close-closed ch still =
    subst
      (λ b.
        Returns (if b then panic close_of_closed else ok (record ch { closed = true }))
          (λ c. c.closed ≡ true))
      (sym still) refl

close_chan-closed :
    {A : Type 0} (o : Option (Channel A)) (ch : Channel A)
    → o ≡ some ch
    → ch.closed ≡ false
    → Returns (close_chan o) (λ c. c.closed ≡ true)
unfolding close_chan
close_chan-closed none ch e h = cc
close_chan-closed (some c) ch e h = close-closed c (ground arith)

module _ {E L C : Type 0} where
  -- The job channel of `k` is there, open or closed as `b` says.
  abbrev pub HasChannel : Storage E L C → Bool → String → Type 0
  HasChannel s b k = (ch : Channel (Job C)) × (lookup k s.state_chan ≡ some ch) × (ch.closed ≡ b)

  -- Closing one channel closes it, and leaves the others.
  close_one :
      (s : Storage E L C) (k : String)
      → HasChannel s false k
      → Returns (close_job_channel_for_state s k) (λ t.
        HasChannel t true k
        × ((b : Bool) (j : String) → (k == j) ≡ false → HasChannel s b j → HasChannel t b j))
  unfolding close_job_channel_for_state
  close_one s k (ch, e, o) =
      Returns-bind _ _ (close_chan (lookup k s.state_chan)) _ (close_chan-closed _ ch e o)
        λ c closed. (
          (c, lookup-insert_self k c s.state_chan, closed),
          λ b j ne (d, f, g). (d, lookup-insert_ne k j c s.state_chan ne ∙ f, g),
        )

  close_all_lem :
      (s : Storage E L C) (cs : List (State E L))
      → DistinctStates cs
      → All (λ c. HasChannel s false c.trigger_state) cs
      → Returns (close_all s cs) (λ t.
        All (λ c. HasChannel t true c.trigger_state) cs
        × ((b : Bool) (j : String)
            → All (λ c. (c.trigger_state == j) ≡ false) cs
            → HasChannel s b j
            → HasChannel t b j))
  unfolding close_all
  close_all_lem s [] d h = (tt, λ b j a x. x)
  close_all_lem s (c ∷ cs) d h =
      Returns-bind _ _ (close_job_channel_for_state s c.trigger_state) _
        (close_one s c.trigger_state h.0)
        λ t (here, others).
          Returns-map _ _ (close_all t cs)
            (close_all_lem t cs d.1
              (All-map_two _ _ _ cs (λ i ne o. others false i.trigger_state ne o) d.0 h.1))
            λ u (all, kept). (
              (
                kept true c.trigger_state
                    (All-map _ _ cs
                      (λ i ne. ground (
                        arith,
                        eq_iff c.trigger_state i.trigger_state,
                        eq_iff i.trigger_state c.trigger_state,
                      ))
                      d.0)
                    here,
                all,
              ),
              λ b j a x. kept b j a.1 (others b j a.0 x),
            )

  -- When the trigger states are distinct, and their channels and the return channel open, `shutdown`
  -- closes the channel of every state and the return channel, and does not panic.
  pub shutdown-HasChannel :
      (s : Storage E L C) (return_chan : Channel (Return C))
      → DistinctStates s.states
      → All (λ c. HasChannel s false c.trigger_state) s.states
      → return_chan.closed ≡ false
      → Returns (shutdown s return_chan) (λ (t, returns).
        All (λ c. HasChannel t true c.trigger_state) s.states × (returns.closed ≡ true))
  unfolding shutdown
  shutdown-HasChannel s return_chan d h still =
      Returns-bind _ _ (close_all s s.states) _ (close_all_lem s s.states d h) λ t (all, kept).
        Returns-bind _ _ (close return_chan) _ (close-closed return_chan still)
          λ returns closed. (all, closed)

abbrev pub NotPositive : ℤ → Type 0
NotPositive (pos n) = n ≡ 0
NotPositive (negsuc n) = Unit

not_positive : (z : ℤ) → ltb_ℤ (pos 0) z ≡ false → NotPositive z
not_positive (pos n) h = ground arith
not_positive (negsuc n) h = tt

terminal_found :
    {E L : Type 0} (o : Option (State E L))
    → terminal_of o ≡ true
    → (c : State E L) × (o ≡ some c) × (c.terminal ≡ true)
terminal_found none h = cc
terminal_found (some c) h = (c, refl, h)

none_positive :
    (m : Dict StatusCount)
    → any_of (λ (k, count). ltb_ℤ (pos 0) count.executing) m ≡ false
    → All (λ (k, count). NotPositive count.executing) m
none_positive [] h = tt
none_positive ((k, count) ∷ m) h =
    (not_positive count.executing (ground arith), none_positive m (ground arith))

and_not : (a b : Bool) → (a && not b) ≡ true → (a ≡ true) × (b ≡ false)
and_not true false e = (refl, refl)
and_not true true e = cc
and_not false b e = cc

module _ {E L W OC C : Type 0} where
  -- The main goroutine's part of one pass, and how the loop goes on from it.
  Quiet : Main E L W OC C → Type 0
  Quiet t = (all_jobs_are_terminal t.storage t.run ≡ true) × (has_executing_jobs t.storage ≡ false)

  last_pass :
      (m t : Main E L W OC C) (u v : Option (List StatusCount))
      → Path
          (Result (Main E L W OC C × Option (List StatusCount) × Bool))
          (ok (m, u, all_jobs_are_terminal m.storage m.run && not (has_executing_jobs m.storage)))
          (ok (t, v, true))
      → Quiet t
  unfolding Quiet
  last_pass m t u v e =
      let same : m ≡ t = cc in
      let flag : (all_jobs_are_terminal m.storage m.run && not (has_executing_jobs m.storage))
          ≡ true =
        cc in
      subst Quiet same (and_not _ _ flag)

  round_lem :
      (serializer : Serializer W C) (m t : Main E L W OC C) (first : Timed C)
      (extras : List (Timed C)) (update : Option (List StatusCount))
      → round serializer m first extras ≡ ok (t, update, true)
      → Quiet t
  unfolding round
  round_lem serializer m t first extras update e =
      let (a, e_a, rest_a) =
        bind-eq-ok (handle_return serializer first.1 (after_takes serializer first.0 m) first.2) _ _
          e in
      let (b, e_b, rest_b) = bind-eq-ok (drain serializer a.0 a.1 extras) _ _ rest_a in
      let (counts, e_c, rest_c) = bind-eq-ok (get_status_counts b.0.storage) _ _ rest_b in
      last_pass b.0 t _ update rest_c

  after_round :
      (m t : Main E L W OC C) (update : Option (List StatusCount)) (ended : Bool)
      (rest : Result (Main E L W OC C × List (List StatusCount) × Bool))
      (sent : List (List StatusCount))
      → (ended ≡ true → Quiet m)
      → ((later : List (List StatusCount)) → rest ≡ ok (t, later, true) → Quiet t)
      → (◌>>=◌ {B = Main E L W OC C × List (List StatusCount) × Bool}
          (elim ended [ true ↦ ok (m, [], true) | false ↦ rest ])
          λ (t', later, done).
            ok (t', elim update [ none ↦ later | some counts ↦ counts ∷ later ], done))
        ≡ ok (t, sent, true)
      → Quiet t
  after_round m t update true rest sent f g e = let same : m ≡ t = cc in subst Quiet same (f refl)
  after_round m t update false rest sent f g e =
      let ((t', later, done), e_rest, e') = bind-eq-ok rest _ _ e in
      let done_true : done ≡ true = cc in
      let same : t' ≡ t = cc in
      g later (e_rest ∙ ap (λ x. ok (x, later, done)) same ∙ ap (λ d. ok (t, later, d)) done_true)

  ended_Quiet :
      (serializer : Serializer W C) (m t : Main E L W OC C)
      (passes : List (Timed C × List (Timed C))) (sent : List (List StatusCount))
      → process_loop serializer m passes ≡ ok (t, sent, true)
      → Quiet t
  unfolding process_loop Quiet
  ended_Quiet serializer m t [] sent e = cc
  ended_Quiet serializer m t ((first, extras) ∷ passes) sent e =
      let ((m', update, ended), e_round, e_rest) =
        bind-eq-ok (round serializer m first extras) _ _ e in
      after_round m' t update ended (process_loop serializer m' passes) sent
        (λ b.
          round_lem serializer m m' first extras update (e_round ∙ ap (λ x. ok (m', update, x)) b))
        (λ later r. ended_Quiet serializer m' t passes later r) e_rest

  -- Every job of the run is in a state that is registered as terminal, and no state counts a job as
  -- executing.
  abbrev pub AtRest : Main E L W OC C → Type 0
  AtRest t =
      All
        (λ (id, j).
          (c : State E L) × (lookup j.state t.storage.state_map ≡ some c) × (c.terminal ≡ true))
        t.run.jobs
      × All (λ (k, count). NotPositive count.executing) t.storage.state_status_map

  -- When the loop ends by itself, every job of the run is in a state that is registered as terminal,
  -- and no state counts a job as executing.
  pub process_loop_lem :
      (serializer : Serializer W C) (m t : Main E L W OC C)
      (passes : List (Timed C × List (Timed C))) (sent : List (List StatusCount))
      → process_loop serializer m passes ≡ ok (t, sent, true)
      → AtRest t
  unfolding Quiet all_jobs_are_terminal has_executing_jobs is_terminal
  process_loop_lem serializer m t passes sent e =
      let (jobs, counts) = ended_Quiet serializer m t passes sent e in
      (
        All-of_all_of _ (λ (id, j). terminal_of (lookup j.state t.storage.state_map)) t.run.jobs
            (λ (id, j) h. terminal_found (lookup j.state t.storage.state_map) h) jobs,
        none_positive t.storage.state_status_map counts,
      )
