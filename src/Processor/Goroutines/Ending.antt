-- ===== src/Processor/Goroutines/Ending.antt =====
-- The goroutines once the main goroutine has closed the channels.
use mathlib.Core.Option.{some-injective}
use jorb.Base.{
  ◌≡◌, refl, sym, ap, ◌∙◌, subst, inl, inr, String, String-cases, Option, none, some, List, [], ◌∷◌,
  lookup, insert, lookup-insert_self, lookup-insert_ne, arith,
}
use jorb.Channel.{Channel, close}
use jorb.Effect.{ok, bind-eq-ok}
use jorb.Job.{Job}
use jorb.State.{State}
use jorb.Storage.{Storage}
use jorb.Processor.{Return}
use jorb.Processor.Process.{close_chan, close_job_channel_for_state, close_all, shutdown}

close-buf : {A : Type 0} (ch c : Channel A) → close ch ≡ ok c → c.buf ≡ ch.buf
unfolding close
close-buf ch c e = ground arith

close_chan-buf :
    {A : Type 0} (o : Option (Channel A)) (c : Channel A)
    → close_chan o ≡ ok c
    → (ch : Channel A) × (o ≡ some ch) × (c.buf ≡ ch.buf)
unfolding close_chan
close_chan-buf none c e = cc
close_chan-buf (some ch) c e = (ch, refl, close-buf ch c e)

module _ {E L C : Type 0} where
  -- Each channel that is there in `t` has what it had in `s`.
  abbrev pub SameBuffers : Storage E L C → Storage E L C → Type 0
  SameBuffers s t =
      (k : String) (c : Channel (Job C))
      → lookup k t.state_chan ≡ some c
      → (ch : Channel (Job C)) × (lookup k s.state_chan ≡ some ch) × (c.buf ≡ ch.buf)

  insert-SameBuffers :
      (s : Storage E L C) (name : String) (ch closed : Channel (Job C))
      → lookup name s.state_chan ≡ some ch
      → closed.buf ≡ ch.buf
      → SameBuffers s (record s { state_chan = insert name closed s.state_chan })
  insert-SameBuffers s name ch closed there same k c e = elim (String-cases name k) [
    | inl p ↦
        let mine : closed ≡ c = some-injective _ _ (
          sym (lookup-insert_self name closed s.state_chan)
          ∙ ap (λ i. lookup i (insert name closed s.state_chan)) p
          ∙ e) in
        (ch, ap (λ i. lookup i s.state_chan) (sym p) ∙ there, ap (λ x. x.buf) (sym mine) ∙ same)
    | inr ne ↦ (c, sym (lookup-insert_ne name k closed s.state_chan ne) ∙ e, refl)
  ]

  -- Nothing changes but the channels, and these only by being closed.
  abbrev pub OnlyCloses : Storage E L C → Storage E L C → Type 0
  OnlyCloses s t = SameBuffers s t × (t ≡ record s { state_chan = t.state_chan })

  close_one-OnlyCloses :
      (s t : Storage E L C) (name : String)
      → close_job_channel_for_state s name ≡ ok t
      → OnlyCloses s t
  unfolding close_job_channel_for_state
  close_one-OnlyCloses s t name e =
      let (closed, e_c, e_t) = bind-eq-ok (close_chan (lookup name s.state_chan)) _ _ e in
      let (ch, there, same_buf) = close_chan-buf (lookup name s.state_chan) closed e_c in
      let same : (record s { state_chan = insert name closed s.state_chan }) ≡ t = cc in
      subst (OnlyCloses s) same (insert-SameBuffers s name ch closed there same_buf, refl)

  OnlyCloses-trans : (s t u : Storage E L C) → OnlyCloses s t → OnlyCloses t u → OnlyCloses s u
  OnlyCloses-trans s t u (a, p) (b, q) = (
    λ k c e. let (d, f, g) = b k c e in let (i, j, l) = a k d f in (i, j, g ∙ l),
    q ∙ ap {A = Storage E L C} (λ x. record x { state_chan = u.state_chan }) p,
  )

  close_all-OnlyCloses :
      (s t : Storage E L C) (cs : List (State E L)) → close_all s cs ≡ ok t → OnlyCloses s t
  unfolding close_all
  close_all-OnlyCloses s t [] e =
      let same : s ≡ t = cc in subst (OnlyCloses s) same (λ k c f. (c, f, refl), refl)
  close_all-OnlyCloses s t (c ∷ cs) e =
      let (u, e_u, e_t) = bind-eq-ok (close_job_channel_for_state s c.trigger_state) _ _ e in
      OnlyCloses-trans s u t (close_one-OnlyCloses s u c.trigger_state e_u)
        (close_all-OnlyCloses u t cs e_t)

  pub shutdown-OnlyCloses :
      (s t : Storage E L C) (r q : Channel (Return C)) → shutdown s r ≡ ok (t, q) → OnlyCloses s t
  unfolding shutdown
  shutdown-OnlyCloses s t r q e =
      let (u, e_u, rest) = bind-eq-ok (close_all s s.states) _ _ e in
      let (c, e_c, e_t) = bind-eq-ok (close r) _ _ rest in
      let same : u ≡ t = cc in subst (OnlyCloses s) same (close_all-OnlyCloses s u s.states e_u)
