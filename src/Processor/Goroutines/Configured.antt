-- ===== src/Processor/Goroutines/Configured.antt =====
-- processor.go, `NewProcessor` and the loop of `Exec` that starts the workers: every state of an accepted
-- configuration is in the map of the storage, and one that is worked has a worker.
use mathlib.Core.Option.{some-injective}
use jorb.Base.{
  ℕ, zero, suc, ◌≡◌, ◌≤◌, refl, sym, ap, ◌∙◌, subst, ◌⊎◌, inl, inr, String, String-cases,
  Bool-cases, false, some, List, [], ◌∷◌, pos_part, All, All-append, Any, Any-append_left,
  Any-append_right, lookup, lookup-insert_self, lookup-insert_ne, arith,
}
use jorb.State.{State}
use jorb.Storage.{Storage}
use jorb.Storage.New.{add_state, add_states, empty_storage, new_state_storage_from_states}
use jorb.Storage.Fresh.{no_entry, add_states-states}
use jorb.Processor.Registered.{IsRegistered}
use jorb.Processor.Goroutines.{Worker, idle, exec_func, start_workers}

module _ {E L : Type 0} where
  pub new_storage-states :
      (C : Type 0) (states : List (State E L))
      → (new_state_storage_from_states {C = C} states).states ≡ states
  unfolding new_state_storage_from_states
  new_storage-states C states = add_states-states (empty_storage states) states

module _ {E L C : Type 0} where
  add_state-own :
      (st : Storage E L C) (s : State E L) → IsRegistered (add_state st s) s.trigger_state
  unfolding add_state
  add_state-own st s = (s, lookup-insert_self s.trigger_state s st.state_map)

  add_state-IsRegistered :
      (st : Storage E L C) (s : State E L) (k : String)
      → IsRegistered st k
      → IsRegistered (add_state st s) k
  unfolding add_state
  add_state-IsRegistered st s k (c, e) = elim (String-cases s.trigger_state k) [
    | inl p ↦ subst (IsRegistered (add_state st s)) p (add_state-own st s)
    | inr ne ↦ (c, lookup-insert_ne s.trigger_state k s st.state_map ne ∙ e)
  ]

  add_states-IsRegistered :
      (st : Storage E L C) (ss : List (State E L)) (k : String)
      → IsRegistered st k
      → IsRegistered (add_states st ss) k
  unfolding add_states
  add_states-IsRegistered st [] k h = h
  add_states-IsRegistered st (s ∷ ss) k h =
      add_states-IsRegistered (add_state st s) ss k (add_state-IsRegistered st s k h)

  add_states_all :
      (st : Storage E L C) (ss : List (State E L))
      → All (λ c. IsRegistered (add_states st ss) c.trigger_state) ss
  unfolding add_states
  add_states_all st [] = tt
  add_states_all st (s ∷ ss) = (
    add_states-IsRegistered (add_state st s) ss s.trigger_state (add_state-own st s),
    add_states_all (add_state st s) ss,
  )

  add_state-entry :
      (st : Storage E L C) (s : State E L) (k : String) (c : State E L)
      → lookup k (add_state st s).state_map ≡ some c
      → (lookup k st.state_map ≡ some c) ⊎ ((s ≡ c) × (s.trigger_state ≡ k))
  unfolding add_state
  add_state-entry st s k c e = elim (String-cases s.trigger_state k) [
    | inl p ↦ inr (
      some-injective _ _ (
          sym (lookup-insert_self s.trigger_state s st.state_map)
          ∙ ap (λ i. lookup i (add_state st s).state_map) p
          ∙ e),
      p,
    )
    | inr ne ↦ inl (sym (lookup-insert_ne s.trigger_state k s st.state_map ne) ∙ e)
  ]

  -- What the map of states has comes from the list.
  add_states-entry :
      (st : Storage E L C) (ss : List (State E L)) (k : String) (c : State E L)
      → lookup k (add_states st ss).state_map ≡ some c
      → (lookup k st.state_map ≡ some c) ⊎ (Any (λ d. d ≡ c) ss × (c.trigger_state ≡ k))
  unfolding add_states
  add_states-entry st [] k c e = inl e
  add_states-entry st (s ∷ ss) k c e = elim (add_states-entry (add_state st s) ss k c e) [
    | inr (a, p) ↦ inr (inr a, p)
    | inl f ↦ elim (add_state-entry st s k c f) [
      | inl g ↦ inl g
      | inr (same, p) ↦ inr (inl same, ap (λ x. x.trigger_state) (sym same) ∙ p)
    ]
  ]

module _ {E L : Type 0} (C : Type 0) where
  pub new_storage-IsRegistered :
      (states : List (State E L))
      → All
          (λ c. IsRegistered (new_state_storage_from_states {C = C} states) c.trigger_state)
          states
  unfolding new_state_storage_from_states
  new_storage-IsRegistered states = add_states_all (empty_storage states) states

  pub new_storage-entry :
      (states : List (State E L)) (k : String) (c : State E L)
      → lookup k (new_state_storage_from_states {C = C} states).state_map ≡ some c
      → Any (λ d. d ≡ c) states × (c.trigger_state ≡ k)
  unfolding new_state_storage_from_states
  new_storage-entry states k c e =
      elim (add_states-entry (empty_storage {C = C} states) states k c e) [
        | inl f ↦ absurd (no_entry k c f)
        | inr h ↦ h
      ]

module _ {C : Type 0} where
  exec_func-All :
      (P : String × Worker C → Type 0) (name : String) (n : ℕ)
      → P (name, idle)
      → All P (exec_func name n)
  unfolding exec_func
  exec_func-All P name zero p = tt
  exec_func-All P name (suc n) p = (p, exec_func-All P name n p)

module _ {E L C : Type 0} where
  -- What holds of an idle worker of each state holds of all workers at the start.
  pub start_workers-All :
      (P : String × Worker C → Type 0) (ss : List (State E L))
      → All (λ c. P (c.trigger_state, idle)) ss
      → All P (start_workers ss)
  unfolding start_workers
  start_workers-All P [] a = tt
  start_workers-All P (s ∷ ss) a = elim (Bool-cases s.terminal) [
    | inl t ↦ rw t (start_workers-All P ss a.1)
    | inr t ↦ rw t (
        All-append P (exec_func s.trigger_state (pos_part s.concurrency)) (start_workers ss)
          (exec_func-All P s.trigger_state (pos_part s.concurrency) a.0)
          (start_workers-All P ss a.1))
  ]

module _ (C : Type 0) where
  exec_func-Any :
      (name : String) (n : ℕ)
      → 1 ≤ n
      → Any {A = String × Worker C} (λ (i, w). i ≡ name) (exec_func name n)
  unfolding exec_func
  exec_func-Any name zero h = absurd (omega (arith, h))
  exec_func-Any name (suc n) h = inl refl

module _ {E L : Type 0} (C : Type 0) where
  pub start_workers-Any :
      (ss : List (State E L)) (c : State E L)
      → Any (λ d. d ≡ c) ss
      → c.terminal ≡ false
      → 1 ≤ pos_part c.concurrency
      → Any {A = String × Worker C} (λ (i, w). i ≡ c.trigger_state) (start_workers ss)
  unfolding start_workers
  start_workers-Any [] c a t h = elim a [ ]
  start_workers-Any (s ∷ ss) c (inl p) t h = rw (ap (λ x. x.terminal) p ∙ t) (
      Any-append_left _ (exec_func s.trigger_state (pos_part s.concurrency)) (start_workers ss) (
        subst
          (λ x.
            Any {A = String × Worker C} (λ (i, w). i ≡ x.trigger_state)
              (exec_func s.trigger_state (pos_part s.concurrency)))
          p
          (exec_func-Any C s.trigger_state (pos_part s.concurrency)
            (subst (λ x. 1 ≤ pos_part x.concurrency) (sym p) h))))
  start_workers-Any (s ∷ ss) c (inr a) t h =
      let later = start_workers-Any ss c a t h in
      elim (Bool-cases s.terminal) [
        | inl e ↦ rw e later
        | inr e ↦ rw e (
            Any-append_right _ (exec_func s.trigger_state (pos_part s.concurrency))
              (start_workers ss) later)
      ]
