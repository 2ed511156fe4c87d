-- ===== src/Storage/Fresh.antt =====
-- The storage that an accepted configuration starts with.
use mathlib.Core.Path.{ap, subst₂}
use mathlib.Core.Option.{some-injective}
use jorb.Base.{
  ◌≡◌, refl, sym, ◌∙◌, subst, inl, inr, String, ◌==◌, false, none, some, List, [], ◌∷◌, pos,
  pos_part, ltb_ℤ, Dict, Distinct, insert-Distinct, lookup, lookup-insert_self, lookup-insert_ne,
  All, String-cases, if◌then◌else◌, arith,
}
use jorb.State.{State, StatusCount}
use jorb.Storage.{Storage}
use jorb.Storage.New.{validate, add_state, add_states, empty_storage, new_state_storage_from_states}
use jorb.Storage.Lane.{Lane, HasLane}
use jorb.Storage.Invariant.{LaneOk, Inv}
use jorb.Storage.Valid.{StateOk, validate_iff}

pub no_entry : {A : Type 0} (k : String) (a : A) → lookup k [] ≡ some a → ⊥
unfolding lookup
no_entry k a e = cc

module _ {E L C : Type 0} where
  abbrev fresh : String → State E L → Lane E L C
  fresh k s = record {
    config = s;
    status = record {
      state = k;
      completed = pos 0;
      executing = pos 0;
      waiting = pos 0;
      terminal = s.terminal;
    };
    chan = record {
      cap = if ltb_ℤ s.concurrency (pos 0) then 0 else pos_part s.concurrency;
      buf = [];
      closed = false;
    };
    queue = [];
  }

  -- Every name in the map of states has a fresh lane, made from a state that satisfies `P`.
  record IsFresh (P : State E L → Type 0) (st : Storage E L C) : Type 0 where
    unqueued : st.state_waiting_jobs_map ≡ []
    lanes :
        (k : String) (s : State E L)
        → lookup k st.state_map ≡ some s
        → HasLane st k (fresh k s) × P s
    counted :
        (k : String) (c : StatusCount)
        → lookup k st.state_status_map ≡ some c
        → (d : State E L) × (lookup k st.state_map ≡ some d)
    distinct : Distinct st.state_status_map

  add_state-HasLane :
      (st : Storage E L C) (s : State E L)
      → st.state_waiting_jobs_map ≡ []
      → HasLane (add_state st s) s.trigger_state (fresh s.trigger_state s)
  unfolding add_state lookup
  add_state-HasLane st s u = record {
    config = lookup-insert_self s.trigger_state s st.state_map;
    status = lookup-insert_self s.trigger_state _ st.state_status_map;
    chan = lookup-insert_self s.trigger_state _ st.state_chan;
    queue = rw u;
  }

  add_state-HasLane_other :
      (st : Storage E L C) (s : State E L) (k : String) (l : Lane E L C)
      → (s.trigger_state == k) ≡ false
      → HasLane st k l
      → HasLane (add_state st s) k l
  unfolding add_state
  add_state-HasLane_other st s k l ne h = record {
    config = lookup-insert_ne s.trigger_state k s st.state_map ne ∙ h.config;
    status = lookup-insert_ne s.trigger_state k _ st.state_status_map ne ∙ h.status;
    chan = lookup-insert_ne s.trigger_state k _ st.state_chan ne ∙ h.chan;
    queue = h.queue;
  }

  add_state-IsFresh :
      (P : State E L → Type 0) (st : Storage E L C) (s : State E L)
      → P s
      → IsFresh P st
      → IsFresh P (add_state st s)
  unfolding add_state
  add_state-IsFresh P st s p h = record {
    unqueued = h.unqueued;
    lanes = λ k c e. elim (String-cases s.trigger_state k) [
      | inl same ↦
          let own = add_state-HasLane st s h.unqueued in
          let c_eq : s ≡ c =
            some-injective _ _
              (sym own.config ∙ ap (λ i. lookup i (add_state st s).state_map) same ∙ e) in
          subst₂ (λ i d. HasLane (add_state st s) i (fresh i d) × P d) same c_eq (own, p)
      | inr ne ↦
          let (l, q) =
            h.lanes k c (sym (lookup-insert_ne s.trigger_state k s st.state_map ne) ∙ e) in
          (add_state-HasLane_other st s k _ ne l, q)
    ];
    counted = λ k c e. elim (String-cases s.trigger_state k) [
      | inl same ↦ (
        s,
        subst (λ i. lookup i (add_state st s).state_map ≡ some s) same
            (add_state-HasLane st s h.unqueued).config,
      )
      | inr ne ↦
          let (d, f) =
            h.counted k c (sym (lookup-insert_ne s.trigger_state k _ st.state_status_map ne) ∙ e) in
          (d, lookup-insert_ne s.trigger_state k s st.state_map ne ∙ f)
    ];
    distinct = insert-Distinct s.trigger_state _ st.state_status_map h.distinct;
  }

  add_states-IsFresh :
      (P : State E L → Type 0) (st : Storage E L C) (ss : List (State E L))
      → All P ss
      → IsFresh P st
      → IsFresh P (add_states st ss)
  unfolding add_states
  add_states-IsFresh P st [] p h = h
  add_states-IsFresh P st (s ∷ ss) p h =
      add_states-IsFresh P (add_state st s) ss p.1 (add_state-IsFresh P st s p.0 h)

  pub add_states-states :
      (st : Storage E L C) (ss : List (State E L)) → (add_states st ss).states ≡ st.states
  unfolding add_states
  add_states-states st [] = refl
  add_states-states st (s ∷ ss) = add_states-states (add_state st s) ss

  fresh-LaneOk :
      (m : Dict (State E L)) (k : String) (s : State E L) → StateOk m s → LaneOk k 0 (fresh k s)
  fresh-LaneOk m k s h = record {
    is_open = refl;
    capacity = ground arith;
    executing = refl;
    waiting = refl;
    bounded = omega arith;
    busy = λ q. absurd (omega arith);
    workable = ground (arith, h.concurrency);
    idle = λ t. refl;
    queued = tt;
    buffered = tt;
  }

  -- A configuration that `validate` accepts starts with every lane in order and nothing in flight.
  pub new_state_storage_from_states-Inv :
      (states : List (State E L))
      → validate (new_state_storage_from_states {C = C} states) ≡ none
      → Inv (λ k. 0) (new_state_storage_from_states {C = C} states)
  unfolding new_state_storage_from_states
  new_state_storage_from_states-Inv states v = record {
    lanes = λ k c e.
        let (l, p) = fresh_lanes.lanes k c e in
        (
          fresh k c,
          record { config = l.config; status = l.status; chan = l.chan; queue = l.queue },
          fresh-LaneOk _ k c p,
        );
    counted = fresh_lanes.counted;
    distinct = fresh_lanes.distinct;
  }
    where
      st : Storage E L C
      st = new_state_storage_from_states states

      good : All (StateOk st.state_map) states
      good =
          subst (All (StateOk st.state_map)) (add_states-states (empty_storage states) states)
            ((validate_iff st).0 v)

      fresh_lanes :
          IsFresh (StateOk st.state_map) (add_states (empty_storage {C = C} states) states)
      fresh_lanes = add_states-IsFresh _ (empty_storage states) states good (record {
        unqueued = refl;
        lanes = λ k c e. absurd (no_entry k c e);
        counted = λ k c e. absurd (no_entry k c e);
        distinct = tt;
      })
