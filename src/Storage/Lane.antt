-- ===== src/Storage/Lane.antt =====
-- The storage seen one state at a time. A lane is the state's configuration with its entries of the
-- other maps; the functions below say what the methods of the storage do to it.
use jorb.Base.{
  ◌≡◌, refl, ap, ◌∙◌, String, ◌==◌, false, some, List, [], ◌∷◌, ◌++◌, inc, dec, ltb_ℤ, lookup,
  insert, insert-Distinct, Distinct, lookup-insert_self, lookup-insert_ne, if◌then◌else◌,
}
use jorb.Channel.{Channel}
use jorb.Job.{Job}
use jorb.State.{State, StatusCount}
use jorb.Storage.{Storage, jobs_of, split_last}

pub record Lane (E L C : Type 0) : Type 0 where
  pub config : State E L
  pub status : StatusCount
  pub chan : Channel (Job C)
  pub queue : List (Job C)

module _ {E L C : Type 0} where
  pub record HasLane (s : Storage E L C) (k : String) (l : Lane E L C) : Type 0 where
    pub config : lookup k s.state_map ≡ some l.config
    pub status : lookup k s.state_status_map ≡ some l.status
    pub chan : lookup k s.state_chan ≡ some l.chan
    pub queue : jobs_of (lookup k s.state_waiting_jobs_map) ≡ l.queue

  abbrev pub put : Lane E L C → Job C → Lane E L C
  put l job = record l {
    status = record l.status { executing = inc l.status.executing };
    chan = record l.chan { buf = l.chan.buf ++ job ∷ [] };
  }

  abbrev pub enqueue : Lane E L C → Job C → Lane E L C
  enqueue l job = record l {
    status = record l.status { waiting = inc l.status.waiting };
    queue = job ∷ l.queue;
  }

  abbrev pub complete : Lane E L C → Lane E L C
  complete l = record l { status = record l.status { completed = inc l.status.completed } }

  abbrev pub release : Lane E L C → Lane E L C
  release l = record l { status = record l.status { executing = dec l.status.executing } }

  unfoldable pub admit : Lane E L C → Job C → Lane E L C
  admit l job =
      if l.config.terminal
      then complete l
      else if ltb_ℤ l.status.executing l.config.concurrency
      then put l job
      else enqueue l job

  abbrev pub start_last : Lane E L C → List (Job C) → Lane E L C
  start_last l [] = l
  start_last l (x ∷ xs) =
      let (job, rest) = split_last x xs in
      put (record l { status = record l.status { waiting = dec l.status.waiting }; queue = rest })
        job

  unfoldable pub next : Lane E L C → Lane E L C
  next l = start_last (release l) l.queue

  -- From `s` to `t` the lane of `k` has become `l`, and nothing else has changed.
  pub record Moves (s : Storage E L C) (k : String) (l : Lane E L C) (t : Storage E L C)
      : Type 0 where
    pub here : HasLane t k l
    pub others : (j : String) (m : Lane E L C) → (k == j) ≡ false → HasLane s j m → HasLane t j m
    pub states : t.states ≡ s.states
    pub state_map : t.state_map ≡ s.state_map
    pub names : t.sorted_state_names ≡ s.sorted_state_names
    pub counts :
        (j : String) → (k == j) ≡ false → lookup j t.state_status_map ≡ lookup j s.state_status_map
    pub distinct : Distinct s.state_status_map → Distinct t.state_status_map

  pub Moves-status :
      (s : Storage E L C) (k : String) (l : Lane E L C) (c : StatusCount)
      → HasLane s k l
      → Moves s k
          (record l { status = c })
          (record s { state_status_map = insert k c s.state_status_map })
  Moves-status s k l c h = record {
    here = record {
      config = h.config;
      status = lookup-insert_self k c s.state_status_map;
      chan = h.chan;
      queue = h.queue;
    };
    others = λ j m ne hm. record {
      config = hm.config;
      status = lookup-insert_ne k j c s.state_status_map ne ∙ hm.status;
      chan = hm.chan;
      queue = hm.queue;
    };
    states = refl;
    state_map = refl;
    names = refl;
    counts = λ j ne. lookup-insert_ne k j c s.state_status_map ne;
    distinct = insert-Distinct k c s.state_status_map;
  }

  pub Moves-chan :
      (s : Storage E L C) (k : String) (l : Lane E L C) (ch : Channel (Job C))
      → HasLane s k l
      → Moves s k (record l { chan = ch }) (record s { state_chan = insert k ch s.state_chan })
  Moves-chan s k l ch h = record {
    here = record {
      config = h.config;
      status = h.status;
      chan = lookup-insert_self k ch s.state_chan;
      queue = h.queue;
    };
    others = λ j m ne hm. record {
      config = hm.config;
      status = hm.status;
      chan = lookup-insert_ne k j ch s.state_chan ne ∙ hm.chan;
      queue = hm.queue;
    };
    states = refl;
    state_map = refl;
    names = refl;
    counts = λ j ne. refl;
    distinct = λ d. d;
  }

  pub Moves-queue :
      (s : Storage E L C) (k : String) (l : Lane E L C) (q : List (Job C))
      → HasLane s k l
      → Moves s k
          (record l { queue = q })
          (record s { state_waiting_jobs_map = insert k q s.state_waiting_jobs_map })
  Moves-queue s k l q h = record {
    here = record {
      config = h.config;
      status = h.status;
      chan = h.chan;
      queue = ap jobs_of (lookup-insert_self k q s.state_waiting_jobs_map);
    };
    others = λ j m ne hm. record {
      config = hm.config;
      status = hm.status;
      chan = hm.chan;
      queue = ap jobs_of (lookup-insert_ne k j q s.state_waiting_jobs_map ne) ∙ hm.queue;
    };
    states = refl;
    state_map = refl;
    names = refl;
    counts = λ j ne. refl;
    distinct = λ d. d;
  }

  pub Moves-trans :
      {s t u : Storage E L C} {k : String} {l m : Lane E L C}
      → Moves s k l t
      → Moves t k m u
      → Moves s k m u
  Moves-trans a b = record {
    here = b.here;
    others = λ j n ne h. b.others j n ne (a.others j n ne h);
    states = b.states ∙ a.states;
    state_map = b.state_map ∙ a.state_map;
    names = b.names ∙ a.names;
    counts = λ j ne. b.counts j ne ∙ a.counts j ne;
    distinct = λ d. b.distinct (a.distinct d);
  }

  pub Moves-refl : {s : Storage E L C} {k : String} {l : Lane E L C} → HasLane s k l → Moves s k l s
  Moves-refl h = record {
    here = h;
    others = λ j m ne hm. hm;
    states = refl;
    state_map = refl;
    names = refl;
    counts = λ j ne. refl;
    distinct = λ d. d;
  }
