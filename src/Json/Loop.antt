-- ===== src/Json/Loop.antt =====
-- json_serializer.go, `checkpointLoop`: the goroutine that tries a checkpoint on every tick and kick,
-- with the checkpoints that it tries, until `Close` stops it. No update is appended meanwhile; a
-- checkpoint among appends is a step of Json.Life.
use jorb.Base.{
  suc, ◌+◌, ◌*◌, ◌≤◌, All, ◌≡◌, refl, Bool, true, false, List, [], ◌∷◌, if◌then◌else◌, Bool-cases,
  inl, inr,
}
use jorb.Job.{Job, Time}
use jorb.Run.{Run}
use jorb.Json.{Codec}
use jorb.Json.Backoff.{
  Checkpointing, second, may_start, settle, run_checkpoint, run_checkpoints, wait_over,
}
use jorb.Json.Disk.{Store, Answer, done, failed, died, Io, pure, ◌>>=◌, ◌>>◌}
use jorb.Json.Store.{do_checkpoint_rotate_write_delete}
use jorb.Json.Start.{close_serializer}
use jorb.Json.Covers.{DistinctJobs}
use jorb.Json.Durable.{Sound}
use jorb.Json.Rules.{Post, bind_rule}
use jorb.Json.Rotation.{checkpoint-Sound}
use jorb.Json.Closing.{close_serializer-Sound}

-- What the `select` of the loop takes next. A checkpoint that follows starts at the first time, and has
-- ended by the second.
pub data Wake : Type 0 where
  ticked kicked : Time → Time → Wake
  stopped : Wake

module _ {Line OC C : Type 0} where
  -- What follows a checkpoint that was tried.
  abbrev pub settled :
      Time
      → Checkpointing
      → Answer (Unit {0}) × Store Line OC C
      → Answer Checkpointing × Store Line OC C
  settled later w (done u, s) = (done (settle later false w), s)
  settled later w (failed e, s) = (done (settle later true w), s)
  settled later w (died, s) = (died, s)

  -- `runCheckpoint`
  unfoldable pub try_checkpoint : Time → Time → Checkpointing → Io Line OC C Checkpointing
  unfolding may_start settle do_checkpoint_rotate_write_delete
  try_checkpoint now later w s =
      if may_start now w
      then settled later (record w { checkpoint_busy = true }) (do_checkpoint_rotate_write_delete s)
      else (done (record w { checkpoint_pending = true }), s)

  -- From a state that is not busy and whose wait is over by `end`, whatever calls there were until
  -- `end`, and whichever failed: sixteen seconds after `end` a call of `runCheckpoint` attempts a
  -- checkpoint again. It makes the calls of a checkpoint on the files, at once, and the failures are
  -- counted from zero if it succeeds, and go up by one if it fails.
  pub checkpoint_retried :
      (calls : List (Time × Time × Bool)) (end later : Time) (failing : Bool) (w : Checkpointing)
      (s : Store Line OC C)
      → w.checkpoint_busy ≡ false
      → w.ck_backoff_until ≤ end
      → All (λ (from, to, f). to ≤ end) calls
      → ((run_checkpoint (end + 16 * second) later failing (run_checkpoints calls w)).ck_failures
          ≡ (if failing then suc (run_checkpoints calls w).ck_failures else 0))
        × (try_checkpoint (end + 16 * second) later (run_checkpoints calls w) s
            ≡ settled later
                (record (run_checkpoints calls w) { checkpoint_busy = true })
                (do_checkpoint_rotate_write_delete s))
  unfolding try_checkpoint run_checkpoint settle
  checkpoint_retried calls end later failing w s free until a =
      rw (wait_over calls end w free until a) (counted failing, refl)
    where
      counted :
          (b : Bool)
          → (settle later b
              (record (run_checkpoints calls w) { checkpoint_busy = true })).ck_failures
            ≡ (if b then suc (run_checkpoints calls w).ck_failures else 0)
      counted true = refl
      counted false = refl

  -- Of a kick that is not there nothing is taken.
  unfoldable pub checkpoint_loop : List Wake → Checkpointing → Io Line OC C Checkpointing
  unfolding try_checkpoint
  checkpoint_loop [] w = pure w
  checkpoint_loop (stopped ∷ wakes) w = pure w
  checkpoint_loop (ticked now later ∷ wakes) w =
      try_checkpoint now later w >>= checkpoint_loop wakes
  checkpoint_loop (kicked now later ∷ wakes) w =
      let go_on = checkpoint_loop wakes in
      if w.kicked then try_checkpoint now later (record w { kicked = false }) >>= go_on else go_on w

  -- `Close`, with the loop that it stops and waits for.
  unfoldable pub close : List Wake → Checkpointing → Io Line OC C (Unit {0})
  unfolding checkpoint_loop close_serializer
  close wakes w = do checkpoint_loop wakes w; close_serializer

module _ {Line OC C : Type 0} (codec : Codec Line C) (w : Run OC C) (all : List (Job C))
    (distinct : DistinctJobs all) where
  abbrev Keeps : Answer Checkpointing × Store Line OC C → Type 0
  Keeps x =
      Post (Sound codec w all w) x (λ c t. Sound codec w all w t × (c.checkpoint_busy ≡ false))

  settled-Sound :
      (later : Time) (c : Checkpointing) (x : Answer (Unit {0}) × Store Line OC C)
      → Post (Sound codec w all w) x (λ u t. Sound codec w all w t × (t.append_file ≡ true))
      → Keeps (settled later c x)
  unfolding settle
  settled-Sound later c (done u, t) h = (h.0, refl)
  settled-Sound later c (failed e, t) h = (h, refl)
  settled-Sound later c (died, t) h = h

  try_checkpoint-Sound :
      (now later : Time) (c : Checkpointing) (s : Store Line OC C)
      → c.checkpoint_busy ≡ false
      → Sound codec w all w s
      → Keeps (try_checkpoint now later c s)
  unfolding try_checkpoint
  try_checkpoint-Sound now later c s idle h = elim (Bool-cases (may_start now c)) [
    | inl starts ↦ rw starts (
        settled-Sound later (record c { checkpoint_busy = true })
          (do_checkpoint_rotate_write_delete s) (checkpoint-Sound codec w all distinct s h))
    | inr waits ↦ rw waits (h, idle)
  ]

  kicked-Sound :
      (wakes : List Wake) (now later : Time) (c : Checkpointing) (s : Store Line OC C)
      → c.checkpoint_busy ≡ false
      → Sound codec w all w s
      → ((d : Checkpointing) (t : Store Line OC C)
          → d.checkpoint_busy ≡ false
          → Sound codec w all w t
          → Keeps (checkpoint_loop wakes d t))
      → (b : Bool)
      → Keeps (
          (if b
              then try_checkpoint now later (record c { kicked = false }) >>= checkpoint_loop wakes
              else checkpoint_loop wakes c)
            s)
  kicked-Sound wakes now later c s idle h rest true =
      bind_rule (Sound codec w all w) (try_checkpoint now later (record c { kicked = false }))
        (checkpoint_loop wakes) s (λ d t. Sound codec w all w t × (d.checkpoint_busy ≡ false)) _
        (try_checkpoint-Sound now later (record c { kicked = false }) s idle h)
        λ d t x. rest d t x.1 x.0
  kicked-Sound wakes now later c s idle h rest false = rest c s idle h

  checkpoint_loop-Sound :
      (wakes : List Wake) (c : Checkpointing) (s : Store Line OC C)
      → c.checkpoint_busy ≡ false
      → Sound codec w all w s
      → Keeps (checkpoint_loop wakes c s)
  unfolding checkpoint_loop
  checkpoint_loop-Sound [] c s idle h = (h, idle)
  checkpoint_loop-Sound (stopped ∷ wakes) c s idle h = (h, idle)
  checkpoint_loop-Sound (ticked now later ∷ wakes) c s idle h =
      bind_rule (Sound codec w all w) (try_checkpoint now later c) (checkpoint_loop wakes) s
        (λ d t. Sound codec w all w t × (d.checkpoint_busy ≡ false)) _
        (try_checkpoint-Sound now later c s idle h) λ d t x. checkpoint_loop-Sound wakes d t x.1 x.0
  checkpoint_loop-Sound (kicked now later ∷ wakes) c s idle h =
      kicked-Sound wakes now later c s idle h (λ d t i k. checkpoint_loop-Sound wakes d t i k)
        c.kicked

  -- From a sound store, with no checkpoint at work and no update appended any more: whenever the
  -- checkpoint goroutine is woken until it is stopped, and whichever of its calls and those of the rest
  -- of `Close` fail, the store stays sound, also if the program dies in any of them; and when `Close`
  -- works the handle of the log is closed.
  pub close-Sound :
      (wakes : List Wake) (c : Checkpointing) (s : Store Line OC C)
      → c.checkpoint_busy ≡ false
      → Sound codec w all w s
      → Post
          (Sound codec w all w)
          (close wakes c s)
          (λ u t. Sound codec w all w t × (t.append_file ≡ false))
  unfolding close
  close-Sound wakes c s idle h =
      bind_rule (Sound codec w all w) (checkpoint_loop wakes c) (λ d. close_serializer) s
        (λ d t. Sound codec w all w t × (d.checkpoint_busy ≡ false)) _
        (checkpoint_loop-Sound wakes c s idle h)
        λ d t x. close_serializer-Sound codec w all distinct t x.0
