-- ===== src/Json/Backoff.antt =====
-- json_serializer.go, `runCheckpoint`: when a checkpoint is tried, and how long to wait after one
-- that failed. Times are in nanoseconds.
use Prim.Native.Nat.{min}
use jorb.Base.{
  ℕ, zero, suc, ◌+◌, ◌-◌, ◌*◌, ◌^◌, ◌≡◌, ◌≤◌, refl, ap, Bool, true, false, List, [], ◌∷◌, All, ◌<◌,
  ltb, if◌then◌else◌, arith,
}
use jorb.Job.{Time}

abbrev pub second : ℕ
second = 1_000_000_000

-- The fields that `ckMu` guards, and whether the kick channel holds a kick.
pub record Checkpointing : Type 0 where
  pub checkpoint_busy : Bool
  pub checkpoint_pending : Bool
  pub ck_failures : ℕ
  pub ck_backoff_until : Time
  pub kicked : Bool

-- `1 << min(w.ckFailures-1, 4)`, and at most 30
unfoldable pub backoff_sec : ℕ → ℕ
backoff_sec failures = let sec = 2 ^ min (failures - 1) 4 in if ltb 30 sec then 30 else sec

-- A checkpoint that starts: not in a backoff, and with no other at work.
unfoldable pub may_start : Time → Checkpointing → Bool
may_start now w =
    if ltb now w.ck_backoff_until then false else if w.checkpoint_busy then false else true

-- What follows the checkpoint; `now` is the time at its end.
unfoldable pub settle : Time → Bool → Checkpointing → Checkpointing
unfolding backoff_sec
settle now failed w =
    let kicked = if w.checkpoint_pending then true else w.kicked in
    if failed
    then record {
      checkpoint_busy = false;
      checkpoint_pending = false;
      ck_failures = suc w.ck_failures;
      ck_backoff_until = now + backoff_sec (suc w.ck_failures) * second;
      kicked = kicked;
    }
    else record {
      checkpoint_busy = false;
      checkpoint_pending = false;
      ck_failures = 0;
      ck_backoff_until = 0;
      kicked = kicked;
    }

-- One call: at its start it is `now`, and at its end `later`; the flag tells whether the checkpoint, if
-- it is tried, fails.
unfoldable pub run_checkpoint : Time → Time → Bool → Checkpointing → Checkpointing
unfolding may_start settle
run_checkpoint now later failed w =
    if may_start now w
    then settle later failed (record w { checkpoint_busy = true })
    else record w { checkpoint_pending = true }

-- Calls one after the other.
unfoldable pub run_checkpoints : List (Time × Time × Bool) → Checkpointing → Checkpointing
unfolding run_checkpoint
run_checkpoints [] w = w
run_checkpoints ((now, later, failed) ∷ calls) w =
    run_checkpoints calls (run_checkpoint now later failed w)

-- The wait doubles from one second, and never exceeds sixteen seconds.
backoff_sec_bounds : (n : ℕ) → (1 ≤ backoff_sec (suc n)) × (backoff_sec (suc n) ≤ 16)
unfolding backoff_sec
backoff_sec_bounds zero = (omega arith, omega arith)
backoff_sec_bounds (suc zero) = (omega arith, omega arith)
backoff_sec_bounds (suc (suc zero)) = (omega arith, omega arith)
backoff_sec_bounds (suc (suc (suc zero))) = (omega arith, omega arith)
backoff_sec_bounds (suc (suc (suc (suc n)))) =
    let capped : min (suc (suc (suc (suc (suc n)))) - 1) 4 ≡ 4 = omega arith in
    let longest : backoff_sec (suc (suc (suc (suc (suc n))))) ≡ 16 =
      ap (λ e. if ltb 30 (2 ^ e) then 30 else 2 ^ e) capped in
    (omega (arith, longest), omega (arith, longest))

-- Not busy, and no backoff that ends later than `limit`.
abbrev Idle : Time → Checkpointing → Type 0
Idle limit w = (w.checkpoint_busy ≡ false) × (w.ck_backoff_until ≤ limit)

run_checkpoint-Idle :
    (now later end : Time) (failed : Bool) (w : Checkpointing)
    → later ≤ end
    → Idle (end + 16 * second) w
    → Idle (end + 16 * second) (run_checkpoint now later failed w)
unfolding run_checkpoint settle
run_checkpoint-Idle now later end failed w h (free, until) =
    ground (arith, backoff_sec_bounds w.ck_failures)

run_checkpoints-Idle :
    (calls : List (Time × Time × Bool)) (end : Time) (w : Checkpointing)
    → All (λ (now, later, failed). later ≤ end) calls
    → Idle (end + 16 * second) w
    → Idle (end + 16 * second) (run_checkpoints calls w)
unfolding run_checkpoints
run_checkpoints-Idle [] end w a h = h
run_checkpoints-Idle ((now, later, failed) ∷ calls) end w a h =
    run_checkpoints-Idle calls end _ a.1 (run_checkpoint-Idle now later end failed w a.0 h)

pub wait_over :
    (calls : List (Time × Time × Bool)) (end : Time) (w : Checkpointing)
    → w.checkpoint_busy ≡ false
    → w.ck_backoff_until ≤ end
    → All (λ (now, later, failed). later ≤ end) calls
    → may_start (end + 16 * second) (run_checkpoints calls w) ≡ true
unfolding may_start
wait_over calls end w free until a =
    ground (arith, run_checkpoints-Idle calls end w a (free, omega (arith, until)))

backoff_holds :
    (calls : List (Time × Time × Bool)) (w : Checkpointing)
    → All (λ (now, later, failed). now < w.ck_backoff_until) calls
    → ((run_checkpoints calls w).ck_failures ≡ w.ck_failures)
      × ((run_checkpoints calls w).ck_backoff_until ≡ w.ck_backoff_until)
unfolding run_checkpoints run_checkpoint may_start
backoff_holds [] w a = (refl, refl)
backoff_holds ((now, later, failed) ∷ calls) w a =
    ground (arith, a.0, backoff_holds calls (record w { checkpoint_pending = true }) a.1)

-- After a checkpoint that was tried and failed, calls within the wait that its failures ask for try
-- none: the failures stay one more than before, and the end of the wait stays where it was set.
failed_checkpoint_waits :
    (w : Checkpointing) (now later : Time) (calls : List (Time × Time × Bool))
    → may_start now w ≡ true
    → All (λ (n, l, failed). n < later + backoff_sec (suc w.ck_failures) * second) calls
    → ((run_checkpoints calls (run_checkpoint now later true w)).ck_failures ≡ suc w.ck_failures)
      × ((run_checkpoints calls (run_checkpoint now later true w)).ck_backoff_until
          ≡ later + backoff_sec (suc w.ck_failures) * second)
unfolding run_checkpoint settle
failed_checkpoint_waits w now later calls starts a =
    rw starts (backoff_holds calls (settle later true (record w { checkpoint_busy = true })) a)
