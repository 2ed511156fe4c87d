-- ===== src/Json/Store.antt =====
-- json_serializer.go, `JsonSerializer` on its files: appending an update, the checkpoint that rotates,
-- writes and deletes, and the recovery of the checkpoint file.
use jorb.Base.{
  ℕ, suc, eqb, leb, Bool, true, false, Option, none, some, List, [], ◌∷◌, ◌++◌, map, if◌then◌else◌,
}
use jorb.Run.{Run}
use jorb.Json.Disk.{
  whole, torn, Disk, Io, ◌>>=◌, ◌>>◌, pure, gets, modify, ignoring, ◌on_error◌, syscall, change,
  touch, stat, is_there, or_empty,
}

-- The file gets the segment's name; a segment that had it is gone.
unfoldable pub put_segment : {A : Type 0} → ℕ → A → List (ℕ × A) → List (ℕ × A)
put_segment n a [] = (n, a) ∷ []
put_segment n a ((m, b) ∷ segments) =
    if eqb m n then (n, a) ∷ segments else (m, b) ∷ put_segment n a segments

unfoldable pub drop_segment : {A : Type 0} → ℕ → List (ℕ × A) → List (ℕ × A)
drop_segment n [] = []
drop_segment n ((m, b) ∷ segments) = if eqb m n then segments else (m, b) ∷ drop_segment n segments

unfoldable pub segment : {A : Type 0} → ℕ → List (ℕ × A) → Option A
segment n [] = none
segment n ((m, b) ∷ segments) = if eqb m n then some b else segment n segments

unfoldable pub insert_by_seq : ℕ → List ℕ → List ℕ
insert_by_seq n [] = n ∷ []
insert_by_seq n (m ∷ ms) = if leb n m then n ∷ m ∷ ms else m ∷ insert_by_seq n ms

-- `sort.Slice(pairs, …)`
unfoldable pub sort_by_seq : List ℕ → List ℕ
unfolding insert_by_seq
sort_by_seq [] = []
sort_by_seq (n ∷ ns) = insert_by_seq n (sort_by_seq ns)

-- A log of the serializer.
pub data LogFile : Type 0 where
  active_log : LogFile
  sealed_log : ℕ → LogFile

abbrev pub seq_of : {A : Type 0} → ℕ × A → ℕ
seq_of (n, a) = n

module _ {Line OC C : Type 0} where
  -- `filepath.Glob` of all logs: the active one stands first. Listing the directory does not fail.
  unfoldable pub log_files : Disk Line OC C → List LogFile
  log_files d =
      (if is_there d.active then active_log ∷ [] else [])
      ++ map (λ p. sealed_log (seq_of p)) d.sealed

  abbrev pub without_log : LogFile → Disk Line OC C → Disk Line OC C
  without_log active_log d = record d { active = none }
  without_log (sealed_log n) d = record d { sealed = drop_segment n d.sealed }

  unfoldable pub remove_each : List LogFile → Io Line OC C (Unit {0})
  remove_each [] = pure tt
  remove_each (f ∷ fs) = do change (without_log f); remove_each fs

  -- `removeAllAppendArtifactsLocked`
  unfoldable pub remove_all_append_artifacts : Io Line OC C (Unit {0})
  unfolding remove_each log_files
  remove_all_append_artifacts = do
    files ← gets (λ s. log_files s.disk)
    remove_each files
    modify (λ s. record s { seal_seq = 0 })

  -- The serializer and the processor share the run: its jobs are copied, and job values do not change.
  unfoldable pub snapshot_run : Io Line OC C (Run OC C)
  snapshot_run = gets (λ s. s.run)

  abbrev pub remove_tmp : Io Line OC C (Unit {0})
  remove_tmp = ignoring (change (λ d. record d { tmp = none }))

  -- Making the directory, opening, encoding, syncing, closing and renaming.
  unfoldable pub write_checkpoint_atomic : Run OC C → Io Line OC C (Unit {0})
  unfolding syscall
  write_checkpoint_atomic run = do
    touch
    change (λ d. record d { tmp = some torn })
    ◌on_error◌ (change (λ d. record d { tmp = some (whole run) })) (ignoring touch >> remove_tmp)
    ◌on_error◌ touch (ignoring touch)
    touch
    change (λ d. record d { main = d.tmp; tmp = none })

  -- Opening the active log for appending makes it, if it is not there.
  unfoldable pub open_append : Io Line OC C (Unit {0})
  unfolding syscall
  open_append = do
    change (λ d. record d { active = some (or_empty d.active) })
    modify (λ s. record s { append_file = true })

  -- The handle is closed, whether that works or not.
  abbrev pub close_append : Bool → Io Line OC C (Unit {0})
  close_append true = do ignoring touch; modify (λ s. record s { append_file = false })
  close_append false = pure tt

  abbrev pub seal_active : ℕ → Disk Line OC C → Disk Line OC C
  seal_active n d = record d { active = none; sealed = put_segment n (or_empty d.active) d.sealed }

  abbrev pub rotate : Bool → Io Line OC C (Unit {0})
  rotate true = do
    seq ← gets (λ s. suc s.seal_seq)
    change (seal_active seq)
    modify (λ s. record s { seal_seq = suc s.seal_seq })
  rotate false = pure tt

  unfoldable pub do_checkpoint_rotate_write_delete : Io Line OC C (Unit {0})
  unfolding stat snapshot_run write_checkpoint_atomic remove_all_append_artifacts open_append
  do_checkpoint_rotate_write_delete = do
    is_open ← gets (λ s. s.append_file)
    close_append is_open
    there ← stat (λ d. is_there d.active)
    rotate there
    snap ← snapshot_run
    write_checkpoint_atomic snap
    remove_all_append_artifacts
    open_append

  -- `recoverCheckpointAtomic`
  abbrev pub promote_old : Bool → Io Line OC C (Unit {0})
  promote_old true = do
    change (λ d. record d { main = d.old; old = none })
    ignoring (change (λ d. record d { tmp = none }))
  promote_old false = pure tt

  abbrev pub remove_old : Io Line OC C (Unit {0})
  remove_old = ignoring (change (λ d. record d { old = none }))

  abbrev pub promote : Bool → Io Line OC C (Unit {0})
  promote true = do change (λ d. record d { main = d.tmp; tmp = none }); remove_old
  promote false = do there ← stat (λ d. is_there d.old); promote_old there

  abbrev pub promote_unless : Bool → Io Line OC C (Unit {0})
  promote_unless true = do remove_tmp; remove_old
  promote_unless false = do there ← stat (λ d. is_there d.tmp); promote there

  unfoldable pub recover_checkpoint_atomic : Io Line OC C (Unit {0})
  unfolding stat
  recover_checkpoint_atomic = do
    touch
    there ← gets (λ s. is_there s.disk.main)
    promote_unless there
