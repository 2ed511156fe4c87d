-- ===== src/Lib.antt =====
-- Verification of jorb, a library that moves a batch of jobs through the states of a user's state
-- machine, with a bounded number of workers for each state.
--
-- The program and its files, and where they are modelled:
--
-- - processor.go, `stateStorage`: Storage (the five maps and the methods that move jobs), with
--   Storage.New (newStateStorageFromStates, validate), Storage.Status (allJobsAreTerminal,
--   hasExecutingJobs, getStatusCounts), Storage.Lane (one state's part of the maps, and the
--   abstract admission and release of a job), Storage.Refine, Storage.Oldest (which waiting
--   job gets a free place), Storage.Invariant, Storage.Holds (which
--   jobs stand in the lanes), Storage.Valid and Storage.Fresh.
-- - processor.go, the main goroutine: Processor (handleReturn, persistAfterCompletion),
--   Processor.Process (Exec, process, shutdown), Processor.Invariant, Processor.Admission (what
--   the start of a run admits) and Processor.Starting. The
--   goroutines together are a step relation: Processor.System, Processor.Safety,
--   Processor.Progress, and Processor.Running for the loop among them. Where each job of the run
--   stands: Processor.Tracking, Processor.Finishing, Processor.Waiting, Processor.Launch. All of it
--   with the places where goroutines stand (StateExec.Run, execFunc, NewProcessor, cancellation, the
--   closing of channels): Processor.Goroutines, whose Workers shows that the moves are steps of
--   Processor.System; Configured, Beginning, Placed, Alive, Ending, Over and Going lead to Executing
--   and Refines, and Canceled is about a context that is canceled.
-- - The processor on the serializer of json_serializer.go: Processor.Touched, Processor.Persisting,
--   Processor.Surviving, Processor.Dying. The serializer's copy of the run is the processor's.
-- - processor.go, `StateExec`, and the errors of ratelimit.go: Worker, Worker.Outcomes, Worker.Ending (how
--   a call ended, told by the chain of its error) and Worker.Settling.
-- - ratelimit.go, `AIMDRateLimiter`: Aimd, Aimd.Float (the arithmetic), Aimd.Bounds, Aimd.Windows.
-- - run.go: Run, Run.Adding, Run.Equal. job.go: Job, Job.Errors. serializer.go: `Serializer` in
--   Processor. The configuration types of processor.go: State.
-- - json_serializer.go: Json (the records of a log and their replay), Json.Replay, Json.Backoff (the
--   retries of failed checkpoints). Its files: Json.Disk (the checkpoint files and logs, and calls of
--   the operating system), Json.Store (doCheckpointRotateWriteDelete, writeCheckpointAtomic,
--   removeAllAppendArtifacts, recoverCheckpointAtomic, openAppend, snapshotRun), Json.Start
--   (NewJsonSerializer, loadCheckpointAndReplay, materializeCleanIncremental, Deserialize, JobUpdate,
--   CheckpointSync, Close). What a checkpoint and a log hold of a run: Json.Covers, Json.Durable; rules
--   for chains of calls: Json.Rules; the checkpoint: Json.Checkpoint, Json.Clearing, Json.Rotation; the
--   append: Json.Appending and Json.CutOff; the start: Json.ReadBack, Json.Starting, Json.Loading, Json.Restart,
--   Json.Refused; the end: Json.Closing, Json.Loop (checkpointLoop); all of them in turn: Json.Life;
--   without failures: Json.Unfailing, Json.Returns, Json.Survival. The names of sealed segments
--   (sealedIncrementalPath, parseSealedSeq, listSealedSegments) and of the active log
--   (incrementalStemPaths): Json.Names.
-- - Base holds what the others share: lists, integers, maps, the order of strings. Effect has the
--   results of calls (a value, a panic, or blocked for ever) and Channel Go's buffered channels.
--   Tests applies the theorems to concrete inputs.
--
-- How the parts interact: a worker takes a job from its state's channel, executes it, and sends a
-- `Return`; the main goroutine frees the worker's place (runNextWaitingJob), writes the job into the
-- run (UpdateJob), admits it to its new state (processJob), does the same for the jobs it kicks off,
-- and appends all of them to the serializer. Workers tell the state's rate limiter how it went.
--
-- How the code is represented:
--
-- - Methods that change an object return the new one. A `*StatusCount` and a slice of waiting jobs
--   have one holder each, so they are held by value. A Go map is an association list, in one of the
--   orders in which it may be ranged over; a nil map is `none` where a nil map can occur.
-- - `int` counts are integers without a bound: they count jobs that are in memory. Durations and
--   times are nanoseconds; `time.Time.Sub` saturates as in Go.
-- - Readings of the clock, random bytes, the user's functions, deep equality of contexts and the
--   text of durations are arguments. `float64` is a record of the operations that are used, with the
--   laws of IEEE 754 that matter as a hypothesis; the token bucket of golang.org/x/time/rate is a
--   record of its setters. Both hypotheses are shown to hold of an instance in Aimd.Float.
-- - Go's encoding/json is a pair of functions on lines, with the law that what is written can be read.
-- - A call of package os, or a method of a file, takes the next of a list of events: the updates that
--   the main goroutine makes to the run before the call, whether the call works, fails or the process
--   dies in it, and whether a write that does not end leaves a part. When the list is used up, calls
--   work. The run as the written updates leave it, and the updates that are made and not yet written,
--   stand in statements only. What is written is there after the process died; a computer that loses
--   power is outside the model. No other program changes the files, and listing their directory
--   works.
-- - `log.Fatalf` and the panics of the runtime are values of `Panic`.
-- - The loop of `process` runs over the passes that are to come: each is the return that is received
--   first and those that are drained after it, with the jobs that workers took before each. When they
--   run out the context is done. The search for a fresh id runs over a list of draws. `digits_from`
--   has fuel for more digits than the number has. Every other loop is by recursion on what it ranges
--   over.
--
-- What is not modelled: logging, profiling labels, mutexes and wait groups; in json_serializer.go, the
-- directory of the checkpoint (the names of the logs are in Json.Names; on the disk of Json.Disk a
-- segment stands under its number), scheduleCheckpoint (never called, since the interval is ten seconds), the limit on
-- the length of a line, and the limit of 64 bits on a segment's number when it is counted up; the
-- status listener, apart from what it is sent; joined errors; the examples.
pub mod Aimd
pub mod Base
pub mod Channel
pub mod Effect
pub mod Job
pub mod Json
pub mod Processor
pub mod Run
pub mod State
pub mod Storage
pub mod Tests
pub mod Worker
