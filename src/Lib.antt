-- ===== src/Lib.antt =====
-- DevCadence: the delivery lifecycle, the reduction of the event journal, the files of the flight recorder
-- and the compaction of a session.
--
-- DevCadence keeps the history of a project as a journal of typed events and derives its current state
-- from it. internal/events declares the events and checks them, internal/tasks declares the lifecycle
-- of delivery tasks and of the attempts under them, and internal/state folds the journal into a
-- projection, refusing every event that the lifecycle or the recorded evidence does not support.
-- Independently of it, internal/flightrec keeps telemetry in files of its own: wire encodes its records,
-- journal frames them in segments and scans a segment that may be torn or damaged. internal/compaction
-- keeps the context of an agent's session within the limit of its endpoint.
--
-- Which file models what:
--   Errs               internal/errs/errs.go: the error categories; an `error` is its category.
--   Bytes              Go's strings and byte slices as lists of numbers, and valid UTF-8.
--   Dict               Go's maps from strings, as association lists.
--   Protocol/*         internal/protocol: the classifications, actors, artifacts, module definitions
--                      (modules.go) and the records inside ProjectState.
--   Tasks/State        internal/tasks/state.go: the states, `CanTransition`, `CheckTransition`,
--                      `Allowed`, `Buckets`. Children: Edges, Paths, Bucketing.
--   Tasks/Task         internal/tasks/task.go: `Task`, `BlockedReason` and their `Validate`.
--   Tasks/Attempt      internal/tasks/attempt.go: `Attempt` and its statuses. Child: Course.
--   Events/*           internal/events/payloads_*.go: one record and one `_validate` for each payload;
--                      Payloads: the sum of the payloads, their types and the registry
--                      (registry.go); Envelope: event.go.
--   State/Exec         methods that change their receiver and may return an error. The state comes back
--                      beside the error, so what was written before an error stays visible.
--   State/Projection   internal/state/projection.go: `Projection`, `New`, `Task`, `Attempt`.
--   State/Lineage      internal/state/lineage.go: the checks that tie evidence to one attempt.
--   State/Discovery    internal/state/discovery.go: the working set of discovery.
--   State/Facts, State/Delivery, State/Attempts, State/Evidence
--                      internal/state/reduce.go: the handlers, `apply_task_created` for
--                      `applyTaskCreated` and so on, `transition_task`, `finish_attempt`.
--   State/Apply        `applyPayload` and `Apply` of reduce.go, `Reduce` of projection.go.
--   State/Render       the task buckets and the milestone of `ProjectState()` of projection.go.
--   Wire/Proto         what the codec uses of protowire, a record of functions, and its laws.
--   Wire/Encoder, Wire/Decoder
--                      internal/flightrec/wire/codec.go: the encoder's methods, and `scan` with the
--                      setters. Children: Loop, Outcome.
--   Wire/Messages/*    types.go and codec.go: a module for each message with its record, `encode`,
--                      `unmarshal_at`, `marshal` and `unmarshal`. Wire/RoundTrip/* has the same tree.
--   Journal/Crc, Journal/Frame
--                      internal/flightrec/journal/frame.go: the checksum, the limits, the framing.
--   Journal/Findings, Journal/Machine
--                      internal/flightrec/journal/scan.go: what a scan reports; the state of `segScan`.
--   Journal/Scanner    `parseHeader`, `frameAt`, `deliver`, `boundary`.
--   Journal/Resync     `findSync`, `candidate`, `resync`.
--   Journal/Segment    `ScanSegment`.
--   Journal/*          the other modules prove: Whole about every scan, RoundTrip and Prefix about
--                      segments as they are written, Room about the limits.
--   Compaction/Types, Compaction/Pruning, Compaction/Groups
--                      internal/compaction/types.go and pruning.go.
--   Compaction/Digest  internal/compaction/digest.go.
--   Compaction/Summary, Compaction/Admission
--                      internal/compaction/admission.go: `findSafeCutoff` and
--                      `applyTier2Summarization`; the token counter and `AdmitOrCompact`. The modules
--                      below them prove.
--
-- The abstract side. State/Core has the part of the projection that carries lineage and an abstract
-- machine on it: an event makes one `Move`, which records evidence or the course of an attempt, and
-- then moves at most one task along one edge. State/Sound is the invariant of that part, State/Machine
-- is about single moves, and State/Refine takes the handlers, `applyPayload` and `Apply` to moves.
-- State/Frame is about the project's identity and accepted commit, State/Index about the ordered id
-- lists, State/Render/Snapshot about what is shown of the tasks, and State/Replay about `Apply` and whole
-- journals. State/Tests and the other Tests modules run the definitions on concrete data.
--
-- Choices of the model:
--   * Messages of errors are left out. An enumeration is a data type of its constants and `unknown s`
--     for any other text `s`.
--   * Go's int and int64 are unbounded integers where the code tests them for a sign. The code only
--     compares them and adds 1 to the length of a list, so no wrap-around is reached.
--   * A `Timestamp` is a natural number of microseconds since Go's zero instant.
--   * A task or an attempt is reached through its map only, so writing through the pointer is a `put`
--     at its key. A listed attempt that is no key would be a nil dereference; the model returns an
--     internal error there.
--   * `Allowed` is modelled before the sort that only fixes the order in which it is shown.
--   * Loops are structural recursions, but for these: `scan` has as much fuel as there are bytes, since
--     a field takes one at least; the loops of a segment scan have fuel for each byte of the segment, and
--     running out is an error of its own, `stuck`.
--   * protowire is a parameter. Its laws say what it documents: what is appended is consumed again, with
--     its length, and a consumed tag takes a byte at least and no more than there are.
--     Wire/Tests/Protowire has an implementation that has them.
--   * An int64 is its bit pattern, an int32 is sign-extended to it. A nil and an empty byte slice are
--     one, except for JSONPayload, where the code tells them apart.
--   * A reader is a function from an offset and a length to bytes or an error. The visitor of a scan is a
--     test, and the scan records the calls that it makes. Offsets stay below 2 ^ 63. The texts of
--     findings are kept without the numbers in them.
--   * In the compaction `int(0.75 * float64(C))` and the like are integer divisions by 100, the test of a
--     reduction by a twentieth is a multiplication, and what `ReserveTokens` computes with floats is
--     given. The artifact store, the model behind a summarizer, the JSON text of a digest and the order in
--     which a map is visited are parameters.
--
-- Not modelled: the rest of ProjectState, JSON and digests of events, storage, the control plane
-- that appends to the journal, the names of segments and the scan of a whole stream, the writer of the
-- flight recorder, setup, the operator, execution policies, the running of agents and processes.
pub mod Prelude
pub mod Bytes
pub mod Errs
pub mod Dict
pub mod Protocol
pub mod Tasks
pub mod Events
pub mod State
pub mod Wire
pub mod Journal
pub mod Compaction
