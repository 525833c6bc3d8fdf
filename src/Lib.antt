-- ===== src/Lib.antt =====
-- The core of agentsdk: what an agent remembers, edits, runs and finds.
--
-- Parts, and the code that they model:
--
-- Tree.antt             conversation/tree.go, conversation/ids.go: the tree of a conversation,
--                       its branches, heads and compaction floors. `append_many` is AppendMany,
--                       `insert_node` InsertNode, `fork` Fork, `move_head` MoveHead, `path` Path.
--   Tree/Chain, Invariant, Paths, Isolation, Reachable: proofs about it.
-- Planner.antt          capabilities/planner/planner.go, ids.go: plans and their steps.
--   Planner/Topo        topoSortSteps, and below it the proofs about the sort.
--   Planner/Replay      replay.go, events.go: the events and applyEventTo.
--   Planner/Actions     actions.go: buildActionEvent, one function for each action.
--   Planner/Apply       actions.go: ApplyActions; capability/events.go: DispatchEvent.
--   Planner/Sourcing, Interrupted, Steps, Removal, Wiping, Valid, Guarded: proofs about them.
-- Thread.antt           thread/event.go, thread/ids.go, thread/store.go: events and branches.
--   Thread/Registry     thread/event_registry.go.
--   Thread/Windows      thread/store.go: EventsForBranch and branchWindows; Rooted and Seen hold
--                       proofs.
--   Thread/Memory       thread/memorystore.go: the store in memory; Thread/Memory/Import is its
--                       Import (Logs holds proofs), and Sequence, Keeping, Reachable, Appending
--                       and Listing hold proofs.
-- Activation.antt       toolactivation/activation.go: the tools that an agent sees.
--   Activation/Marks, Registering: proofs about it.
-- Edit.antt             tools/filesystem/edit_impl.go: the operations of the file_edit tool.
--   Edit/Lines          lines and offsets of a text; Offsets and RoundTrip hold proofs.
--   Edit/Patch          tools/filesystem/tools.go: parseUnifiedDiff and applyUnifiedPatch; below it
--                       Hunks is patchHunkToResolvedEdits.
--   Edit/Resolve        the operations resolved against the text, and edit_content, what fileEdit
--                       does with one text; Patching, Bounds, Matches and Editing hold proofs.
--   Edit/Merge          detectConflicts and applyResolvedEdits; Order and Splices hold proofs.
-- Workflow.antt         workflow/workflow.go: workflows and their steps.
--   Workflow/Order      validateAndOrder; Placing, Checked, Correct, Fuel and Acyclic hold proofs.
--   Workflow/Run        workflow/run.go, workflow/value.go and the event payloads: the projection of a
--                       run; Own and Last hold proofs.
--   Workflow/Host       the executor's types and what it calls.
--   Workflow/Batch      readySteps, and what an outcome makes of the results.
--   Workflow/Execute    Execute, executeSteps, executeStep; Ready, Ending, Timeouts, Plain and
--                       Reported hold proofs.
--   Workflow/Store      workflow/runstore.go; Recorded holds proofs.
-- Trigger.antt          trigger/types.go, trigger/matcher.go: rules, events and matchers.
--   Trigger/Scheduler   trigger/scheduler.go: jobs, their runs and the scheduler; Overlap holds proofs.
-- Resource.antt         resource/identity.go: identities, addresses and references; Resource/Address
--                       holds proofs.
--   Resource/Resolver   resource/index.go, resource/resolver.go; Finding and Precedence hold proofs.
-- Prelude.antt          shared names, tests on numbers, lists, maps, results and texts.
--
-- The planner turns actions into events, hands them to its runtime, which appends them to a
-- thread, and applies the same events to its plan; when a thread is resumed, the events in the log
-- are replayed. The thread store keeps the log; the conversation tree is what a session rebuilds
-- from it. The parts meet in events only, so each is modelled over its own events.
--
-- How the code corresponds: a struct is a record, a method that changes it returns the new record
-- beside its result, and a Go error is a constructor of the part's error type. What a call reads
-- from the host, the random ids, the clock and whether its context is cancelled, is an argument. A
-- mutex makes each call one step. A Go map is an association list (`Dict`), read by its
-- keys, or a function of them; where Go leaves the order of a map open the code sorts or the
-- theorems do not depend on it.
--
-- The executor of workflows emits events, which the run store keeps and the projector of runs turns
-- into states. Actions, the clock and the context act on a world that the host threads through; the
-- steps of a parallel batch run one after the other, each with the results from before the batch, so
-- the interleavings of their events within a batch are not modelled.
--
-- A job of the trigger scheduler is a state with its runs, and whatever its source, its runs and its
-- users do is a sequence of steps, each of which holds the job's lock; any order of them is allowed.
--
-- A text that is edited is a list of bytes, and a line number that is negative stands as 0. The
-- edit part shares no state with the others.
--
-- Bounds and fuel: numbers are unbounded; the only machine integers are the sequence numbers
-- (int64), counts of steps and of lines, which stay below 2 ^ 63 in any run, and the numbers in a
-- hunk header, which Go reads into an int: a patch with larger ones is not modelled as it wraps.
-- `walk` of the tree runs on as much fuel as there are nodes, `kahn` of the planner's sort on as
-- much as there are ids, and `ancestors` of a thread's branches on as many as there are branches;
-- the results say for which states this is enough. The search for an order of the steps of a
-- workflow is as deep as the workflow has steps, and its parallel loop has a round for each. The
-- search for all matches of a text runs on one more than the bytes of the text. An imported log can
-- make a branch its own ancestor: then `ancestors`, like the code's loop, does not end
-- (`branches_in_a_ring` in Thread/Examples).
--
-- Not modelled: the inputs of workflow steps, with their templates, and the check of values against
-- schemas, which stand as functions of the host; the JSON text of events, which stand for
-- themselves or for what they decode to; the copies that keep callers from sharing slices and maps
-- with a store; the parts of the repository that call a language model, the host's files and
-- processes, or the terminal.
pub mod Prelude
pub mod Tree
pub mod Planner
pub mod Thread
pub mod Activation
pub mod Edit
pub mod Workflow
pub mod Trigger
pub mod Resource
