-- ===== src/Lib.antt =====
-- Masterplan drives long-running work of coding agents through a run bundle on disk: a state file
-- state.yml, an event log and a plan index. The program is a command line tool (bin/masterplan.mjs)
-- over pure cores under lib/. This library models those cores.
--
-- The parts, and how they interact:
--   * Bundle (lib/bundle.mjs, and the verbs mark-task and waive-task of bin/masterplan.mjs): the state
--     and the transforms of it. Bundle.State has the record, Ids the task ids and their coercion,
--     Seed buildSeedState, Setters the field setters, Tasks markTask and the two verbs, Plan
--     loadPlanTasks, applyPlanIndex, buildTasksFromPlanIndex and upsertTasks, Rebasing rebasePaths,
--     Capability the goals capability that the event log proves. Reasons and History are about
--     sequences of verbs, Upsert and Amended about upsertTasks.
--   * Resume (lib/resume.mjs): decideNextAction, which reads the state and one liveness probe and says
--     what the run does next, and classifyLegacyMarker in Legacy. Driven and Recovered put it in turn
--     with markTask and the active run, Running and Reconciled are about the decision over a run
--     marker and its class.
--   * Wave (lib/wave.mjs): prepareWave, which turns the decision to dispatch into payloads with
--     disjoint files, and verifyScope, which checks what the agents touched.
--   * PlanIndex (lib/plan-merge.mjs): normalizeCodex and validatePlanIndex in Validation, and of
--     mergePlanFragments the assembly of nodes in Nodes, topoOrder in Order, the wave layering in
--     Layers, and the whole in Merge. Complete and Acyclic are about when an order is found,
--     Validated about the validator on a merged index.
--   * Owner (lib/owner.mjs, lib/owner-fs.mjs): the lock by which one session owns a bundle. Interleaved
--     has the calls of several sessions as a relation, one call within another.
--   * Handoff (lib/fabric-idempotency.mjs): the key of a dispatched item and when its result is reused.
--   * Refs (lib/refs.mjs): references between the bundles of two runs.
--   * Qctl (lib/qctl-*.mjs): what the run makes of a result of the qctl queue.
--   * Github (lib/github-coord.mjs, and the verbs set-coord, update-issue-map and coord-status of
--     bin/masterplan.mjs): the coordination of a run over issues. Issues has the body of an issue and
--     its metadata, Integration the claims and the reconciliation, whose marks go to mark-task in
--     WriteBack, Verbs the verbs that write the coordination of the state.
--   * Interview (lib/interview.mjs, and the load gate of lib/goals.mjs): the interview that settles the
--     intent of a run. Events has the lines of the event log, Ledger, Tables and Replay replayInterview,
--     Standing what it derives at the end, Verbs, Critic, Coverage, Judging and Ending the verbs, Gate the
--     gate. Each verb ends in append_event of Log, which is appendEvent of lib/bundle.mjs with the schemas
--     of these events. Accepted and Reached are about all logs that the verbs write.
--   * Promotion (lib/promote.mjs): the application of an amendment's diff to a document, in memory.
--   * Amend (lib/amend.mjs): the amendments section of a plan. Writer has amendPlan, Placed says where
--     the entry goes.
-- Common has what they share, and Samples concrete runs.
--
-- Conventions. A function keeps its name in snake_case, an option that the code destructures is an
-- argument, an error that it throws is a value of `Result`. A string is the list of its code units. A
-- property that may be absent or null is an `Option`; one whose values the code tells apart is a
-- data type with a constructor for any other string. Numbers of waves and times are natural; ages
-- are compared without a subtraction. Environment effects between two file-system calls are the
-- argument `peer` of the owner lock's operations.
--
-- Bounds. acquire_owner makes the six attempts of the source. show_nat has fuel n + 1, which is at
-- least the number of digits of n. bump, the loop that looks for a free wave, has as fuel one more
-- than the number of placed nodes, each of which can clash in one wave only. kahn has one more than
-- the number of nodes, each of which it takes once, so a list that is too short means a cycle and
-- never a lack of fuel (topo_order_iff). All other recursion is structural.
--
-- Not modelled: parsing and printing of YAML, JSON and HTML (`JSON.parse` and `JSON.stringify` are
-- arguments of the functions that read and write issues), the calls of gh, git and the file system
-- beyond the owner lock, sha256, the optional qctl and hash fields of a payload, negative waves, file
-- names that are no strings; the loss of digits when coerceId reads a number beyond 2^53; a reason of
-- a task that is present with the value null, which the prune of upsertTasks takes for one that is
-- there; and the gap between the last check and the rename of stealBreak, which the model makes one
-- step, so that a call which passed that check before a session acquired the lock, and renames after
-- it, is not covered. The schemas of the events that end or waive an interview, or record a receipt,
-- are met by what their verbs compute. The parts of lib/ that no line above names are not modelled.
pub mod Common
pub mod Bundle
pub mod Resume
pub mod Wave
pub mod Owner
pub mod PlanIndex
pub mod Refs
pub mod Handoff
pub mod Qctl
pub mod Github
pub mod Promotion
pub mod Amend
pub mod Interview
pub mod Samples
