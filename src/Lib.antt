-- ===== src/Lib.antt =====
-- StratAlign: strategy planning, governance and value tracking. This library models the program's
-- core logic, which lives in the packages of the repository and in services of the backend.
--
-- The parts and how they interact. The strategy package (Strategy) checks the graph of a plan
-- version: objectives, plays and portfolios are nodes, relationship rules say which edges may join
-- them and how many. The identity package (Iam) says who may act: scopes by grants, and no decision
-- by the one who submitted. The machines package (Machines) has two state machines: the approval
-- workflow, which is compiled from a stored definition, and the lifecycle of a benefit, whose
-- approval step waits for an approval case. The governance service (Governance) stores approval cases
-- and moves them with the approval machine in one transaction: the row, the decision log and the
-- outbox of domain events are written together. The scheduler (Scheduler) moves cadence instances
-- through their window milestones and writes one event for each, with several workers on the same
-- table. The rules package (Rules) evaluates the rule documents that gates and statuses are decided
-- by, and its service keeps their versions. The registry of KPIs (Registry) keeps the hierarchy along
-- which KPIs roll up, each edge with a published rule; the store of measurements (Performance) keeps
-- the values of KPIs, corrections beside what they correct. Services announce what they did in the
-- outbox; the relay (Events) moves it onto the queue for the subscribers, and the journal (Audit) is
-- a chain of entries sealed by hashes. The limit on login attempts (Auth) stands alone.
--
-- Files and the code they model:
--   Prelude: shared lists, Boolean tests and case lemmas, over the native numbers.
--   Strategy: packages/domain-strategy/src/index.ts. Types has its types and errors, Rules
--     findRelationshipRule to assertRelationshipCardinality, Cycle hasDirectedCycle, Graph
--     assertAcyclic and validateGraph, States the transitions of node and plan version states.
--   Iam: packages/domain-iam/src/index.ts, createScopePredicate and the separation of duties.
--   Machines: Engine is the interface to xstate, a record of the operations that the code uses with
--     laws for them from its documentation, and one engine that satisfies the laws; Approval is
--     packages/machines/src/approval-workflow.ts; ValueLifecycle is
--     packages/machines/src/value-lifecycle.ts, its proofs in Milestones.
--   Governance: apps/backend/src/modules/governance/governance.service.ts, createCase and transition;
--     Types has the rows and errors, and Accepted, Settled, DefaultMoves, History and Permitted prove
--     what a call does, from one call to all histories of calls. Reference is submitCase and
--     assertApproved; Escalation is governance-escalation.service.ts, with Again about a repeated
--     timer and Rows and Consistent about all histories.
--   Scheduler: apps/backend/src/modules/scheduler/schedule-transition.service.ts, with the rows that
--     cadence-generator.service.ts creates and the cancellation of scheduler.service.ts; Advance is
--     about one call of advance, Workers about any number of workers, whose reads may be out of date.
--   Rules: packages/rules/src, the evaluators of threshold bands and of gate criteria. Aggregation is
--     its aggregation of statuses, Worst about the worst child. Service is
--     apps/backend/src/modules/rules/rules.service.ts: Current has what its tables satisfy, Drafts
--     and Published are about one call, Versions and Histories about calls one after
--     another, Reads about what publish, getPublished and getVersion return.
--   Registry: Hierarchy is apps/backend/src/modules/registry/kpi-hierarchy.service.ts; Descendants is
--     about its recursive query, Acyclic and Written about one call of setRollup, Histories about
--     calls one after another.
--   Performance: Measurements is apps/backend/src/modules/performance/measurement.service.ts, with
--     Clock about its queries as of a time, Effective about the current measurement, Sound and
--     Histories about the tables after one call and after all.
--   Audit: apps/backend/src/modules/audit/journal.service.ts; Canonical is about the order of the
--     members of JSON objects, Chain about append and verifyChain, Tamper about two journals with one
--     last hash.
--   Auth: apps/backend/src/modules/auth/login-rate-limiter.service.ts, with Redis as an interface of
--     its commands; Window is about the attempts of a client in a window.
--   Events: apps/backend/src/events, the registry of subscribers, the relay of the outbox and the
--     dispatcher; Registered is about the registry, Relay about the jobs of the queue. Bus is the
--     writer of the outbox.
--   Tests beside a part: runs of its code on concrete data, and the theorems at concrete inputs.
--
-- Correspondence. Identifiers, texts and JSON values that the code only compares or stores are
-- numbers or a type parameter; instants are milliseconds. A thrown error is a constructor of a result
-- type. A transaction is a function from tables to tables, which leaves them alone when it throws. A
-- table is a function from keys to rows, or the list of its rows where queries order or select them;
-- the outbox is a list, into which an event with a known dedupe key is not written again. An
-- identifier or a time that the database or the clock gives is an argument. A Map or Set that a
-- function builds is a list with the same lookups, or a function. The dispatch queue tests a new job
-- against the jobs that it still remembers, and those that it has taken are listed beside; the limit on
-- logins counts in seconds.
--
-- Bounds and fuel. The depth-first search of hasDirectedCycle recurses on fuel, one more than the
-- number of nodes: each nested call adds a node to the nodes being visited, so it never runs out. The
-- rounds of the recursive query for the descendants of a KPI take fuel, one more than the number of
-- edges: each round but the last adds a child of an edge. The loop of advance has the bound 8 of the
-- source, which the four milestones never exhaust. Numbers have no machine width here, since the
-- code compares and counts with them, far below 2 ^ 53; only the deadline of a case is checked against
-- the 32 bits of its column.
--
-- Parameters: the state machine library (xstate), the schema checks of stored definitions and of rule
-- documents (zod), Redis, floating point numbers, the rules service where governance calls it,
-- SHA-256, JSON.stringify, localeCompare, toString and toISOString, the column of JSON values, which
-- may reorder the members of objects, which texts are blank and which keys are those of users for the
-- constraints of the table of cases, and of the queue whether a call fails and what it remembers. The database runs a transaction whole or not at
-- all. Calls that take a lock run one after another. The scheduler takes none, and its statements
-- interleave in the model. The services of rules and of the hierarchy take none either: the definitions
-- of setRollup and createDraft take the table of each statement, the theorems on histories of these
-- services are about calls one after another, and tests run two calls at once.
--
-- Not modelled: the user interface, the API routers, the database schema, queues, notifications,
-- integrations, the rest of authentication, and language model services, which are input and output;
-- the services for values, scorecards, statuses and rollups of KPIs, and the versions of KPI
-- definitions; snapshots of audited entities; the rule evaluators for rollups and variance alerts; of
-- the measurements the listing of a chain of corrections; in the governance service the default
-- definition's insert and the reads for display; in the scheduler the planning of occurrences.
pub mod Prelude
pub mod Strategy
pub mod Iam
pub mod Auth
pub mod Machines
pub mod Audit
pub mod Governance
pub mod Scheduler
pub mod Events
pub mod Rules
pub mod Registry
pub mod Performance
