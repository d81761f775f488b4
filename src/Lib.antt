-- ===== src/Lib.antt =====
-- The workforce platform: tasks of an organization, handed from person to person, and proposals of
-- changes to business systems that two people must agree to before a worker carries them out.
--
-- The program keeps everything in one PostgreSQL database. Each operation of internal/store is a
-- transaction: WithOrg opens it, takes the organization's advisory lock, and commits or rolls back.
-- Here a database is a record of tables (Schema), a table a list of rows (Base/Rows), and a
-- transaction a function that returns an error, or a result and the next database (Tx). An error
-- leaves the database as it was (`with_org`), and the lock makes transactions of one organization run
-- one after the other, so a history is a sequence of steps. The database is one organization's rows:
-- the code filters them by org_id, and that column is left out. Sessions has tables of its own, which
-- no organization owns.
--
-- Files:
--   Base        lists as tables, Boolean tests on the native numbers, integers
--   Schema      the rows of the tables, JSON values, the database; Errors the errors of the code
--   Tx          transactions and their composition (WithOrg in internal/store/store.go), and in
--               Tx/Ensures the rules for what a committed transaction leaves
--   Handoffs    createHandoff, AcceptHandoff, DeclineHandoff, ClarifyHandoff, CancelHandoff,
--               recipientResolve and expireDueHandoffs in internal/store/store.go, ListHandoffs and
--               PeekHandoff in internal/store/handoffs.go
--   Graph       the recursive query of AddDependency over the table of dependencies
--   Tasks       CreateProject, ListProjects, CreateTask, GetTask, ListTasks, AddDependency and
--               CancelTask in internal/store/store.go
--   Connectors  internal/connectors/connectors.go: payloads, manifests, the three simulator
--               connectors and the registry
--   BusinessOperations
--               internal/store/business_operations.go: one row per official operation of a business
--   Proposals   createProposalTx, CreateProposal, ListProposals and GetProposal
--   Decisions   Decide and ListDecisions
--   Execution   applyProposal, executeProposal and enqueueEligibleChildren, the worker's side; the
--               loop over the effects of a proposal is in Execution/Effects
--   Gates       internal/store/gates.go: Gates/Schemas the schemas of questions and the tests of
--               answers, Gates reading and resolving, Gates/Answering and Gates/Resuming
--               an answer up to the next attempt
--   AgentRuns   the transactions of ExecuteAgentRun in internal/store/agent_runs.go: claims under a
--               lease, and the writes that the token of a claim guards; AgentRuns/Executing the
--               sequence of them, AgentRuns/Admission CreateAgentRun
--   Recovery    internal/store/recovery.go: the cursor over the organizations, and reclaimInOrg;
--               Recovery/Stranded which runs are stranded, Recovery/Picking the query that picks them
--   Sessions    internal/store/sessions.go: login transactions and browser sessions; in Sessions/Reading
--               the three queries of ReadSession, with other transactions between them
--   Identities  internal/store/identity_admin.go: accounts linked to principals, with their audit;
--               Identities/External internal/store/oidc_identity.go and identity.go,
--               Identities/Bootstrap the first administrator of an organization
--   Principals  requireActivePrincipal in internal/store/organization.go
--   Organization
--               the rest of internal/store/organization.go: positions, and who reports to whom when
--               (Organization/Management on cycles, Organization/Periods on what was in effect)
--   Milestones  internal/store/milestones.go
--   Registry    internal/registry/registry.go and internal/store/registry.go: the lifecycle of releases
--               and what they are granted (Registry/Promise states it, Registry/Lifecycle shows it)
--   Agents      internal/store/agents.go and templates.go, and in Agents/Ceiling capabilities.go: what
--               agents declare and what releases permit
--   Runners     internal/runner/runner.go and the configuration in internal/runner/cli.go, with
--               splitList and splitWords in Runners/Words
--   Boards      internal/store/workboard.go and agentboard.go
--   Tokens      internal/platform/tokens.go: code verifiers, and where a login leads
--   Simulator   internal/runner/simulator.go, the runner that every process has
--   Config      internal/platform/config.go, with NewOIDCVerifier and checkIssuerScheme in
--               internal/platform/oidc.go
--   Strings     what these use of Go's package strings, on lists of code points
--   Governance  histories of the transactions that touch proposals
--   Tests       runs of the definitions, and the theorems at concrete inputs
--
-- Identifiers and texts that the code only compares are numbers, 0 for the empty text; texts whose
-- characters it reads are lists of code points, and integration and action names, which select a
-- connector, are native strings. A clock reading is an argument, and so are the
-- identifiers that platform.NewID and gen_random_uuid return, as functions from a counter. SHA-256
-- (`digest`, `operationFingerprint`) and the search of a run's identifier in a business key are
-- parameters, of which nothing is assumed. The versions and revisions are bigint columns that grow by
-- one with an update, and no overflow of them is modelled; the quantity of the inventory connector
-- is an int64 whose bounds the code checks, and they are checked here. The recursive query runs on
-- fuel, two more than the number of dependencies, since each round but the last lists a new parent;
-- the walk up the management chain ends at the depth of 64 that the query sets itself; the
-- sweeps run on one more than the number of organizations.
--
-- Not modelled: the HTTP server with its OAuth client, and the processes that a runner starts; events,
-- but for those of Identities, since the operations only append to them; connections and the
-- migrations, except for the constraints that an operation relies on.
pub mod Base
pub mod Schema
pub mod Errors
pub mod Tx
pub mod Handoffs
pub mod Graph
pub mod Tasks
mod Tests
pub mod Connectors
pub mod BusinessOperations
pub mod Proposals
pub mod Decisions
pub mod Execution
pub mod Governance
pub mod Gates
pub mod AgentRuns
pub mod Recovery
pub mod Sessions
pub mod Strings
pub mod Milestones
pub mod Identities
pub mod Registry
pub mod Agents
pub mod Runners
pub mod Organization
pub mod Principals
pub mod Tokens
pub mod Boards
pub mod Simulator
pub mod Config
