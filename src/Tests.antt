-- ===== src/Tests.antt =====
-- The theorems at concrete inputs, and runs of the definitions.
mod Samples
mod Handoffs
mod Tasks
mod Connectors
mod Governance
mod Gates
mod AgentRuns
mod Recovery
mod Sessions
mod Milestones
mod Organization
mod Boards
mod Config
mod Simulator
mod Tokens
mod Identities
mod Agents
