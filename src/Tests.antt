-- ===== src/Tests.antt =====
-- Concrete inputs on which the theorems about the program are applied.
mod Fixtures
mod Decisions
mod Rollups
mod Logs
mod Buffers
mod Processors
mod Servers
mod Nodes
mod Recoveries
mod Clusters
mod Peers
mod Loads
