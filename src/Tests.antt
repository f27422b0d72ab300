-- ===== src/Tests.antt =====
-- Runs of the operations on concrete inputs, and the theorems at them.
mod Data
mod Clients
mod Store
mod Graphs
mod Sizes
mod Uris
mod Backends
mod Small
mod Tasks
mod Tools
mod Retries
mod Runs
