-- ===== src/Chain.antt =====
-- What the contracts take from the chain that runs them: assets, tables, and actions that abort.
pub mod Table
pub mod Asset
pub mod Action
pub mod Keeps
pub mod Avoids
