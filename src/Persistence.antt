-- ===== src/Persistence.antt =====
-- services/persistence: the rows of tables, an adapter that keeps them in memory, and the service that
-- guards an adapter. Names of tables and columns are texts; a number is an integer.
pub mod Value
pub mod Memory
pub mod Wildcards
pub mod Ids
pub mod Metrics
pub mod Service
pub mod Relaying
pub mod Requests
pub mod Guarding
pub mod Facade
mod Tests
