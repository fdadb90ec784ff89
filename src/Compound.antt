-- ===== src/Compound.antt =====
-- tiers/tier_3/persistence_agent/compound_handler.py, with its schemas in core/schemas/persistence.py: an
-- ordered list of steps on tables, where later steps refer to the outputs of earlier ones, with conditions
-- and a rollback. The adapter is a parameter, a record of what its methods do to a world.
pub mod References
pub mod Conditions
pub mod Data
pub mod Execution
pub mod Whole
pub mod Builders
pub mod Injected
pub mod Shape
pub mod Lookup
pub mod Rollback
pub mod Undoing
pub mod Accounts
pub mod Accounting
pub mod Uncaught
mod Tests
