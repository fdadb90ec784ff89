-- ===== src/Qualification.antt =====
-- tiers/tier_2/leads_orchestrator/qualification/scorer.py: the lead qualification scorer.
pub mod Data
pub mod Input
pub mod Rules
pub mod Decision
pub mod Scorer
pub mod Accounting
pub mod Outcomes
mod Tests
