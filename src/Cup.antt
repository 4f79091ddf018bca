-- ===== src/Cup.antt =====
-- search_cup/: the closed-book competition of search agents.
pub mod Error
pub mod Contracts
pub mod Documents
pub mod Competition
pub mod Tools
pub mod Runner
pub mod Registry
pub mod Judge
pub mod Scorecard
pub mod Scores
mod Tests
