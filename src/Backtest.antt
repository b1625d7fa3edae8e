-- ===== src/Backtest.antt =====
-- app/backtest: the replay of recorded transactions against a candidate policy.
pub mod Json
pub mod Evaluator
pub mod Candidate
pub mod Verdicts
pub mod Reporting
