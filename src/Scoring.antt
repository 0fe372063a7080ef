-- ===== src/Scoring.antt =====
-- validator/scoring: the score formula, the weight vector and the uptime ledger.
pub mod Formula
pub mod Weights
