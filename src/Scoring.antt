-- ===== src/Scoring.antt =====
-- classifier/scoring/session.py: one risk and evidence summary from the matched rules.
mod Tests
pub mod Risk
pub mod Vote
pub mod Status
pub mod Tags
pub mod Stage
pub mod Advice
pub mod Summary
