-- ===== src/Eval.antt =====
-- eval/: the golden set, the citations and the scores of an evaluation.
pub mod Golden
pub mod Scoring
pub mod Full
mod Tests
