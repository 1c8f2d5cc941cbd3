-- ===== src/Work.antt =====
-- The work components of the runtime (src/long_haul/work/).
pub mod Scope
pub mod Contracts
pub mod Evaluation
pub mod Evaluator
pub mod Progress
pub mod Checkpoints
