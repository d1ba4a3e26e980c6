-- ===== src/Fallback.antt =====
-- core/fallback: the failure classifier, the transport strategies, the memory of what worked, and
-- the machine that walks the candidates.
pub mod Classify
pub mod Strategy
pub mod LastGood
pub mod Machine
