-- ===== src/Compat.antt =====
-- backend/app/services/compatibility_rules.py, strategy.py and analyzer.py.
pub mod Rules
pub mod Aggregate
pub mod Grading
pub mod Analyzer
pub mod Bands
