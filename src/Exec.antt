-- ===== src/Exec.antt =====
-- crates/synaptica-exec: the evaluation of expressions.
pub mod Record
pub mod Arithmetic
pub mod Durations
pub mod Functions
pub mod Expression
