-- ===== src/Tx.antt =====
-- crates/synaptica-tx: transactions over the multi-version store.
pub mod Transaction
pub mod Manager
