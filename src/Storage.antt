-- ===== src/Storage.antt =====
-- crates/synaptica-storage: key encoding, the multi-version store and the indexes over RocksDB.
pub mod Encoding
pub mod Rocks
pub mod Mvcc
pub mod Index
pub mod FullText
pub mod Oracle
