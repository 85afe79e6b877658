-- ===== src/Lib.antt =====
-- Synaptica is a graph database: a GQL front end, a planner and an executor over a property graph
-- that is stored in RocksDB, with multi-version keys, optimistic transactions and a cluster layer.
-- This library models the parts that decide what is stored, what a reader sees, and what a
-- distributed decision means; each definition follows the Rust source.
--
-- Prelude: tests on numbers, lists, byte strings and their order, big-endian words, `Result`, and
-- association lists for `HashMap`; integers with the range of `i64` and `i32`, decimal digits.
-- Core.Graph, Core.Nodes: the identifiers, labels, nodes and edges of
-- crates/synaptica-core/src/graph.rs.
-- Storage.Encoding: crates/synaptica-storage/src/encoding.rs. `encode_uuid` and `encode_label` extend
-- a buffer that is passed in and handed back; the key functions have the source's names.
-- Storage.Rocks: what the storage crate uses of RocksDB, as a record of operations with the documented
-- behaviour as laws: a column family is a map ordered by bytes, `iterator_from` lists it from a key
-- on, a batch is applied in order. Storage.Rocks.Memory is an instance, on which the tests run.
-- Storage.Oracle, Storage.Mvcc: crates/synaptica-storage/src/mvcc.rs, the timestamp counter and the
-- versioned store: `put_at`, `delete_at`, `get_at`, `prefix_scan_at`, `batch_write_at`,
-- `batch_put_at`, `gc_before`. The loops over an iterator are recursions on the list of its items.
-- Storage.Index: crates/synaptica-storage/src/index.rs, property indexes over the same interface; the
-- encoding of values is Storage.Index.Comparable. A call that only deletes one key is a batch of one
-- deletion.
-- Storage.FullText: crates/synaptica-storage/src/fulltext.rs, the inverted index of texts.
-- Tx.Transaction, Tx.Manager: crates/synaptica-tx/src/transaction.rs, mvcc.rs and conflict.rs. The
-- database and the counter, which the source shares by `Arc`, are in the manager's state, and every
-- operation hands back the state it leaves. `commit` is a whole call, and a `Run` a sequence of whole
-- calls. `begin`, `snapshot` and the reads take no lock, so that they can run inside a commit:
-- Tx.Manager.Threads has the accesses of the calls as moves of a `System`, which says where the thread
-- with the write lock stands, and Tx.Manager.Threads.Alone relates the two views. A read of the store
-- is one access, since an iterator of RocksDB shows one state.
-- Cluster.Partitions: crates/synaptica-cluster/src/partition.rs and routing.rs.
-- Cluster.DecisionLog, Cluster.TwoPhase: crates/synaptica-cluster/src/distributed_tx.rs. The
-- participants are a record of operations with a state, without laws.
-- Cluster.Membership: crates/synaptica-cluster/src/membership.rs, rebalance.rs and snapshot.rs; the
-- time of a call is an argument.
-- Gql.Token, Gql.Lexer: crates/synaptica-gql/src/lexer.rs. The lexer keeps the input from its position
-- on; a routine returns the token and the lexer behind it. A float literal keeps its text.
-- Gql.Ast: crates/synaptica-gql/src/ast.rs. Gql.Semantic: crates/synaptica-gql/src/semantic.rs, the
-- analyzer of scopes. Gql.Planner: crates/synaptica-gql/src/planner.rs, with the statements in
-- Gql.Planner.Insertions (`MATCH`, `INSERT`) and Gql.Planner.Statements. Gql.Optimizer, Gql.Catalog:
-- crates/synaptica-gql/src/optimizer.rs and catalog.rs.
-- Core.Values: crates/synaptica-core/src/types.rs. `Scalars` is what the code takes from elsewhere:
-- `f64`, chrono's dates and times, Unicode's lower case and white space, and whether the build checks
-- integer overflow.
-- Exec.Record: crates/synaptica-exec/src/result.rs. Exec.Arithmetic, Exec.Durations, Exec.Functions
-- and Exec.Expression: crates/synaptica-exec/src/expression.rs, from the operators to `evaluate`. An
-- outcome is a value, an `ExecError` or a panic; the message of a form that is not evaluated names the
-- form, where the source prints its discriminant.
--
-- Bounds: a 64-bit counter wraps around at 2 ^ 64, written out where it is advanced; theorems that
-- need it not to wrap say so. `length` and `take` count bytes. `decimal_from` has fuel for the 20
-- digits of a 64-bit number; `tokenize` has fuel for one token a character and the last one, and
-- Gql.Lexer.Total shows that this is enough.
--
-- Not modelled: the parser and the executor, the table layout of a result set, the storage engine, the
-- Raft log and network, the servers and the command line; the file behind the decision log; threads
-- within a call, but for the transactions.
pub mod Prelude
pub mod Core
pub mod Storage
pub mod Tx
pub mod Cluster
pub mod Gql
pub mod Exec
