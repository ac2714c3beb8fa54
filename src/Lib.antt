-- ===== src/Lib.antt =====
-- Verification of the Craftec core crates: random linear network coding of segments, with
-- homomorphic hashes of the pieces; the settlement of storage receipts, from their collection to the
-- transactions of an epoch; the messages between nodes; and the sandbox of agents.
--
-- The parts and how they interact. A file is cut into segments; each segment becomes k source
-- pieces; `RlncEncoder` adds random combinations of them over GF(2^8); peers make more combinations
-- from the pieces that they hold (`create_piece_from_existing`), and check the pieces that they
-- receive against the hashes of the source pieces (`verify_piece`); `RlncDecoder` solves for the
-- source pieces by Gaussian elimination; `segment_and_encode` and `decode_and_reassemble` do this for
-- all the segments. Contributions are paid from pools less a fee (`calculate_proportional_payout`), by
-- weights that a distribution proof commits to as a Merkle root. Nodes exchange frames on byte streams
-- (`write_raw_frame`, `read_raw_frame`) and the peers that they know (`PexManager`). The aggregator
-- collects signed receipts for an epoch (`ReceiptCollector::ingest`), proves the weights of each pool
-- (`BatchBuilder::build`) and builds the transactions that post them (`process_epoch_end`). Agents run
-- in a sandbox, and reach their database and the store by host functions that check their
-- capabilities. Local programs send requests to the handlers of a router (`NamespacedHandler`).
--
--   Prelude            tests, lists over the native numbers, and bytes; no code of its own
--   Gf256              crates/erasure/src/gf256.rs: `TABLES`, `add`, `sub`, `mul`, `mul_table`, `inv`
--   Linear             the row loops of crates/erasure/src/lib.rs, and scalar products
--   Erasure.Config     `ErasureConfig`, `ErasureError`, `CodedPiece`
--   Erasure.Encoder    `RlncEncoder` and `create_piece_from_existing`
--   Erasure.Decoder    `RlncDecoder`; its child modules follow the elimination round by round
--   Erasure.Roundtrip  the encoder and the decoder together
--   Erasure.Homomorphic  crates/erasure/src/homomorphic.rs
--   Erasure.Segmenter  crates/erasure/src/segmenter.rs
--   Settlement.Fee     crates/settlement/src/fee.rs
--   Settlement.Accounts  crates/settlement/src/accounts.rs
--   Settlement.Pda     crates/settlement/src/pda.rs
--   Settlement.Instruction  crates/settlement/src/instruction.rs
--   Prover.Types       crates/prover-guest-types/src/lib.rs: `DistributionOutput`
--   Prover.Merkle      crates/prover/src/merkle.rs
--   Prover.Aggregate   crates/prover/src/lib.rs: `aggregate_receipts`
--   Prover.Client      crates/prover/src/lib.rs: the mock `ProverClient` and the guest's logic
--   Prover.Program     crates/distribution-guest/src/main.rs
--   Network.Wire       crates/network/src/wire.rs
--   Network.Pex        crates/network/src/pex.rs: `PexManager`
--   Aggregator.Collector  crates/aggregator/src/collector.rs: `ReceiptCollector`
--   Aggregator.Batch   crates/aggregator/src/batch.rs, and the transactions of poster.rs beside it
--   Aggregator.Service  crates/aggregator/src/service.rs: epoch by epoch
--   Network.PexWire    crates/network/src/pex_wire.rs
--   Identity.Did       crates/identity/src/did.rs
--   Ipc.Router         crates/ipc/src/namespace.rs, and the messages and answers of protocol.rs and
--                      server.rs beside it
--   Agent.Words        words, slices and texts, as crates/agent-runtime/src/host_fns.rs uses them
--   Agent.Permissions  crates/agent-runtime/src/permissions.rs
--   Agent.Store        `AgentStore` and `MemoryStore` of crates/agent-runtime/src/host_fns.rs
--   Agent.State        `HostState` of crates/agent-runtime/src/host_fns.rs, and how calls return
--   Agent.HostFns      the host functions of crates/agent-runtime/src/host_fns.rs
--   Agent.Lifecycle    crates/agent-runtime/src/lifecycle.rs: what is linked, and `AgentRegistry`
--   Agent.Sandbox      crates/agent-runtime/src/sandbox.rs: the memory limit
--   Maps               maps as lists of entries; no code of its own
--   Tests              inputs at which the theorems apply
--
-- A `u8` is a number below 256 with its bound (`Byte`). A `usize` is a natural number: sizes near
-- 2^64 are outside the model; the number of segments is a `u32`, below 2^32. A `Result` that may
-- also panic is an `Outcome`; an index out of range is a panic. A random generator is the
-- list of bytes that it will return, and `none` means that the list is too short; the theorems say
-- how many bytes are enough. blake3 is a parameter, of which
-- only the length of its digests is used, and so is SHA-256. Amounts of 64 bits are numbers, with the
-- saturating products written out; a plain sum that overflows is a panic, as in a debug build. The
-- peers and addresses of libp2p are type parameters, and the clock is an argument. bincode, JSON,
-- bs58, ed25519, SQLite and the file system are parameters too, as records of functions.
--
-- Loops are recursions on the list or on the number of rounds left, so no fuel is chosen: the
-- elimination runs k rounds of k rows, and the projection loop runs one round for each 32 bytes. The
-- search of a power of two and the rounds of the Merkle tree have as much fuel as the number that
-- they start from or the number of nodes, which is more than its logarithm.
--
-- Not modelled: the texts of errors, capacities and the parallel iterator; the orthogonal coefficient
-- vectors of crates/erasure/src/lib.rs, the SP1 client, bincode, the
-- submitters and the asynchronous loops of crates/aggregator, Wasmtime and the SQL of
-- crates/agent-runtime, the documents of crates/identity, and the rest of crates/network; and the
-- crates that wrap third-party code or do only input and output (crypto, keystore, app, core, settings,
-- logging, and the sockets of ipc).
pub mod Prelude
pub mod Gf256
pub mod Maps
pub mod Linear
pub mod Erasure
pub mod Settlement
pub mod Prover
pub mod Network
pub mod Aggregator
pub mod Agent
pub mod Identity
pub mod Ipc
mod Tests
