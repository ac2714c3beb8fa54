-- ===== src/Tests.antt =====
-- The theorems at concrete inputs, and runs of the code.
mod Erasure
mod Segmenter
mod Settlement
mod Accounts
mod Aggregator
mod Agent
mod Identity
mod Ipc
mod Prover
mod Client
mod Network
mod Pex
