-- ===== src/Aggregator/Batch.antt =====
-- crates/aggregator/src/batch.rs, and the transactions of crates/aggregator/src/poster.rs; the texts
-- that describe a transaction in the log are left out. SHA-256 and bincode are parameters.
pub mod Laws
use craftec_core.Aggregator.Collector.{AggregatorError, prover, empty_batch}
use craftec_core.Prover.Aggregate.{Receipt, Attempt, done, failed, panicked, add_weight}
use craftec_core.Prover.Client.{BatchProof, sum_weights, prove_batch}
use craftec_core.Prover.Types.{range}
use craftec_core.Settlement.Accounts.{StorageReceipt}
use craftec_core.Settlement.Instruction.{Bincode, post_distribution, claim_payout}
use craftec_core.Prelude.{
  ℕ, ◌+◌, ◌%◌, leb, if◌then◌else◌, Option, none, some, and_then, List, [], ◌∷◌, map, replicate,
  length, take, Byte, zero_byte,
}

pub record PoolBatch : Type 0 where
  pub pool_pubkey : List Byte
  pub weights : List (List Byte × ℕ)
  pub receipt_count : ℕ
  pub total_weight : ℕ
  pub proof : BatchProof

-- What a call returns when it does not panic: a value or an error.
pub data Fallible (A : Type 0) : Type 0 where
  ok : A → Fallible A
  err : AggregatorError → Fallible A

-- The methods of `ContributionReceipt` for a `StorageReceipt`.
abbrev pub as_receipt : StorageReceipt → Receipt
as_receipt r = record { operator = r.storage_node; weight = 1; timestamp = r.timestamp }

-- The weights of the loop over the receipts.
unfoldable pub weigh_operators :
    List StorageReceipt → List (List Byte × ℕ) → Option (List (List Byte × ℕ))
weigh_operators [] weights = some weights
weigh_operators (r ∷ receipts) weights =
    and_then (add_weight (as_receipt r).operator (as_receipt r).weight weights)
      (λ next. weigh_operators receipts next)

-- The batch of a proof; an error of the prover is passed on.
abbrev pub batch_of :
    List Byte → List (List Byte × ℕ) → ℕ → ℕ → Attempt BatchProof → Option (Fallible PoolBatch)
batch_of pool weights count total (done proof) = some (
    ok (record {
      pool_pubkey = pool;
      weights = weights;
      receipt_count = count;
      total_weight = total;
      proof = proof;
    }))
batch_of pool weights count total (failed e) = some (err (prover e))
batch_of pool weights count total panicked = none

-- `BatchBuilder::build`; `none` is a panic.
unfoldable pub build_batch :
    (List Byte → List Byte) → List Byte → List StorageReceipt → Option (Fallible PoolBatch)
build_batch sha256 pool [] = some (err empty_batch)
build_batch sha256 pool (r ∷ rest) = and_then (weigh_operators (r ∷ rest) []) (λ weights.
    and_then (sum_weights 0 weights) (λ total.
      batch_of pool weights (length (r ∷ rest)) total
        (prove_batch sha256 (map as_receipt (r ∷ rest)) pool)))

pub record BuiltTransaction : Type 0 where
  pub instruction_data : List Byte
  pub pool_pubkey : List Byte
  pub weights : List (List Byte × ℕ)

-- The root at the start of the public inputs.
abbrev pub posted_root : List Byte → List Byte
posted_root inputs = if leb 32 (length inputs) then take 32 inputs else replicate 32 zero_byte

module _ (bincode : Bincode) where
  -- `DistributionPoster::build_post_distribution`
  abbrev pub build_post_distribution : PoolBatch → BuiltTransaction
  build_post_distribution batch = record {
    instruction_data =
        post_distribution bincode batch.pool_pubkey (posted_root batch.proof.public_inputs)
          batch.total_weight batch.proof.proof_bytes batch.proof.public_inputs;
    pool_pubkey = batch.pool_pubkey;
    weights = batch.weights;
  }

  abbrev pub build_claim : List Byte → ℕ → List Byte × ℕ → BuiltTransaction
  build_claim pool i entry = record {
    instruction_data = claim_payout bincode pool entry.0 entry.1 [] (i % 4294967296);
    pool_pubkey = pool;
    weights = [];
  }

  unfoldable pub build_claims_from : List Byte → ℕ → List (List Byte × ℕ) → List BuiltTransaction
  build_claims_from pool i [] = []
  build_claims_from pool i (entry ∷ weights) =
      build_claim pool i entry ∷ build_claims_from pool (i + 1) weights

  -- `DistributionPoster::build_claims`
  abbrev pub build_claims : PoolBatch → List BuiltTransaction
  build_claims batch = build_claims_from batch.pool_pubkey 0 batch.weights
