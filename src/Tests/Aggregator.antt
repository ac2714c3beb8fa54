-- ===== src/Tests/Aggregator.antt =====
-- Inputs for the theorems on crates/aggregator.
use craftec_core.Aggregator.Batch.{
  PoolBatch, ok, BuiltTransaction, as_receipt, build_batch, posted_root,
}
use craftec_core.Aggregator.Batch.Laws.{build_batch-verify_batch}
use craftec_core.Aggregator.Collector.{
  Externals, ReceiptCollector, new, register_pool, receipt_count, accept, push_receipt,
}
use craftec_core.Aggregator.Collector.Cases.{IsAcceptedBy, IsRefusedBy, ingest-cases}
use craftec_core.Aggregator.Collector.Counts.{total_where}
use craftec_core.Aggregator.Collector.Drain.{drain_channel-count}
use craftec_core.Aggregator.Collector.Files.{pool_prefix, log_suffix, load_persisted}
use craftec_core.Aggregator.Collector.Ingest.{
  Ingested, ingest, ingest_before, verify_receipt_signature, drain_channel,
}
use craftec_core.Aggregator.Collector.Invariant.{
  Reachable, start, next_call, registered, ingested, has_hash, IsVerified, occurrences-Reachable,
  IsVerified-Reachable,
}
use craftec_core.Aggregator.Collector.Reload.{load_persisted-filename}
use craftec_core.Aggregator.Service.{
  AggregatorConfig, AggregatorService, process_epoch_end, new_service,
}
use craftec_core.Aggregator.Service.Pools.{owed, paid}
use craftec_core.Aggregator.Service.Laws.{IsNextEpoch, process_epoch_end-paid}
use craftec_core.Aggregator.Service.Window.{IsWindow, new_service-IsWindow}
use craftec_core.Maps.{get, insert}
use craftec_core.Prover.Aggregate.{check_receipt}
use craftec_core.Prover.Aggregate.Laws.{entry_weight, receipt_weight}
use craftec_core.Prover.Client.{verify_batch}
use craftec_core.Prover.Types.{DistributionOutput}
use craftec_core.Settlement.Accounts.{StorageReceipt, dedup_hash, signable_bytes, dedup_message}
use craftec_core.Settlement.Instruction.{Bincode}
use craftec_core.Prover.Aggregate as Aggregate
use craftec_core.Prelude.{
  ℕ, ◌+◌, ◌≤◌, Bool, true, false, none, some, List, [], ◌∷◌, ◌++◌, replicate, take, map, length,
  length-take, length-append, length-replicate, Byte, u8, zero_byte, key_eq, arith, ◌≡◌, ◌⊎◌, refl,
  ap,
}

abbrev key : ℕ → List Byte
key n = replicate 32 (u8 n)

-- A receipt of node 2 for content 1, challenged by node 3.
abbrev receipt : StorageReceipt
receipt = record {
  content_id = key 1;
  storage_node = key 2;
  challenger = key 3;
  shard_index = 4;
  timestamp = 4000;
  nonce = key 5;
  proof_hash = key 6;
  signature = replicate 64 (u8 7);
}

-- The start of a message, as its digest.
abbrev digest_of : List Byte → List Byte
digest_of m = take 32 (m ++ replicate 32 zero_byte)

length-digest_of : (m : List Byte) → length (digest_of m) ≡ 32
length-digest_of m = omega (
  arith,
  length-take 32 (m ++ replicate 32 zero_byte),
  length-append m (replicate 32 zero_byte),
  length-replicate 32 zero_byte,
)

-- A file system that counts the bytes written, with one file of receipts in every directory; every
-- message is the receipt, and every signature is good.
abbrev lib : Externals ℕ
lib = record {
  sha256 = digest_of;
  encode = λ bytes. bytes;
  is_verifying_key = λ k. true;
  verify_strict = λ k m s. true;
  serialize = λ r. some (signable_bytes r);
  deserialize = λ data'. some receipt;
  deserialize_all = λ data'. none;
  create_dir_all = λ dir disk. (disk, true);
  open_append = λ dir name disk. (disk, true);
  write_all = λ dir name data' disk. (disk + length data', true);
  read_dir = λ dir disk. some (map (λ pool. pool_prefix ++ pool ++ log_suffix) (key 9 ∷ []));
  read = λ dir name disk. none;
}

abbrev empty : ReceiptCollector
empty = new 3600 7200 300

abbrev ready : ReceiptCollector
ready = register_pool (key 1) (key 9) empty

ready-Reachable : (b : Bool) → Reachable lib b ready
ready-Reachable b = next_call empty ready (start 3600 7200 300) (registered b empty (key 1) (key 9))

abbrev filled : ReceiptCollector
filled = accept (dedup_hash digest_of receipt) (key 9) receipt ready

ingest-ready :
    ingest lib receipt ready 0 ≡ some (record { collector = filled; disk = 0; error = none })
unfolding ingest ingest_before verify_receipt_signature insert get key_eq dedup_message
    signable_bytes u8
ingest-ready = refl

filled-Reachable : (b : Bool) → Reachable lib b filled
filled-Reachable b = next_call ready filled (ready-Reachable b) (
    ingested b ready 0 receipt (record { collector = filled; disk = 0; error = none }) (omega arith)
      ingest-ready)

ingest-cases_example :
    (a : Ingested ℕ) × (ingest lib receipt filled 0 ≡ some a)
    × (((pool : List Byte) × IsAcceptedBy lib filled 0 receipt pool a)
        ⊎ IsRefusedBy lib filled 0 receipt a)
ingest-cases_example = ingest-cases lib filled 0 receipt (omega arith)

occurrences-Reachable_example :
    total_where (has_hash lib (dedup_hash digest_of receipt)) filled.pool_receipts ≤ 1
occurrences-Reachable_example =
    occurrences-Reachable lib true filled (dedup_hash digest_of receipt) (filled-Reachable true)

IsVerified-Reachable_example : IsVerified lib filled
IsVerified-Reachable_example = IsVerified-Reachable lib filled (filled-Reachable false)

drain_channel-count_example :
    (t : ReceiptCollector) × (disk' : ℕ) × (n : ℕ) × (drain_channel lib
        (key 1 ∷ key 2 ∷ [])
        0
        ready
        0
      ≡ some (t, disk', 0 + n))
    × (receipt_count t ≡ receipt_count ready + n)
    × (n ≤ 2)
drain_channel-count_example = drain_channel-count lib (key 1 ∷ key 2 ∷ []) 0 ready 0 (omega arith)

load_persisted-filename_example : load_persisted lib 0 [] ready ≡ (ready, 0)
load_persisted-filename_example = load_persisted-filename lib 0 [] (key 9 ∷ []) ready refl

abbrev everyone : List Byte → Bool
everyone operator = true

build_batch-verify_batch_example :
    (batch : PoolBatch) × (output : DistributionOutput) × (build_batch digest_of
        (key 9)
        (receipt ∷ [])
      ≡ some (ok batch))
    × (verify_batch batch.proof ≡ Aggregate.done output)
    × (batch.total_weight ≡ 1)
    × (output.total_weight ≡ 1)
    × (batch.pool_pubkey ≡ key 9)
    × (output.pool_id ≡ key 9)
    × (posted_root batch.proof.public_inputs ≡ output.root)
    × (entry_weight everyone batch.weights
        ≡ receipt_weight everyone (map as_receipt (receipt ∷ [])))
unfolding check_receipt key_eq u8
build_batch-verify_batch_example =
    build_batch-verify_batch digest_of (key 9) (receipt ∷ []) everyone length-digest_of refl
      (λ e. omega (arith, ap (λ (xs : List StorageReceipt). length xs) e)) (omega arith) (refl, tt)

abbrev config : AggregatorConfig
config = record {
  epoch_duration_secs = 3600;
  grace_period_secs = 300;
  program_id = key 0;
  max_batch_size = 1000;
  data_dir = some (key 1 ∷ []);
  solana_rpc_url = none;
  submit_claims = false;
}

abbrev service : AggregatorService
service = record { config = config; collector = filled; current_epoch = 1 }

-- An encoding that drops every payload.
abbrev no_payload : Bincode
no_payload = record {
  of_initialize_config = λ p. [];
  of_create_creator_pool = λ p. [];
  of_fund_creator_pool = λ p. [];
  of_fund_content = λ p. [];
  of_post_distribution = λ p. [];
  of_claim_payout = λ p. [];
  of_open_payment_channel = λ p. [];
  of_settle_payment_channel = λ p. [];
  of_close_payment_channel = λ p. [];
}

process_epoch_end-paid_example :
    (txs : List BuiltTransaction) × (t : AggregatorService) × (process_epoch_end digest_of
        no_payload service
      ≡ some (record { service = t; results = map ok txs }))
    × (paid everyone txs ≡ owed everyone filled.pool_receipts)
    × IsNextEpoch service t
unfolding push_receipt
process_epoch_end-paid_example =
    process_epoch_end-paid lib no_payload service everyone length-digest_of (filled-Reachable false)
      (omega arith) (refl, tt) (omega arith) (omega arith) (omega arith)

new_service-IsWindow_example :
    (s : AggregatorService) × (new_service config 4000 ≡ some s)
    × IsWindow 4000 s.current_epoch 3600 s.collector
new_service-IsWindow_example = new_service-IsWindow config 4000 (omega arith) (omega arith)
