-- ===== src/Tests/Accounts.antt =====
-- Inputs for the theorems on the messages, addresses and instructions of crates/settlement.
use craftec_core.Settlement.Accounts.{StorageReceipt, dedup_message, signable_bytes}
use craftec_core.Settlement.Accounts.Laws.{
  IsCollision, IsSized, IsSameChallenge, dedup_hash-cases, signable_bytes-injective,
}
use craftec_core.Settlement.Pda.{payment_channel_seed, address_tag, pda_message}
use craftec_core.Settlement.Pda.Laws.{payment_channel, IsKeyed, address, seeds_of, address-cases}
use craftec_core.Settlement.Instruction.Laws.{fund_pool, type_of, build, build-type_of}
use craftec_core.Settlement.Instruction.{Bincode}
use craftec_core.Prelude.{ℕ, List, [], ◌∷◌, replicate, Byte, u8, length, ◌≡◌, ◌⊎◌, refl, arith}

abbrev key : ℕ → List Byte
key n = replicate 32 (u8 n)

-- A receipt of node 2 for content 1, challenged by node 3.
abbrev receipt : List Byte → StorageReceipt
receipt signature = record {
  content_id = key 1;
  storage_node = key 2;
  challenger = key 3;
  shard_index = 4;
  timestamp = 1000;
  nonce = key 5;
  proof_hash = key 6;
  signature = signature;
}

receipt-IsSized : (signature : List Byte) → IsSized (receipt signature)
receipt-IsSized signature = record {
  content_id_length = refl;
  storage_node_length = refl;
  challenger_length = refl;
  nonce_length = refl;
  proof_hash_length = refl;
  shard_index_fits = omega arith;
  timestamp_fits = omega arith;
}

-- A short hash function, which has collisions.
abbrev tiny_hash : List Byte → List Byte
tiny_hash m = u8 (length m) ∷ []

dedup_hash-cases_example :
    IsSameChallenge (receipt (key 8)) (receipt [])
    ⊎ IsCollision tiny_hash (dedup_message (receipt (key 8))) (dedup_message (receipt []))
unfolding dedup_message
dedup_hash-cases_example =
    dedup_hash-cases tiny_hash (receipt (key 8)) (receipt []) (receipt-IsSized (key 8))
      (receipt-IsSized []) refl

signable_bytes-injective_example :
    IsSameChallenge (receipt (key 8)) (receipt []) × (key 5 ≡ key 5) × (key 6 ≡ key 6)
unfolding signable_bytes
signable_bytes-injective_example =
    signable_bytes-injective (receipt (key 8)) (receipt []) (receipt-IsSized (key 8))
      (receipt-IsSized []) refl

address-cases_example :
    (payment_channel (key 1) (key 2) ≡ payment_channel (key 3) (key 4))
    ⊎ IsCollision tiny_hash
        (pda_message (key 0) (seeds_of (payment_channel (key 1) (key 2))))
        (pda_message (key 0) (seeds_of (payment_channel (key 3) (key 4))))
unfolding IsKeyed address payment_channel_seed address_tag
address-cases_example =
    address-cases tiny_hash (key 0) (payment_channel (key 1) (key 2))
      (payment_channel (key 3) (key 4)) (refl, refl) (refl, refl) refl

-- An encoding that drops every payload.
abbrev no_payload : Bincode
no_payload = record {
  of_initialize_config = λ p. [];
  of_create_creator_pool = λ p. [];
  of_fund_creator_pool = λ p. [];
  of_fund_content = λ p. [];
  of_post_distribution = λ p. [];
  of_claim_payout = λ p. [];
  of_open_payment_channel = λ p. [];
  of_settle_payment_channel = λ p. [];
  of_close_payment_channel = λ p. [];
}

build-type_of_example : type_of (fund_pool (key 1) 5) ≡ type_of (fund_pool (key 2) 6)
unfolding build
build-type_of_example = build-type_of no_payload (fund_pool (key 1) 5) (fund_pool (key 2) 6) refl
