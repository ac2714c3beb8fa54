-- ===== src/Settlement/Accounts.antt =====
-- crates/settlement/src/accounts.rs: the accounts of the settlement program, and the messages that
-- vouchers and receipts sign. An array of 32 bytes is a list, whose length the theorems ask for; an
-- `i64` is an integer. bincode and SHA-256 are not part of the repository and are parameters.
pub mod Laws
use craftec_core.Prelude.{
  ℕ, ◌==◌, if◌then◌else◌, Bool, Option, none, some, List, [], ◌∷◌, ◌++◌, flatten, Byte, u8,
  to_le_bytes,
}

-- `i64`
pub data ℤ : Type 0 where
  pos negsuc : ℕ → ℤ

pub data StorageTier : Type 0 where
  free lite standard pro enterprise : StorageTier

-- `as u8`, by `#[repr(u8)]`
abbrev pub tier_to_u8 : StorageTier → Byte
tier_to_u8 free = u8 0
tier_to_u8 lite = u8 1
tier_to_u8 standard = u8 2
tier_to_u8 pro = u8 3
tier_to_u8 enterprise = u8 4

-- `StorageTier::from_u8`
unfoldable pub from_u8 : Byte → Option StorageTier
from_u8 v =
    if v.value == 0
    then some free
    else if v.value == 1
    then some lite
    else if v.value == 2
    then some standard
    else if v.value == 3
    then some pro
    else if v.value == 4
    then some enterprise
    else none

-- `StorageTier::min_shard_ratio`; each of the ratios is a whole number.
unfoldable pub min_shard_ratio : StorageTier → ℕ
min_shard_ratio free = 0
min_shard_ratio lite = 2
min_shard_ratio standard = 3
min_shard_ratio pro = 5
min_shard_ratio enterprise = 10

pub record CreatorPool : Type 0 where
  pub creator : List Byte
  pub balance : ℕ
  pub original_balance : ℕ
  pub tier : StorageTier
  pub funded_cid_count : ℕ
  pub distribution_posted : Bool
  pub distribution_root : List Byte
  pub total_weight : ℕ
  pub created_at : ℤ

pub record Pool : Type 0 where
  pub pool_pubkey : List Byte
  pub service : Byte
  pub tier : Byte
  pub start_date : ℤ
  pub created_at : ℤ
  pub expires_at : ℤ
  pub pool_balance : ℕ
  pub original_pool_balance : ℕ
  pub total_weight : ℕ
  pub distribution_root : List Byte
  pub distribution_posted : Bool

pub record PaymentChannel : Type 0 where
  pub user : List Byte
  pub node : List Byte
  pub locked_amount : ℕ
  pub redeemed_amount : ℕ
  pub nonce : ℕ
  pub is_open : Bool
  pub created_at : ℤ
  pub expires_at : ℤ

pub record PaymentVoucher : Type 0 where
  pub channel : List Byte
  pub amount : ℕ
  pub nonce : ℕ
  pub signature : List Byte

-- Calls of `extend_from_slice` or `update`, one after the other.
abbrev pub extend : List (List Byte) → List Byte
extend parts = flatten parts

-- `PaymentVoucher::signable_data`
abbrev signable_data : List Byte → ℕ → ℕ → List Byte
signable_data channel amount nonce =
    extend (channel ∷ to_le_bytes 8 amount ∷ to_le_bytes 8 nonce ∷ [])

pub record StorageReceipt : Type 0 where
  pub content_id : List Byte
  pub storage_node : List Byte
  pub challenger : List Byte
  pub shard_index : ℕ
  pub timestamp : ℕ
  pub nonce : List Byte
  pub proof_hash : List Byte
  pub signature : List Byte

-- What `dedup_hash` feeds to the hash function.
unfoldable pub dedup_message : StorageReceipt → List Byte
dedup_message r = extend (
    r.content_id
    ∷ to_le_bytes 4 r.shard_index
    ∷ r.storage_node
    ∷ r.challenger
    ∷ to_le_bytes 8 r.timestamp
    ∷ [])

-- `StorageReceipt::dedup_hash`
abbrev pub dedup_hash : (List Byte → List Byte) → StorageReceipt → List Byte
dedup_hash sha256 r = sha256 (dedup_message r)

-- `StorageReceipt::signable_bytes`
unfoldable pub signable_bytes : StorageReceipt → List Byte
signable_bytes r = extend (
    r.content_id
    ∷ r.storage_node
    ∷ r.challenger
    ∷ to_le_bytes 4 r.shard_index
    ∷ to_le_bytes 8 r.timestamp
    ∷ r.nonce
    ∷ r.proof_hash
    ∷ [])
