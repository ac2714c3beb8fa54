-- ===== src/Settlement/Accounts/Laws.antt =====
-- The messages of crates/settlement/src/accounts.rs, part by part.
use craftec_core.Settlement.Accounts.{
  StorageTier, free, lite, standard, pro, enterprise, tier_to_u8, from_u8, StorageReceipt,
  dedup_message, dedup_hash, signable_bytes,
}
use craftec_core.Prelude.{
  ℕ, ◌<◌, ◌^◌, some, List, ◌++◌, length, Byte, u8, to_le_bytes, length-to_le_bytes,
  to_le_bytes-injective, append-injective, key-cases, ◌≡◌, ◌≢◌, ◌⊎◌, inl, inr, refl, sym, ◌∙◌,
}

-- Two different messages with the same hash.
abbrev pub IsCollision : (List Byte → List Byte) → List Byte → List Byte → Type 0
IsCollision sha256 m n = (m ≢ n) × (sha256 m ≡ sha256 n)

-- Two hashes that agree are of the same message, or show a collision.
pub hash-cases :
    (sha256 : List Byte → List Byte) (m n : List Byte)
    → sha256 m ≡ sha256 n
    → (m ≡ n) ⊎ IsCollision sha256 m n
hash-cases sha256 m n e = elim (key-cases m n) [
  | inl same ↦ inl same
  | inr differ ↦ inr (differ, e)
]

-- A word of `width` bytes and what follows it are determined.
word-injective :
    (width m n : ℕ) (xs ys : List Byte)
    → m < 256 ^ width
    → n < 256 ^ width
    → to_le_bytes width m ++ xs ≡ to_le_bytes width n ++ ys
    → (m ≡ n) × (xs ≡ ys)
word-injective width m n xs ys hm hn e =
    let same : length (to_le_bytes width m) ≡ length (to_le_bytes width n) =
      length-to_le_bytes width m ∙ sym (length-to_le_bytes width n) in
    let (words, rest) = append-injective (to_le_bytes width m) xs (to_le_bytes width n) ys same e in
    (to_le_bytes-injective width m n hm hn words, rest)

-- The arrays have their lengths, and the numbers fit `u32` and `u64`.
pub record IsSized (r : StorageReceipt) : Type 0 where
  pub content_id_length : length r.content_id ≡ 32
  pub storage_node_length : length r.storage_node ≡ 32
  pub challenger_length : length r.challenger ≡ 32
  pub nonce_length : length r.nonce ≡ 32
  pub proof_hash_length : length r.proof_hash ≡ 32
  pub shard_index_fits : r.shard_index < 4294967296
  pub timestamp_fits : r.timestamp < 18446744073709551616

-- The fields that receipts are compared by.
abbrev pub IsSameChallenge : StorageReceipt → StorageReceipt → Type 0
IsSameChallenge r s =
    (r.content_id ≡ s.content_id)
    × (r.shard_index ≡ s.shard_index)
    × (r.storage_node ≡ s.storage_node)
    × (r.challenger ≡ s.challenger)
    × (r.timestamp ≡ s.timestamp)

dedup_message-injective :
    (r s : StorageReceipt)
    → IsSized r
    → IsSized s
    → dedup_message r ≡ dedup_message s
    → IsSameChallenge r s
unfolding dedup_message
dedup_message-injective r s hr hs e =
    let (contents, a) =
      append-injective r.content_id _ s.content_id _
        (hr.content_id_length ∙ sym hs.content_id_length) e in
    let (shards, b) =
      word-injective 4 r.shard_index s.shard_index _ _ hr.shard_index_fits hs.shard_index_fits a in
    let (nodes, c) =
      append-injective r.storage_node _ s.storage_node _
        (hr.storage_node_length ∙ sym hs.storage_node_length) b in
    let (challengers, d) =
      append-injective r.challenger _ s.challenger _
        (hr.challenger_length ∙ sym hs.challenger_length) c in
    let (times, f) =
      word-injective 8 r.timestamp s.timestamp _ _ hr.timestamp_fits hs.timestamp_fits d in
    (contents, shards, nodes, challengers, times)

-- Two receipts with the same dedup hash agree in content, shard, node, challenger and time, or their
-- messages are a collision of the hash function.
pub dedup_hash-cases :
    (sha256 : List Byte → List Byte) (r s : StorageReceipt)
    → IsSized r
    → IsSized s
    → dedup_hash sha256 r ≡ dedup_hash sha256 s
    → IsSameChallenge r s ⊎ IsCollision sha256 (dedup_message r) (dedup_message s)
dedup_hash-cases sha256 r s hr hs e =
    elim (hash-cases sha256 (dedup_message r) (dedup_message s) e) [
      | inl same ↦ inl (dedup_message-injective r s hr hs same)
      | inr found ↦ inr found
    ]

-- Two receipts that sign the same bytes agree in all but the signature.
pub signable_bytes-injective :
    (r s : StorageReceipt)
    → IsSized r
    → IsSized s
    → signable_bytes r ≡ signable_bytes s
    → IsSameChallenge r s × (r.nonce ≡ s.nonce) × (r.proof_hash ≡ s.proof_hash)
unfolding signable_bytes
signable_bytes-injective r s hr hs e =
    let (contents, a) =
      append-injective r.content_id _ s.content_id _
        (hr.content_id_length ∙ sym hs.content_id_length) e in
    let (nodes, b) =
      append-injective r.storage_node _ s.storage_node _
        (hr.storage_node_length ∙ sym hs.storage_node_length) a in
    let (challengers, c) =
      append-injective r.challenger _ s.challenger _
        (hr.challenger_length ∙ sym hs.challenger_length) b in
    let (shards, d) =
      word-injective 4 r.shard_index s.shard_index _ _ hr.shard_index_fits hs.shard_index_fits c in
    let (times, f) =
      word-injective 8 r.timestamp s.timestamp _ _ hr.timestamp_fits hs.timestamp_fits d in
    let (nonces, g) =
      append-injective r.nonce _ s.nonce _ (hr.nonce_length ∙ sym hs.nonce_length) f in
    let (proofs, nothing) =
      append-injective r.proof_hash _ s.proof_hash _
        (hr.proof_hash_length ∙ sym hs.proof_hash_length) g in
    ((contents, shards, nodes, challengers, times), nonces, proofs)

-- `from_u8` reads back the number of every tier.
from_u8-tier_to_u8 : (t : StorageTier) → from_u8 (tier_to_u8 t) ≡ some t
unfolding from_u8 u8
from_u8-tier_to_u8 free = refl
from_u8-tier_to_u8 lite = refl
from_u8-tier_to_u8 standard = refl
from_u8-tier_to_u8 pro = refl
from_u8-tier_to_u8 enterprise = refl
