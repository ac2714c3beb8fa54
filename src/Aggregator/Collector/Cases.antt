-- ===== src/Aggregator/Collector/Cases.antt =====
-- The checks of `ingest` of crates/aggregator/src/collector.rs, branch by branch.
use craftec_core.Aggregator.Collector.{
  AggregatorError, invalid_signature, timestamp_out_of_range, duplicate_receipt, unknown_pool,
  Externals, ReceiptCollector, contains, accept, u64_add,
}
use craftec_core.Aggregator.Collector.Ingest.{
  Ingested, verify_receipt_signature, persist, refuse, ingest_for, ingest_before, ingest,
}
use craftec_core.Maps.{get}
use craftec_core.Prover.Aggregate.{zero_key}
use craftec_core.Settlement.Accounts.{StorageReceipt, dedup_hash, signable_bytes}
use craftec_core.Settlement.Fee.{u64_max}
use craftec_core.Prelude.{
  ℕ, ◌+◌, ◌≤◌, ◌<◌, ◌==◌, ltb, leb, true, false, ◌||◌, none, some, and_then, List, length, Byte,
  key_eq, arith, ◌≡◌, refl, ap, ◌⊎◌, inl, inr, Bool-cases, Option-cases,
}

module _ {Disk : Type 0} (lib : Externals Disk) where
  -- The signature is of 64 bytes, and of the receipt, by the key of the challenger.
  pub record IsSigned (r : StorageReceipt) : Type 0 where
    pub has_key : lib.is_verifying_key r.challenger ≡ true
    pub signature_length : length r.signature ≡ 64
    pub verifies : lib.verify_strict r.challenger (signable_bytes r) r.signature ≡ true

  -- The checks that do not depend on the receipts that were seen.
  pub record IsChecked (epoch_start deadline : ℕ) (r : StorageReceipt) : Type 0 where
    pub after_start : epoch_start ≤ r.timestamp
    pub before_deadline : r.timestamp < deadline
    pub has_node : key_eq r.storage_node zero_key ≡ false
    pub has_content : key_eq r.content_id zero_key ≡ false
    pub signed : IsSigned r

  abbrev pub IsValid : ReceiptCollector → StorageReceipt → Type 0
  IsValid s r = IsChecked s.epoch_start (s.epoch_end + s.grace_secs) r

  -- The receipt is valid and new, and its content belongs to a pool.
  pub record IsAcceptable (s : ReceiptCollector) (r : StorageReceipt) (pool : List Byte)
      : Type 0 where
    pub valid : IsValid s r
    pub unseen : contains s.seen (dedup_hash lib.sha256 r) ≡ false
    pub mapped : get key_eq s.cid_to_pool r.content_id ≡ some pool

  verify_receipt_signature-cases :
      (r : StorageReceipt)
      → ((e : AggregatorError) × (verify_receipt_signature lib r ≡ some e) × (IsSigned r → ⊥))
        ⊎ ((verify_receipt_signature lib r ≡ none) × IsSigned r)
  unfolding verify_receipt_signature
  verify_receipt_signature-cases r = elim (Bool-cases (lib.is_verifying_key r.challenger)) [
    | inr no_key ↦ inl (invalid_signature, rw no_key refl, λ signed. let k = signed.has_key in cc)
    | inl key ↦ elim (Bool-cases (length r.signature == 64)) [
      | inr long ↦ inl (
        invalid_signature,
        rw (key, long) refl,
        λ signed. let l = signed.signature_length in ground arith,
      )
      | inl fits ↦
          elim (Bool-cases (lib.verify_strict r.challenger (signable_bytes r) r.signature)) [
            | inr fails ↦ inl (
              invalid_signature,
              rw (key, fits, fails) refl,
              λ signed. let v = signed.verifies in cc,
            )
            | inl verified ↦ inr (
              rw (key, fits, verified) refl,
              record { has_key = key; signature_length = ground arith; verifies = verified },
            )
          ]
    ]
  ]

  -- What `ingest` does on acceptance, and on refusal with an error.
  abbrev pub IsAcceptedBy :
      ReceiptCollector → Disk → StorageReceipt → List Byte → Ingested Disk → Type 0
  IsAcceptedBy s disk r pool a =
      IsAcceptable s r pool
      × (a ≡ record {
        collector = accept (dedup_hash lib.sha256 r) pool r s;
        disk = persist lib s.persist_dir pool r disk;
        error = none;
      })

  abbrev pub IsRefusedBy : ReceiptCollector → Disk → StorageReceipt → Ingested Disk → Type 0
  IsRefusedBy s disk r a =
      ((pool : List Byte) → IsAcceptable s r pool → ⊥)
      × (e : AggregatorError) × (a ≡ refuse lib s disk e)

  abbrev IsAnswered : ReceiptCollector → Disk → StorageReceipt → Ingested Disk → Type 0
  IsAnswered s disk r a =
      ((pool : List Byte) × IsAcceptedBy s disk r pool a) ⊎ IsRefusedBy s disk r a

  ingest_for-cases :
      (s : ReceiptCollector) (disk : Disk) (r : StorageReceipt)
      → IsValid s r
      → contains s.seen (dedup_hash lib.sha256 r) ≡ false
      → IsAnswered s disk r (ingest_for lib (get key_eq s.cid_to_pool r.content_id) r s disk)
  ingest_for-cases s disk r valid unseen =
      elim (Option-cases (get key_eq s.cid_to_pool r.content_id)) [
        | inl unmapped ↦ inr (
          λ pool fine. let m = fine.mapped in cc,
          unknown_pool,
          ap (λ o. ingest_for lib o r s disk) unmapped,
        )
        | inr (pool, mapped) ↦ inl (
          pool,
          (
            record { valid = valid; unseen = unseen; mapped = mapped },
            ap (λ o. ingest_for lib o r s disk) mapped,
          ),
        )
      ]

  ingest_before-cases :
      (s : ReceiptCollector) (disk : Disk) (r : StorageReceipt)
      → IsAnswered s disk r (ingest_before lib (s.epoch_end + s.grace_secs) r s disk)
  unfolding ingest_before
  ingest_before-cases s disk r =
      let deadline : ℕ = s.epoch_end + s.grace_secs in
      elim (Bool-cases (ltb r.timestamp s.epoch_start || leb deadline r.timestamp)) [
        | inl outside ↦ inr (
          λ pool fine.
              let a = fine.valid.after_start in let b = fine.valid.before_deadline in ground arith,
          timestamp_out_of_range r.timestamp s.epoch_start deadline,
          rw outside refl,
        )
        | inr inside ↦
            elim (Bool-cases (key_eq r.storage_node zero_key || key_eq r.content_id zero_key)) [
              | inl zero ↦ inr (
                λ pool fine.
                    let a = fine.valid.has_node in let b = fine.valid.has_content in ground arith,
                invalid_signature,
                rw (inside, zero) refl,
              )
              | inr nonzero ↦ elim (Bool-cases (contains s.seen (dedup_hash lib.sha256 r))) [
                | inl seen ↦ inr (
                  λ pool fine. let u = fine.unseen in cc,
                  duplicate_receipt (lib.encode (dedup_hash lib.sha256 r)),
                  rw (inside, nonzero, seen) refl,
                )
                | inr unseen ↦ elim (verify_receipt_signature-cases r) [
                  | inl (e, fails, unsigned) ↦ inr (
                    λ pool fine. unsigned fine.valid.signed,
                    e,
                    rw (inside, nonzero, unseen, fails) refl,
                  )
                  | inr (passes, signed) ↦
                      let valid : IsValid s r = record {
                        after_start = ground arith;
                        before_deadline = ground arith;
                        has_node = ground arith;
                        has_content = ground arith;
                        signed = signed;
                      } in
                      rw (inside, nonzero, unseen, passes) (ingest_for-cases s disk r valid unseen)
                ]
              ]
            ]
      ]

  -- If the end of the grace period fits a `u64`, `ingest` returns. Either the receipt is valid, new
  -- and of a known pool, and it is added to that pool and to the seen ones, whether or not it could be
  -- written to disk; or it fails one of the checks, and an error is returned with the collector and
  -- the disk as they were.
  pub ingest-cases :
      (s : ReceiptCollector) (disk : Disk) (r : StorageReceipt)
      → s.epoch_end + s.grace_secs ≤ u64_max
      → (a : Ingested Disk) × (ingest lib r s disk ≡ some a)
        × (((pool : List Byte) × IsAcceptedBy s disk r pool a) ⊎ IsRefusedBy s disk r a)
  unfolding ingest
  ingest-cases s disk r fits =
      let deadline : ℕ = s.epoch_end + s.grace_secs in
      let sum : u64_add s.epoch_end s.grace_secs ≡ some deadline = ground arith in
      (
        ingest_before lib deadline r s disk,
        ap (λ o. and_then o (λ d. some (ingest_before lib d r s disk))) sum,
        ingest_before-cases s disk r,
      )
