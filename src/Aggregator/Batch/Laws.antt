-- ===== src/Aggregator/Batch/Laws.antt =====
-- `BatchBuilder::build` of crates/aggregator/src/batch.rs and the prover that it calls.
use craftec_core.Aggregator.Batch.{
  PoolBatch, ok, as_receipt, weigh_operators, batch_of, build_batch, posted_root,
}
use craftec_core.Prover.Aggregate.{
  Receipt, ProverError, Attempt, done, failed, invalid_proof, output_mismatch, max_weight,
  check_receipt, aggregate_receipts,
}
use craftec_core.Prover.Aggregate.Laws.{
  entry_weight, receipt_weight, anyone, add_weight_lem, aggregate_receipts-cases,
}
use craftec_core.Prover.Client.{
  BatchProof, mock_proof_magic, sum_weights, verify_batch, prove_batch,
}
use craftec_core.Prover.Client.Guest.{sum_weights_lem}
use craftec_core.Prover.Client.Laws.{prove_batch-cases}
use craftec_core.Prover.Types.{DistributionOutput, from_bytes, range}
use craftec_core.Settlement.Accounts.{StorageReceipt}
use craftec_core.Prelude.{
  ℕ, ◌+◌, ◌≤◌, ◌<◌, ◌==◌, ==_iff, ltb, leb, if◌then◌else◌, Bool, true, false, none, some, and_then,
  List, [], ◌∷◌, ◌++◌, map, length, length-map, All, take, drop, Byte, key_eq, arith, ◌≡◌, ◌≢◌,
  refl, sym, ap, ◌∙◌, subst, inl, inr,
}

-- Each receipt weighs 1.
receipt_weight-as_receipt :
    (receipts : List StorageReceipt)
    → receipt_weight anyone (map as_receipt receipts) ≡ length receipts
receipt_weight-as_receipt [] = refl
receipt_weight-as_receipt (r ∷ receipts) = omega (arith, receipt_weight-as_receipt receipts)

weigh_operators_lem :
    (receipts : List StorageReceipt) (weights : List (List Byte × ℕ))
    → entry_weight anyone weights + length receipts ≤ max_weight
    → (after : List (List Byte × ℕ)) × (weigh_operators receipts weights ≡ some after)
      × ((test : List Byte → Bool)
          → entry_weight test after
            ≡ entry_weight test weights + receipt_weight test (map as_receipt receipts))
unfolding weigh_operators
weigh_operators_lem [] weights h = (weights, refl, λ test. omega arith)
weigh_operators_lem (r ∷ receipts) weights h =
    let added = add_weight_lem r.storage_node 1 weights (omega arith) in
    let (after, e, weighs) =
      weigh_operators_lem receipts added.after (omega (arith, added.weighs anyone)) in
    (
      after,
      ap (λ o. and_then o (λ next. weigh_operators receipts next)) added.made ∙ e,
      λ test. omega (arith, weighs test, added.weighs test),
    )

All-split :
    (P : Receipt → Type 0) (xs ys zs : List Receipt) (bad : Receipt)
    → xs ≡ ys ++ bad ∷ zs
    → All P xs
    → P bad
All-split P [] [] zs bad e all = absurd cc
All-split P [] (y ∷ ys) zs bad e all = absurd cc
All-split P (x ∷ xs) [] zs bad e all = let same : x ≡ bad = cc in subst P same all.0
All-split P (x ∷ xs) (y ∷ ys) zs bad e all =
    let rest : xs ≡ ys ++ bad ∷ zs = cc in All-split P xs ys zs bad rest all.1

-- Receipts that pass the checks of the prover are not refused.
not_refused :
    (receipts : List Receipt) (e : ProverError)
    → receipts ≢ []
    → receipt_weight anyone receipts ≤ max_weight
    → All (λ r. check_receipt r ≡ none) receipts
    → aggregate_receipts receipts ≡ failed e
    → ⊥
not_refused receipts e nonempty fits all refused = elim (aggregate_receipts-cases receipts fits) [
  | inl (empty, result) ↦ nonempty empty
  | inr (inl (e', result, (good, bad, rest, parts, valid, found))) ↦
      let fine = All-split (λ r. check_receipt r ≡ none) receipts good rest bad parts all in cc
  | inr (inr (entries, result, accepted)) ↦ let both = sym result ∙ refused in cc
]

-- The branches of a test that can give a result.
if_refused :
    {A : Type 0} (b : Bool) (e : ProverError) (y : Attempt A) (a : A)
    → (if b then failed e else y) ≡ done a
    → y ≡ done a
if_refused true e y a h = absurd cc
if_refused false e y a h = h

if_passed :
    {A : Type 0} (b : Bool) (e : ProverError) (x : Attempt A) (a : A)
    → (if b then x else failed e) ≡ done a
    → (b ≡ true) × (x ≡ done a)
if_passed true e x a h = (refl, h)
if_passed false e x a h = absurd cc

done-injective : {A : Type 0} (a b : A) → done a ≡ done b → a ≡ b
done-injective a b e = cc

-- What `verify_batch` accepts has 76 bytes of public inputs, and is read from them.
verify_batch-inputs :
    (proof : BatchProof) (output : DistributionOutput)
    → verify_batch proof ≡ done output
    → (length proof.public_inputs ≡ 76) × (from_bytes proof.public_inputs ≡ output)
unfolding verify_batch
verify_batch-inputs proof output e =
    let inputs : List Byte = proof.public_inputs in
    let magic : ℕ = length mock_proof_magic in
    let sized : Attempt DistributionOutput =
      if length inputs == 76 then done (from_bytes inputs) else failed invalid_proof in
    let matched : Attempt DistributionOutput =
      if key_eq (drop magic proof.proof_bytes) inputs then sized else failed output_mismatch in
    let tagged : Attempt DistributionOutput =
      if key_eq (take magic proof.proof_bytes) mock_proof_magic
      then matched
      else failed invalid_proof in
    let a : tagged ≡ done output =
      if_refused (ltb (length proof.proof_bytes) (magic + 76)) invalid_proof tagged output e in
    let b : matched ≡ done output =
      (if_passed (key_eq (take magic proof.proof_bytes) mock_proof_magic) invalid_proof matched
        output a).1 in
    let c : sized ≡ done output =
      (if_passed (key_eq (drop magic proof.proof_bytes) inputs) output_mismatch sized output b).1 in
    let (size, d) =
      if_passed (length inputs == 76) invalid_proof (done (from_bytes inputs)) output c in
    ((==_iff (length inputs) 76).0 size, done-injective (from_bytes inputs) output d)

posted_root-from_bytes :
    (inputs : List Byte) → length inputs ≡ 76 → posted_root inputs ≡ (from_bytes inputs).root
unfolding from_bytes range
posted_root-from_bytes inputs size =
    let long : leb 32 (length inputs) ≡ true = ground arith in rw long refl

-- The batch of receipts that the prover accepts.
pub build_batch_lem :
    (sha256 : List Byte → List Byte) (pool : List Byte) (receipts : List StorageReceipt)
    → ((m : List Byte) → length (sha256 m) ≡ 32)
    → length pool ≡ 32
    → receipts ≢ []
    → length receipts < 4294967296
    → All (λ r. check_receipt r ≡ none) (map as_receipt receipts)
    → (batch : PoolBatch) × (output : DistributionOutput) × (build_batch sha256 pool receipts
        ≡ some (ok batch))
      × (verify_batch batch.proof ≡ done output)
      × (batch.total_weight ≡ length receipts)
      × (output.total_weight ≡ length receipts)
      × (batch.pool_pubkey ≡ pool)
      × (output.pool_id ≡ pool)
      × (posted_root batch.proof.public_inputs ≡ output.root)
      × ((test : List Byte → Bool)
          → entry_weight test batch.weights ≡ receipt_weight test (map as_receipt receipts))
unfolding build_batch
build_batch_lem sha256 pool [] digest wide nonempty few fine = absurd (nonempty refl)
build_batch_lem sha256 pool (r ∷ rest) digest wide nonempty few fine =
    let receipts : List StorageReceipt = r ∷ rest in
    let number = receipt_weight-as_receipt receipts in
    let count = length-map receipts as_receipt in
    let (weights, weighed, weighs) = weigh_operators_lem receipts [] (omega arith) in
    let total = weighs anyone in
    let summed = sum_weights_lem 0 weights (omega (arith, total, number)) in
    let start : build_batch sha256 pool receipts
        ≡ batch_of pool weights (length receipts) (0 + entry_weight anyone weights)
            (prove_batch sha256 (map as_receipt receipts) pool) =
      ap
        (λ o. and_then o (λ w. and_then (sum_weights 0 w) (λ t.
          batch_of pool w (length receipts) t (prove_batch sha256 (map as_receipt receipts) pool))))
        weighed
      ∙ ap
          (λ o. and_then o (λ t.
            batch_of pool weights (length receipts) t
              (prove_batch sha256 (map as_receipt receipts) pool)))
          summed in
    elim (prove_batch-cases sha256 (map as_receipt receipts) pool digest wide (omega (arith, count))
      (omega (arith, number))) [
        | inl (e, refused, failure) ↦ absurd (
            not_refused (map as_receipt receipts) e
              (λ h. omega (arith, ap (λ (xs : List Receipt). length xs) h)) (omega (arith, number))
              fine refused)
        | inr (proof, output, proved, verified, heavy, of_pool, entries) ↦
            let (size, read) = verify_batch-inputs proof output verified in
            (
              record {
                pool_pubkey = pool;
                weights = weights;
                receipt_count = length receipts;
                total_weight = 0 + entry_weight anyone weights;
                proof = proof;
              },
              output,
              start
                  ∙ ap (batch_of pool weights (length receipts) (0 + entry_weight anyone weights))
                      proved,
              verified,
              omega (arith, total, number),
              omega (arith, heavy, number),
              refl,
              of_pool,
              posted_root-from_bytes proof.public_inputs size
                  ∙ ap (λ (o : DistributionOutput). o.root) read,
              λ test. omega (arith, weighs test),
            )
      ]

-- A digest of 32 bytes, a pool of 32 bytes, and at least one and fewer than 2^32 receipts, each with
-- an operator and a timestamp that are not zero: `build` returns a batch of the pool whose proof
-- verifies. The total weight of the batch and of the verified output is the number of receipts, the
-- output is of the pool, the root that is posted is the root of the output, and any group of
-- operators weighs in the batch what its receipts weigh.
pub build_batch-verify_batch :
    (sha256 : List Byte → List Byte) (pool : List Byte) (receipts : List StorageReceipt)
    (test : List Byte → Bool)
    → ((m : List Byte) → length (sha256 m) ≡ 32)
    → length pool ≡ 32
    → receipts ≢ []
    → length receipts < 4294967296
    → All (λ r. check_receipt r ≡ none) (map as_receipt receipts)
    → (batch : PoolBatch) × (output : DistributionOutput) × (build_batch sha256 pool receipts
        ≡ some (ok batch))
      × (verify_batch batch.proof ≡ done output)
      × (batch.total_weight ≡ length receipts)
      × (output.total_weight ≡ length receipts)
      × (batch.pool_pubkey ≡ pool)
      × (output.pool_id ≡ pool)
      × (posted_root batch.proof.public_inputs ≡ output.root)
      × (entry_weight test batch.weights ≡ receipt_weight test (map as_receipt receipts))
build_batch-verify_batch sha256 pool receipts test digest wide nonempty few fine =
    let (batch, output, built, verified, total, heavy, same, of_pool, root, weighs) =
      build_batch_lem sha256 pool receipts digest wide nonempty few fine in
    (batch, output, built, verified, total, heavy, same, of_pool, root, weighs test)
