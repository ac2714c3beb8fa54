-- ===== src/Prover/Merkle/Laws.antt =====
-- The rounds of `compute_merkle_root` build the binary tree over the padded leaves.
use native.Mathlib.Nat.{pow-suc}
use craftec_core.Prover.Merkle.{
  zero_hash, next_power_from, pad, cons_parent, merge_pairs, merge_levels, compute_merkle_root,
}
use craftec_core.Prelude.{
  and_then, ℕ, zero, suc, ◌+◌, ◌-◌, ◌*◌, ◌^◌, ◌≤◌, ◌<◌, leb, leb→le, some, List, [], ◌∷◌, ◌++◌,
  length, replicate, get_or, Byte, arith, ◌≡◌, ◌≢◌, refl, sym, ap, ap₂, ◌∙◌, ◌⊎◌, inl, inr,
  Bool-cases,
}

-- `f 0` to `f (n - 1)`
level : (ℕ → List Byte) → ℕ → List (List Byte)
level f zero = []
level f (suc n) = f 0 ∷ level (λ i. f (i + 1)) n

double : ℕ → ℕ
double zero = zero
double (suc n) = suc (suc (double n))

two_to : ℕ → ℕ
two_to zero = 1
two_to (suc d) = double (two_to d)

double_lem : (n : ℕ) → double n ≡ 2 * n
unfolding double
double_lem zero = refl
double_lem (suc n) = omega (arith, double_lem n)

two_to_lem : (d : ℕ) → two_to d ≡ 2 ^ d
unfolding two_to
two_to_lem zero = refl
two_to_lem (suc d) = omega (arith, double_lem (two_to d), two_to_lem d, pow-suc 2 d)

exponent-lt : (d : ℕ) → d < 2 ^ d
exponent-lt zero = omega arith
exponent-lt (suc d) = omega (arith, exponent-lt d, pow-suc 2 d)

-- The doubling ends at a power of two that is large enough and not twice too large.
next_power_from_lem :
    (fuel n e : ℕ)
    → n ≤ fuel + 2 ^ e
    → (d : ℕ) × (next_power_from fuel n (2 ^ e) ≡ 2 ^ d) × (n ≤ 2 ^ d) × ((d ≡ e) ⊎ (2 ^ d < 2 * n))
unfolding next_power_from
next_power_from_lem zero n e h = (e, refl, omega arith, inl refl)
next_power_from_lem (suc fuel) n e h = elim (Bool-cases (leb n (2 ^ e))) [
  | inl small ↦ (e, rw small refl, leb→le n (2 ^ e) small, inl refl)
  | inr large ↦
      let twice : 2 * 2 ^ e ≡ 2 ^ suc e = omega (arith, pow-suc 2 e) in
      let below : 2 ^ e < n = ground arith in
      let (d, result, enough, tight) =
        next_power_from_lem fuel n (suc e) (omega (arith, pow-suc 2 e, exponent-lt e)) in
      (
        d,
        rw large (ap (next_power_from fuel n) twice ∙ result),
        enough,
        inr (elim tight [
          | inl same ↦ omega (arith, ap (λ t. 2 ^ t) same, pow-suc 2 e)
          | inr less ↦ less
        ]),
      )
]

zeros-level :
    (f : ℕ → List Byte) (n : ℕ) → ((i : ℕ) → f i ≡ zero_hash) → replicate n zero_hash ≡ level f n
unfolding level
zeros-level f zero h = refl
zeros-level f (suc n) h = ap₂ ◌∷◌ (sym (h 0)) (zeros-level (λ i. f (i + 1)) n (λ i. h (i + 1)))

get_or-next :
    (x : List Byte) (leaves : List (List Byte)) (i : ℕ)
    → get_or leaves i zero_hash ≡ get_or (x ∷ leaves) (i + 1) zero_hash
get_or-next x leaves i =
    let e : suc i ≡ i + 1 = omega arith in ap (λ t. get_or (x ∷ leaves) t zero_hash) e

pad-level :
    (leaves : List (List Byte)) (n : ℕ)
    → length leaves ≤ n
    → pad leaves n ≡ level (λ i. get_or leaves i zero_hash) n
unfolding level
pad-level [] n h =
    let all : n - 0 ≡ n = omega arith in
    ap (λ t. replicate t zero_hash) all ∙ zeros-level (λ i. zero_hash) n (λ i. refl)
pad-level (x ∷ leaves) zero h = absurd (omega arith)
pad-level (x ∷ leaves) (suc n) h =
    let rest : suc n - suc (length leaves) ≡ n - length leaves = omega arith in
    ap (λ t. x ∷ leaves ++ replicate t zero_hash) rest
    ∙ ap (x ∷◌) (pad-level leaves n (omega arith))
    ∙ ap (x ∷◌) (λ k. level (λ i. get_or-next x leaves i k) n)

module _ (sha256 : List Byte → List Byte) where
  parents : (ℕ → List Byte) → ℕ → List Byte
  parents f i = sha256 (f (2 * i) ++ f (2 * i + 1))

  -- The hash at the root of the tree of depth `d` over the leaves from `o` on.
  unfoldable pub tree_root : ℕ → (ℕ → List Byte) → ℕ → List Byte
  tree_root zero leaf o = leaf o
  tree_root (suc d) leaf o = sha256 (tree_root d leaf o ++ tree_root d leaf (o + 2 ^ d))

  merge_pairs-level :
      (f : ℕ → List Byte) (n : ℕ)
      → merge_pairs sha256 (level f (double n)) ≡ some (level (parents f) n)
  unfolding merge_pairs level double parents
  merge_pairs-level f zero = refl
  merge_pairs-level f (suc n) =
      let shift : (i : ℕ) → parents (λ j. f (j + 1 + 1)) i ≡ parents f (i + 1) = λ i.
        let e : 2 * i + 1 + 1 ≡ 2 * (i + 1) = omega arith in
        ap (λ t. sha256 (f t ++ f (t + 1))) e in
      ap (cons_parent (parents f 0)) (merge_pairs-level (λ j. f (j + 1 + 1)) n)
      ∙ (λ k. some (parents f 0 ∷ level (λ i. shift i k) n))

  tree_root-parents :
      (d : ℕ) (f : ℕ → List Byte) (o : ℕ) → tree_root d (parents f) o ≡ tree_root (suc d) f (2 * o)
  unfolding tree_root parents
  tree_root-parents zero f o = refl
  tree_root-parents (suc d) f o =
      let right : 2 * (o + 2 ^ d) ≡ 2 * o + 2 ^ suc d = omega (arith, pow-suc 2 d) in
      ap₂ (λ a b. sha256 (a ++ b)) (tree_root-parents d f o)
        (tree_root-parents d f (o + 2 ^ d) ∙ ap (λ t. tree_root (suc d) f t) right)

  two_to-suc : (d : ℕ) → (m : ℕ) × (two_to d ≡ suc m)
  two_to-suc d = (two_to d - 1, omega (arith, two_to_lem d, exponent-lt d))

  -- A level with at least two nodes is merged.
  merge_levels-level :
      (fuel d : ℕ) (f : ℕ → List Byte)
      → merge_levels sha256 (suc fuel) (level f (double (two_to d)))
        ≡ merge_levels sha256 fuel (level (parents f) (two_to d))
  unfolding merge_levels level double
  merge_levels-level fuel d f =
      let (m, e) = two_to-suc d in
      ap (λ t. merge_levels sha256 (suc fuel) (level f (double t))) e
      ∙ ap (λ o. and_then o (λ next. merge_levels sha256 fuel next)) (merge_pairs-level f (suc m))
      ∙ ap (λ t. merge_levels sha256 fuel (level (parents f) t)) (sym e)

  merge_levels-tree_root :
      (d fuel : ℕ) (f : ℕ → List Byte)
      → d ≤ fuel
      → merge_levels sha256 fuel (level f (two_to d)) ≡ some (tree_root d f 0)
  unfolding merge_levels level two_to tree_root
  merge_levels-tree_root zero zero f h = refl
  merge_levels-tree_root zero (suc fuel) f h = refl
  merge_levels-tree_root (suc d) zero f h = absurd (omega arith)
  merge_levels-tree_root (suc d) (suc fuel) f h =
      merge_levels-level fuel d f
      ∙ merge_levels-tree_root d fuel (parents f) (omega arith)
      ∙ ap some (tree_root-parents d f 0)

  -- For leaves that are not none, `compute_merkle_root` returns the root of a binary tree over the
  -- leaves padded with zero hashes, of the least depth `d` at which they fit; it does not panic.
  pub compute_merkle_root-tree_root :
      (leaves : List (List Byte))
      → leaves ≢ []
      → (d : ℕ) × (length leaves ≤ 2 ^ d)
        × (2 ^ d < 2 * length leaves)
        × (compute_merkle_root sha256 leaves
            ≡ some (tree_root d (λ i. get_or leaves i zero_hash) 0))
  unfolding compute_merkle_root tree_root
  compute_merkle_root-tree_root [] ne = absurd (ne refl)
  compute_merkle_root-tree_root (leaf ∷ []) ne = (0, omega arith, omega arith, refl)
  compute_merkle_root-tree_root (leaf ∷ second ∷ leaves) ne =
      let all : List (List Byte) = leaf ∷ second ∷ leaves in
      let (d, result, enough, tight) =
        next_power_from_lem (length all) (length all) 0 (omega arith) in
      (
        d,
        enough,
        elim tight [ inl same ↦ omega (arith, ap (λ t. 2 ^ t) same) | inr less ↦ less ],
        ap (λ n. merge_levels sha256 n (pad all n)) result
            ∙ ap (merge_levels sha256 (2 ^ d)) (pad-level all (2 ^ d) enough)
            ∙ ap (λ t. merge_levels sha256 (2 ^ d) (level (λ i. get_or all i zero_hash) t))
                (sym (two_to_lem d))
            ∙ merge_levels-tree_root d (2 ^ d) (λ i. get_or all i zero_hash)
                (omega (arith, exponent-lt d)),
      )
