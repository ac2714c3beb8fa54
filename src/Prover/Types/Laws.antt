-- ===== src/Prover/Types/Laws.antt =====
-- The layout of 76 bytes is read back.
use craftec_core.Prover.Types.{DistributionOutput, copy_at, range, to_bytes, from_bytes}
use native.Mathlib.Nat.{zero-add}
use craftec_core.Prelude.{
  ℕ, zero, suc, ◌+◌, ◌-◌, ◌<◌, List, [], ◌++◌, append_assoc, append-nil, length, take, drop,
  take_at-append, drop_at-append, replicate, Byte, zero_byte, to_le_bytes, from_le_bytes,
  length-to_le_bytes, from_le_bytes-to_le_bytes, length-append, drop-drop, arith, ◌≡◌, refl, sym,
  ap, ap₂, ◌∙◌,
}

module _ {A : Type 0} where
  drop-replicate : (m n : ℕ) (a : A) → drop m (replicate (m + n) a) ≡ replicate n a
  drop-replicate zero n a = ap (λ t. replicate t a) (zero-add n)
  drop-replicate (suc m) n a =
      let e : suc m + n ≡ suc (m + n) = omega arith in
      ap (λ t. drop (suc m) (replicate t a)) e ∙ drop-replicate m n a

-- A write behind what has been written.
copy_at-append :
    (n : ℕ) (done src : List Byte) (left : ℕ)
    → length done ≡ n
    → copy_at n src (done ++ replicate (length src + left) zero_byte)
      ≡ (done ++ src) ++ replicate left zero_byte
unfolding copy_at
copy_at-append n done src left e =
    let space : List Byte = replicate (length src + left) zero_byte in
    ap₂ (λ a b. a ++ src ++ b) (take_at-append n done space e)
      (sym (drop-drop (length src) n (done ++ space))
        ∙ ap (drop (length src)) (drop_at-append n done space e)
        ∙ drop-replicate (length src) left zero_byte)

range-append :
    (start end : ℕ) (before here after : List Byte)
    → length before ≡ start
    → start + length here ≡ end
    → range start end (before ++ here ++ after) ≡ here
unfolding range
range-append start end before here after e f =
    let wide : length here ≡ end - start = omega (arith, e, f) in
    ap (λ t. take (end - start) (drop start t)) (append_assoc before here after)
    ∙ ap (take (end - start)) (drop_at-append start before (here ++ after) e)
    ∙ take_at-append (end - start) here after wide

-- An output whose root and pool are 32 bytes, and whose numbers fit `u64` and `u32`.
pub record IsSized (o : DistributionOutput) : Type 0 where
  pub root_length : length o.root ≡ 32
  pub total_weight_fits : o.total_weight < 18446744073709551616
  pub entry_count_fits : o.entry_count < 4294967296
  pub pool_id_length : length o.pool_id ≡ 32

module _ (o : DistributionOutput) (sized : IsSized o) where
  weight_bytes : List Byte
  weight_bytes = to_le_bytes 8 o.total_weight

  count_bytes : List Byte
  count_bytes = to_le_bytes 4 o.entry_count

  written :
      (n left : ℕ) (done src : List Byte) (m : ℕ)
      → length done ≡ n
      → length src + left ≡ m
      → copy_at n src (done ++ replicate m zero_byte) ≡ (done ++ src) ++ replicate left zero_byte
  written n left done src m e f =
      ap (λ t. copy_at n src (done ++ replicate t zero_byte)) (sym f)
      ∙ copy_at-append n done src left e

  -- The fields follow each other.
  to_bytes_lem : to_bytes o ≡ ((o.root ++ weight_bytes) ++ count_bytes) ++ o.pool_id
  unfolding to_bytes weight_bytes count_bytes
  to_bytes_lem =
      let w = length-to_le_bytes 8 o.total_weight in
      let c = length-to_le_bytes 4 o.entry_count in
      let second = length-append o.root weight_bytes in
      let third = length-append (o.root ++ weight_bytes) count_bytes in
      ap (λ t. copy_at 44 o.pool_id (copy_at 40 count_bytes (copy_at 32 weight_bytes t)))
        (written 0 44 [] o.root 76 refl (omega (arith, sized.root_length)))
      ∙ ap (λ t. copy_at 44 o.pool_id (copy_at 40 count_bytes t))
          (written 32 36 o.root weight_bytes 44 sized.root_length (omega (arith, w)))
      ∙ ap (copy_at 44 o.pool_id) (
          written 40 32 (o.root ++ weight_bytes) count_bytes 36
            (omega (arith, second, w, sized.root_length)) (omega (arith, c)))
      ∙ written 44 0 ((o.root ++ weight_bytes) ++ count_bytes) o.pool_id 32
          (omega (arith, third, second, w, c, sized.root_length))
          (omega (arith, sized.pool_id_length))
      ∙ append-nil _

  two : length (o.root ++ weight_bytes) ≡ 40
  unfolding weight_bytes
  two = omega (
    arith,
    length-append o.root weight_bytes,
    length-to_le_bytes 8 o.total_weight,
    sized.root_length,
  )

  three : length ((o.root ++ weight_bytes) ++ count_bytes) ≡ 44
  unfolding count_bytes
  three = omega (
    arith,
    two,
    length-append (o.root ++ weight_bytes) count_bytes,
    length-to_le_bytes 4 o.entry_count,
  )

  pub to_bytes-append :
      to_bytes o
      ≡ ((o.root ++ to_le_bytes 8 o.total_weight) ++ to_le_bytes 4 o.entry_count) ++ o.pool_id
  unfolding weight_bytes count_bytes
  to_bytes-append = to_bytes_lem

  read_root : range 0 32 (to_bytes o) ≡ o.root
  read_root =
      ap (range 0 32) (
        to_bytes_lem
        ∙ append_assoc (o.root ++ weight_bytes) count_bytes o.pool_id
        ∙ append_assoc o.root weight_bytes (count_bytes ++ o.pool_id))
      ∙ range-append 0 32 [] o.root _ refl (omega (arith, sized.root_length))

  read_weight : range 32 40 (to_bytes o) ≡ weight_bytes
  unfolding weight_bytes
  read_weight =
      ap (range 32 40) (to_bytes_lem ∙ append_assoc (o.root ++ weight_bytes) count_bytes o.pool_id)
      ∙ range-append 32 40 o.root weight_bytes _ sized.root_length
          (omega (arith, length-to_le_bytes 8 o.total_weight))

  read_count : range 40 44 (to_bytes o) ≡ count_bytes
  unfolding count_bytes
  read_count =
      ap (range 40 44) to_bytes_lem
      ∙ range-append 40 44 (o.root ++ weight_bytes) count_bytes o.pool_id two
          (omega (arith, length-to_le_bytes 4 o.entry_count))

  read_pool : range 44 76 (to_bytes o) ≡ o.pool_id
  read_pool =
      ap (range 44 76) (to_bytes_lem ∙ sym (append-nil _))
      ∙ range-append 44 76 ((o.root ++ weight_bytes) ++ count_bytes) o.pool_id [] three
          (omega (arith, sized.pool_id_length))

-- Reading what `to_bytes` writes gives the output back, and `to_bytes` writes 76 bytes, when the
-- root and the pool are 32 bytes and the numbers fit `u64` and `u32`.
pub from_bytes-to_bytes :
    (o : DistributionOutput)
    → IsSized o
    → (from_bytes (to_bytes o) ≡ o) × (length (to_bytes o) ≡ 76)
unfolding from_bytes weight_bytes count_bytes
from_bytes-to_bytes o sized =
    let weight =
      ap from_le_bytes (read_weight o sized)
      ∙ from_le_bytes-to_le_bytes 8 o.total_weight sized.total_weight_fits in
    let count =
      ap from_le_bytes (read_count o sized)
      ∙ from_le_bytes-to_le_bytes 4 o.entry_count sized.entry_count_fits in
    (
      λ i. record {
        root = read_root o sized i;
        total_weight = weight i;
        entry_count = count i;
        pool_id = read_pool o sized i;
      },
      ap length (to_bytes_lem o sized)
          ∙ length-append ((o.root ++ weight_bytes o sized) ++ count_bytes o sized) o.pool_id
          ∙ omega (arith, three o sized, sized.pool_id_length),
    )
