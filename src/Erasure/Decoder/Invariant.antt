-- ===== src/Erasure/Decoder/Invariant.antt =====
-- What every round of the elimination keeps: the rows stay coded over the source pieces, the columns
-- that are done stay unit columns, and the vectors that the rows are orthogonal to stay the same.
use craftec_core.Erasure.Config.{CodedPiece}
use craftec_core.Erasure.Decoder.Column.{IsColumnStep}
use craftec_core.Erasure.Decoder.Raise.{differ_test, prior}
use craftec_core.Erasure.Decoder.Rows.{row_of, coefficient, scaled_row, added_row}
use craftec_core.Erasure.Encoder.Coded.{add_scaled-IsCoded}
use craftec_core.Erasure.Encoder.Laws.{IsCoded}
use craftec_core.Gf256.{add, mul}
use craftec_core.Gf256.Laws.{add-zero, add_self, mul_comm, mul-one, mul-zero}
use craftec_core.Linear.{dot, column}
use craftec_core.Linear.Laws.{at-add_scaled, at-map-mul, dot-add_scaled, dot-map-mul}
use craftec_core.Prelude.{
  ℕ, ◌+◌, ◌≤◌, ◌<◌, ◌==◌, ==_iff, if◌then◌else◌, Bool-cases, inl, inr, List, length, length-map,
  Byte, zero_byte, one_byte, arith, ◌≡◌, ◌≢◌, refl, sym, ap, ◌∙◌, subst,
}
use native.Mathlib.Decide.{ℕ_discrete}

scaled_row-IsCoded :
    (sources : List (List Byte)) (size : ℕ) (a : Byte) (p : CodedPiece)
    → IsCoded sources size p
    → IsCoded sources size (scaled_row a p)
unfolding scaled_row
scaled_row-IsCoded sources size a p c = record {
  coefficients_length = length-map p.coefficients (mul a) ∙ c.coefficients_length;
  bytes_length = length-map p.bytes (mul a) ∙ c.bytes_length;
  bytes_at = λ j h.
      at-map-mul a p.bytes j
      ∙ ap (mul a) (c.bytes_at j h)
      ∙ sym (dot-map-mul a p.coefficients (column j sources));
}

added_row-IsCoded :
    (sources : List (List Byte)) (size : ℕ) (a : Byte) (p q : CodedPiece)
    → IsCoded sources size p
    → IsCoded sources size q
    → IsCoded sources size (added_row a p q)
unfolding added_row
added_row-IsCoded sources size a p q cp cq = add_scaled-IsCoded sources size a p q cp cq

coefficient-scaled_row :
    (a : Byte) (p : CodedPiece) (c : ℕ) → coefficient (scaled_row a p) c ≡ mul a (coefficient p c)
unfolding scaled_row
coefficient-scaled_row a p c = at-map-mul a p.coefficients c

coefficient-added_row :
    (a : Byte) (p q : CodedPiece) (c : ℕ)
    → c < length p.coefficients
    → coefficient (added_row a p q) c ≡ add (coefficient p c) (mul a (coefficient q c))
unfolding added_row
coefficient-added_row a p q c h = at-add_scaled a p.coefficients q.coefficients c h

-- The product of the coefficients of a row with a vector.
abbrev pub value_at : List Byte → CodedPiece → Byte
value_at x p = dot p.coefficients x

pub value_at-scaled_row :
    (x : List Byte) (a : Byte) (p : CodedPiece) → value_at x (scaled_row a p) ≡ mul a (value_at x p)
unfolding scaled_row
value_at-scaled_row x a p = dot-map-mul a p.coefficients x

pub value_at-added_row :
    (x : List Byte) (a : Byte) (p q : CodedPiece)
    → length q.coefficients ≤ length p.coefficients
    → value_at x (added_row a p q) ≡ add (value_at x p) (mul a (value_at x q))
unfolding added_row
value_at-added_row x a p q h = dot-add_scaled a p.coefficients q.coefficients x h

-- 1 on the diagonal, 0 elsewhere.
abbrev pub delta : ℕ → ℕ → Byte
delta r c = if r == c then one_byte else zero_byte

pub record IsReduced (sources : List (List Byte)) (size k col : ℕ) (rows : List CodedPiece)
    : Type 0 where
  pub count : length rows ≡ k
  pub coded : (r : ℕ) → r < k → IsCoded sources size (row_of rows r)
  pub units : (r c : ℕ) → r < k → c < col → coefficient (row_of rows r) c ≡ delta r c

module _ (sources : List (List Byte)) (size k col : ℕ) (rows next : List CodedPiece)
    (width : length sources ≡ k) (hc : col < k) (inv : IsReduced sources size k col rows)
    (step : IsColumnStep k col rows next) where
  pivot_row : CodedPiece
  pivot_row = row_of rows step.p

  pivot : CodedPiece
  pivot = scaled_row step.i pivot_row

  pub prior-cases :
      (P : CodedPiece → Type 0)
      → ((r : ℕ) → r < k → P (row_of rows r))
      → (r : ℕ) → r < k
      → P (prior rows col step.p r)
  prior-cases P all r h = elim (Bool-cases (r == step.p)) [
    | inl e ↦ rw e (all col hc)
    | inr e ↦ rw e (all r h)
  ]

  pivot-IsCoded : IsCoded sources size pivot
  unfolding pivot pivot_row
  pivot-IsCoded = scaled_row-IsCoded sources size step.i _ (inv.coded step.p step.high)

  pub step-IsCoded : (r : ℕ) → r < k → IsCoded sources size (row_of next r)
  unfolding pivot pivot_row
  step-IsCoded r h = elim (ℕ_discrete r col) [
    | yes same ↦
        subst (λ t. IsCoded sources size t) (sym (ap (row_of next) same ∙ step.at_pivot))
          pivot-IsCoded
    | no differ ↦
        subst (λ t. IsCoded sources size t) (sym (step.elsewhere r h differ))
          (added_row-IsCoded sources size _ (prior rows col step.p r) pivot
            (prior-cases (IsCoded sources size) inv.coded r h) pivot-IsCoded)
  ]

pub delta_self : (r : ℕ) → delta r r ≡ one_byte
delta_self r = rw ((==_iff r r).1 refl)

pub delta_ne : (r c : ℕ) → r ≢ c → delta r c ≡ zero_byte
delta_ne r c ne = rw (differ_test r c ne)

module _ (sources : List (List Byte)) (size k col : ℕ) (rows next : List CodedPiece)
    (width : length sources ≡ k) (hc : col < k) (inv : IsReduced sources size k col rows)
    (step : IsColumnStep k col rows next) where
  -- Left of the column the pivot row is 0, and in the column it is 1.
  pivot_left :
      (c : ℕ) → c < col → coefficient (scaled_row step.i (row_of rows step.p)) c ≡ zero_byte
  pivot_left c h =
      coefficient-scaled_row step.i (row_of rows step.p) c
      ∙ ap (mul step.i)
          (inv.units step.p c step.high h ∙ delta_ne step.p c (omega (arith, step.low)))
      ∙ mul-zero step.i

  pivot_here : coefficient (scaled_row step.i (row_of rows step.p)) col ≡ one_byte
  pivot_here =
      coefficient-scaled_row step.i (row_of rows step.p) col
      ∙ mul_comm step.i (coefficient (row_of rows step.p) col)
      ∙ step.unit

  prior_units :
      (r c : ℕ) → r < k → r ≢ col → c < col → coefficient (prior rows col step.p r) c ≡ delta r c
  prior_units r c h ne hl = elim (Bool-cases (r == step.p)) [
    | inl e ↦
        let same : r ≡ step.p = (==_iff r step.p).0 e in
        rw e (
          inv.units col c hc hl
          ∙ delta_ne col c (omega arith)
          ∙ sym (delta_ne r c (omega (arith, step.low))))
    | inr e ↦ rw e (inv.units r c h hl)
  ]

  length-prior : (r : ℕ) → r < k → length (prior rows col step.p r).coefficients ≡ k
  length-prior r h =
      prior-cases sources size k col rows next width hc inv step (λ t. length t.coefficients ≡ k)
        (λ j lt. (inv.coded j lt).coefficients_length ∙ width) r h

  other_units :
      (r c : ℕ) → r < k → r ≢ col → c < col + 1 → coefficient (row_of next r) c ≡ delta r c
  other_units r c h ne hl =
      let before = prior rows col step.p r in
      let f = coefficient before col in
      ap (λ t. coefficient t c) (step.elsewhere r h ne)
      ∙ coefficient-added_row f before (scaled_row step.i (row_of rows step.p)) c
          (omega (arith, length-prior r h))
      ∙ elim (ℕ_discrete c col) [
        | yes same ↦
            ap
              (λ t.
                add (coefficient before t)
                  (mul f (coefficient (scaled_row step.i (row_of rows step.p)) t)))
              same
            ∙ ap (λ t. add f (mul f t)) pivot_here
            ∙ ap (add f) (mul-one f)
            ∙ add_self f
            ∙ sym (delta_ne r c (λ e. ne (e ∙ same)))
        | no differ ↦
            ap (λ t. add (coefficient before c) (mul f t)) (pivot_left c (omega arith))
            ∙ ap (add (coefficient before c)) (mul-zero f)
            ∙ add-zero (coefficient before c)
            ∙ prior_units r c h ne (omega arith)
      ]

  pivot_units : (c : ℕ) → c < col + 1 → coefficient (row_of next col) c ≡ delta col c
  pivot_units c hl = ap (λ t. coefficient t c) step.at_pivot ∙ elim (ℕ_discrete c col) [
    | yes same ↦
        ap (coefficient (scaled_row step.i (row_of rows step.p))) same
        ∙ pivot_here
        ∙ sym (ap (delta col) same ∙ delta_self col)
    | no differ ↦ pivot_left c (omega arith) ∙ sym (delta_ne col c (λ e. differ (sym e)))
  ]

  -- A round keeps the invariant, with one more unit column.
  pub step-IsReduced : IsReduced sources size k (col + 1) next
  step-IsReduced = record {
    count = step.count;
    coded = step-IsCoded sources size k col rows next width hc inv step;
    units = λ r c h hl. elim (ℕ_discrete r col) [
      | yes same ↦
          subst (λ t. coefficient (row_of next t) c ≡ delta t c) (sym same) (pivot_units c hl)
      | no differ ↦ other_units r c h differ hl
    ];
  }
