-- ===== src/Erasure/Config.antt =====
-- `ErasureConfig`, `ErasureError` and `CodedPiece` of crates/erasure/src/lib.rs. A `usize` is a
-- number; sizes near 2^64 are outside the model.
use craftec_core.Prelude.{ℕ, ◌+◌, ◌-◌, ◌*◌, ◌/◌, max, List, Byte}

abbrev pub default_piece_size : ℕ
default_piece_size = 262_144

abbrev pub default_segment_size : ℕ
default_segment_size = 10_485_760

abbrev pub default_initial_parity : ℕ
default_initial_parity = 20

pub record ErasureConfig : Type 0 where
  pub piece_size : ℕ
  pub segment_size : ℕ
  pub initial_parity : ℕ

abbrev pub default_config : ErasureConfig
default_config = record {
  piece_size = default_piece_size;
  segment_size = default_segment_size;
  initial_parity = default_initial_parity;
}

-- `usize::div_ceil`, at a divisor that is not 0.
abbrev pub div_ceil : ℕ → ℕ → ℕ
div_ceil a b = (a + b - 1) / b

-- `ErasureConfig::k`. A `piece_size` of 0 panics in the source, and is outside the domain here.
unfoldable pub k : ErasureConfig → ℕ
k c = c.segment_size / c.piece_size

-- `ErasureConfig::k_for_segment`, at a `piece_size` that is not 0.
unfoldable pub k_for_segment : ErasureConfig → ℕ → ℕ
k_for_segment c segment_bytes = max (div_ceil segment_bytes c.piece_size) 1

unfoldable pub parity_count : ErasureConfig → ℕ → ℕ
parity_count c pieces = pieces * c.initial_parity / 100

-- The texts of the errors are left out.
pub data ErasureError : Type 0 where
  empty_data encoding_failed decoding_failed linearly_dependent invalid_config : ErasureError
  insufficient_pieces : ℕ → ℕ → ErasureError

-- A call returns a value or an error, or panics on an index out of range or a failed subtraction.
pub data Outcome {ℓ} (A : Type ℓ) : Type ℓ where
  ok : A → Outcome A
  err : ErasureError → Outcome A
  panic : Outcome A

infixl 5 ◌>>=◌ ◌>>◌
abbrev pub ◌>>=◌ {ℓ κ} : {A : Type ℓ} {B : Type κ} → Outcome A → (A → Outcome B) → Outcome B
ok a >>= f = f a
err e >>= f = err e
panic >>= f = panic

abbrev pub ◌>>◌ {ℓ} : {B : Type ℓ} → Outcome (Unit {0}) → Outcome B → Outcome B
m >> n = m >>= λ _. n

pub record CodedPiece : Type 0 where
  pub bytes : List Byte
  pub coefficients : List Byte
