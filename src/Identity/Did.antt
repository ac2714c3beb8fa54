-- ===== src/Identity/Did.antt =====
-- crates/identity/src/did.rs: identifiers `did:craftec:<key>`. A text is its bytes; bs58 is a parameter.
pub mod Laws
use craftec_core.Prelude.{
  ℕ, ◌==◌, leb, if◌then◌else◌, Option, none, some, and_then, List, [], ◌∷◌, ◌++◌, map, take, drop,
  length, Byte, u8, key_eq,
}

-- `DID_PREFIX`, `did:craftec:`
unfoldable pub did_prefix : List Byte
did_prefix = map u8 (100 ∷ 105 ∷ 100 ∷ 58 ∷ 99 ∷ 114 ∷ 97 ∷ 102 ∷ 116 ∷ 101 ∷ 99 ∷ 58 ∷ [])

pub data DidError : Type 0 where
  invalid_format invalid_base58 : DidError
  invalid_key_length : ℕ → DidError

pub record Did : Type 0 where
  pub text : List Byte

-- What `FromStr::from_str` returns.
pub data Parsed : Type 0 where
  ok : Did → Parsed
  err : DidError → Parsed

-- `bs58::encode` and `bs58::decode`
pub record Base58 : Type 0 where
  pub encode : List Byte → List Byte
  pub decode : List Byte → Option (List Byte)

-- `key.copy_from_slice(&bytes)`, into 32 bytes; `none` is a panic.
abbrev pub copy_key : List Byte → Option (List Byte)
copy_key bytes = if length bytes == 32 then some bytes else none

-- The key portion is decoded.
abbrev pub parse_key : List Byte → Option (List Byte) → Parsed
parse_key s none = err invalid_base58
parse_key s (some bytes) =
    if length bytes == 32 then ok (record { text = s }) else err (invalid_key_length (length bytes))

module _ (bs58 : Base58) where
  -- `Did::from_pubkey`
  abbrev pub from_pubkey : List Byte → Did
  from_pubkey pubkey = record { text = did_prefix ++ bs58.encode pubkey }

  -- `Did::to_pubkey`; `none` is a panic. A text that was not parsed may be cut inside a character,
  -- where the slice panics as well; such texts are not told apart from those that bs58 refuses.
  unfoldable pub to_pubkey : Did → Option (List Byte)
  to_pubkey did =
      if leb (length did_prefix) (length did.text)
      then and_then (bs58.decode (drop (length did_prefix) did.text)) copy_key
      else none

  abbrev pub parse_encoded : List Byte → List Byte → Parsed
  parse_encoded s [] = err invalid_format
  parse_encoded s (b ∷ encoded) = parse_key s (bs58.decode (b ∷ encoded))

  -- `FromStr::from_str`
  unfoldable pub from_str : List Byte → Parsed
  from_str s =
      if key_eq (take (length did_prefix) s) did_prefix
      then parse_encoded s (drop (length did_prefix) s)
      else err invalid_format
