-- ===== src/Settlement/Pda.antt =====
-- crates/settlement/src/pda.rs: addresses that are hashes of seeds. SHA-256 is a parameter.
pub mod Laws
use craftec_core.Prelude.{ℕ, List, [], ◌∷◌, ◌++◌, map, flatten, replicate, Byte, u8, zero_byte}

-- `PROGRAM_ID`, a placeholder.
abbrev pub program_id : List Byte
program_id = replicate 32 zero_byte

-- `b"config"`
unfoldable pub config_seed : List Byte
config_seed = map u8 (99 ∷ 111 ∷ 110 ∷ 102 ∷ 105 ∷ 103 ∷ [])

-- `b"plan"`
unfoldable pub plan_seed : List Byte
plan_seed = map u8 (112 ∷ 108 ∷ 97 ∷ 110 ∷ [])

-- `b"pool"`
unfoldable pub pool_seed : List Byte
pool_seed = map u8 (112 ∷ 111 ∷ 111 ∷ 108 ∷ [])

-- `b"creator_pool"`
unfoldable pub creator_pool_seed : List Byte
creator_pool_seed = map u8 (99 ∷ 114 ∷ 101 ∷ 97 ∷ 116 ∷ 111 ∷ 114 ∷ 95 ∷ 112 ∷ 111 ∷ 111 ∷ 108 ∷ [])

-- `b"claim_receipt"`
unfoldable pub claim_receipt_seed : List Byte
claim_receipt_seed =
    map u8 (99 ∷ 108 ∷ 97 ∷ 105 ∷ 109 ∷ 95 ∷ 114 ∷ 101 ∷ 99 ∷ 101 ∷ 105 ∷ 112 ∷ 116 ∷ [])

-- `b"treasury"`
unfoldable pub treasury_seed : List Byte
treasury_seed = map u8 (116 ∷ 114 ∷ 101 ∷ 97 ∷ 115 ∷ 117 ∷ 114 ∷ 121 ∷ [])

-- `b"payment_channel"`
unfoldable pub payment_channel_seed : List Byte
payment_channel_seed =
    map u8
      (112 ∷ 97 ∷ 121 ∷ 109 ∷ 101 ∷ 110 ∷ 116 ∷ 95 ∷ 99 ∷ 104 ∷ 97 ∷ 110 ∷ 110 ∷ 101 ∷ 108 ∷ [])

-- `b"ProgramDerivedAddress"`
unfoldable pub address_tag : List Byte
address_tag = map u8 (
    80 ∷ 114 ∷ 111 ∷ 103 ∷ 114 ∷ 97 ∷ 109 ∷ 68 ∷ 101 ∷ 114 ∷ 105 ∷ 118 ∷ 101 ∷ 100 ∷ 65 ∷ 100 ∷ 100
    ∷ 114 ∷ 101 ∷ 115 ∷ 115 ∷ [])

-- What `derive_pda` feeds to the hash function.
abbrev pub pda_message : List Byte → List (List Byte) → List Byte
pda_message program seeds = flatten seeds ++ program ++ address_tag

module _ (sha256 : List Byte → List Byte) (program : List Byte) where
  -- `derive_pda`
  abbrev pub derive_pda : List (List Byte) → List Byte
  derive_pda seeds = sha256 (pda_message program seeds)

  abbrev pub config_pda : List Byte
  config_pda = derive_pda (config_seed ∷ [])

  abbrev pub treasury_pda : List Byte
  treasury_pda = derive_pda (treasury_seed ∷ [])

  abbrev pub creator_pool_pda : List Byte → List Byte
  creator_pool_pda creator_pubkey = derive_pda (creator_pool_seed ∷ creator_pubkey ∷ [])

  abbrev pub pool_pda : List Byte → List Byte
  pool_pda pool_pubkey = derive_pda (pool_seed ∷ pool_pubkey ∷ [])

  abbrev pub plan_pda : Byte → Byte → Byte → List Byte
  plan_pda service tier billing_period =
      derive_pda (plan_seed ∷ (service ∷ []) ∷ (tier ∷ []) ∷ (billing_period ∷ []) ∷ [])

  abbrev pub claim_receipt_pda : List Byte → List Byte → List Byte
  claim_receipt_pda pool_pubkey operator_pubkey =
      derive_pda (claim_receipt_seed ∷ pool_pubkey ∷ operator_pubkey ∷ [])

  abbrev pub payment_channel_pda : List Byte → List Byte → List Byte
  payment_channel_pda user_pubkey node_pubkey =
      derive_pda (payment_channel_seed ∷ user_pubkey ∷ node_pubkey ∷ [])
