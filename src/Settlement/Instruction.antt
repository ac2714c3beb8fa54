-- ===== src/Settlement/Instruction.antt =====
-- crates/settlement/src/instruction.rs: instruction data, and the accounts that go with it. bincode
-- is not part of the repository: `Bincode` has its function for each payload type.
pub mod Laws
use craftec_core.Settlement.Accounts.{ℤ}
use craftec_core.Settlement.Fee.{protocol_fee_bps}
use craftec_core.Settlement.Pda.{
  creator_pool_pda, claim_receipt_pda, treasury_pda, payment_channel_pda,
}
use craftec_core.Prelude.{ℕ, Bool, true, false, List, [], ◌∷◌, Byte, u8}

pub data InstructionType : Type 0 where
  initialize_config_type create_plan_type update_plan_type delete_plan_type subscribe_type
        create_creator_pool_type fund_creator_pool_type fund_content_type post_distribution_type
        claim_type open_payment_channel_type settle_payment_channel_type
        close_payment_channel_type :
      InstructionType

-- `as u8`, by `#[repr(u8)]`
unfoldable pub discriminator_byte : InstructionType → Byte
discriminator_byte initialize_config_type = u8 0
discriminator_byte create_plan_type = u8 1
discriminator_byte update_plan_type = u8 2
discriminator_byte delete_plan_type = u8 3
discriminator_byte subscribe_type = u8 4
discriminator_byte create_creator_pool_type = u8 5
discriminator_byte fund_creator_pool_type = u8 6
discriminator_byte fund_content_type = u8 7
discriminator_byte post_distribution_type = u8 8
discriminator_byte claim_type = u8 9
discriminator_byte open_payment_channel_type = u8 10
discriminator_byte settle_payment_channel_type = u8 11
discriminator_byte close_payment_channel_type = u8 12

pub record InitializeConfig : Type 0 where
  pub admin : List Byte
  pub protocol_fee_bps : ℕ

pub record CreatePlan : Type 0 where
  pub service : Byte
  pub tier : Byte
  pub billing_period : Byte
  pub price_usdc : ℕ

pub record CreateCreatorPool : Type 0 where
  pub creator : List Byte
  pub tier : Byte

pub record FundCreatorPool : Type 0 where
  pub creator : List Byte
  pub amount : ℕ

pub record FundContent : Type 0 where
  pub creator : List Byte
  pub content_id : List Byte
  pub amount : ℕ
  pub tier : Byte

pub record PostDistribution : Type 0 where
  pub pool_pubkey : List Byte
  pub distribution_root : List Byte
  pub total_weight : ℕ
  pub groth16_proof : List Byte
  pub public_inputs : List Byte

pub record ClaimPayout : Type 0 where
  pub pool_pubkey : List Byte
  pub operator_pubkey : List Byte
  pub operator_weight : ℕ
  pub merkle_proof : List (List Byte)
  pub leaf_index : ℕ

pub record OpenPaymentChannel : Type 0 where
  pub user : List Byte
  pub node : List Byte
  pub amount : ℕ
  pub expires_at : ℤ

pub record SettlePaymentChannel : Type 0 where
  pub user : List Byte
  pub node : List Byte
  pub amount : ℕ
  pub nonce : ℕ
  pub voucher_signature : List Byte

pub record ClosePaymentChannel : Type 0 where
  pub user : List Byte
  pub node : List Byte

-- `bincode::serialize` at the payload types.
pub record Bincode : Type 0 where
  pub of_initialize_config : InitializeConfig → List Byte
  pub of_create_creator_pool : CreateCreatorPool → List Byte
  pub of_fund_creator_pool : FundCreatorPool → List Byte
  pub of_fund_content : FundContent → List Byte
  pub of_post_distribution : PostDistribution → List Byte
  pub of_claim_payout : ClaimPayout → List Byte
  pub of_open_payment_channel : OpenPaymentChannel → List Byte
  pub of_settle_payment_channel : SettlePaymentChannel → List Byte
  pub of_close_payment_channel : ClosePaymentChannel → List Byte

-- `build_instruction`
abbrev pub build_instruction {ℓ} : {A : Type ℓ} → InstructionType → (A → List Byte) → A → List Byte
build_instruction discriminator serialize payload =
    discriminator_byte discriminator ∷ serialize payload

module _ (bincode : Bincode) where
  abbrev pub initialize_config : List Byte → List Byte
  initialize_config admin =
      build_instruction initialize_config_type bincode.of_initialize_config
        (record { admin = admin; protocol_fee_bps = protocol_fee_bps })

  abbrev pub create_creator_pool : List Byte → Byte → List Byte
  create_creator_pool creator tier =
      build_instruction create_creator_pool_type bincode.of_create_creator_pool
        (record { creator = creator; tier = tier })

  abbrev pub fund_creator_pool : List Byte → ℕ → List Byte
  fund_creator_pool creator amount =
      build_instruction fund_creator_pool_type bincode.of_fund_creator_pool
        (record { creator = creator; amount = amount })

  abbrev pub fund_content : List Byte → List Byte → ℕ → Byte → List Byte
  fund_content creator content_id amount tier =
      build_instruction fund_content_type bincode.of_fund_content
        (record { creator = creator; content_id = content_id; amount = amount; tier = tier })

  abbrev pub post_distribution : List Byte → List Byte → ℕ → List Byte → List Byte → List Byte
  post_distribution pool_pubkey distribution_root total_weight groth16_proof public_inputs =
      build_instruction post_distribution_type bincode.of_post_distribution (record {
        pool_pubkey = pool_pubkey;
        distribution_root = distribution_root;
        total_weight = total_weight;
        groth16_proof = groth16_proof;
        public_inputs = public_inputs;
      })

  abbrev pub claim_payout : List Byte → List Byte → ℕ → List (List Byte) → ℕ → List Byte
  claim_payout pool_pubkey operator_pubkey operator_weight merkle_proof leaf_index =
      build_instruction claim_type bincode.of_claim_payout (record {
        pool_pubkey = pool_pubkey;
        operator_pubkey = operator_pubkey;
        operator_weight = operator_weight;
        merkle_proof = merkle_proof;
        leaf_index = leaf_index;
      })

  abbrev pub open_payment_channel : List Byte → List Byte → ℕ → ℤ → List Byte
  open_payment_channel user node amount expires_at =
      build_instruction open_payment_channel_type bincode.of_open_payment_channel
        (record { user = user; node = node; amount = amount; expires_at = expires_at })

  abbrev pub settle_payment_channel : List Byte → List Byte → ℕ → ℕ → List Byte → List Byte
  settle_payment_channel user node amount nonce voucher_signature =
      build_instruction settle_payment_channel_type bincode.of_settle_payment_channel (record {
        user = user;
        node = node;
        amount = amount;
        nonce = nonce;
        voucher_signature = voucher_signature;
      })

  abbrev pub close_payment_channel : List Byte → List Byte → List Byte
  close_payment_channel user node =
      build_instruction close_payment_channel_type bincode.of_close_payment_channel
        (record { user = user; node = node })

pub record AccountMeta : Type 0 where
  pub pubkey : List Byte
  pub is_signer : Bool
  pub is_writable : Bool

-- `AccountMeta { pubkey, is_signer, is_writable: true }`
abbrev pub writable : List Byte → Bool → AccountMeta
writable pubkey is_signer = record { pubkey = pubkey; is_signer = is_signer; is_writable = true }

abbrev pub claim_payout_accounts :
    (List Byte → List Byte) → List Byte → List Byte → List Byte → List AccountMeta
claim_payout_accounts sha256 program_id pool_pubkey operator_pubkey =
    writable (creator_pool_pda sha256 program_id pool_pubkey) false
    ∷ writable (claim_receipt_pda sha256 program_id pool_pubkey operator_pubkey) false
    ∷ writable (treasury_pda sha256 program_id) false
    ∷ writable operator_pubkey true
    ∷ []

abbrev pub settle_payment_channel_accounts :
    (List Byte → List Byte) → List Byte → List Byte → List Byte → List AccountMeta
settle_payment_channel_accounts sha256 program_id user node =
    writable (payment_channel_pda sha256 program_id user node) false
    ∷ writable (treasury_pda sha256 program_id) false
    ∷ writable node true
    ∷ writable user false
    ∷ []
