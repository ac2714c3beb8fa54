-- ===== src/Settlement/Instruction/Laws.antt =====
-- The types of the instruction data of crates/settlement/src/instruction.rs.
use craftec_core.Settlement.Accounts.{ℤ}
use craftec_core.Settlement.Instruction.{
  InstructionType, initialize_config_type, create_plan_type, update_plan_type, delete_plan_type,
  subscribe_type, create_creator_pool_type, fund_creator_pool_type, fund_content_type,
  post_distribution_type, claim_type, open_payment_channel_type, settle_payment_channel_type,
  close_payment_channel_type, discriminator_byte, Bincode, initialize_config, create_creator_pool,
  fund_creator_pool, fund_content, post_distribution, claim_payout, open_payment_channel,
  settle_payment_channel, close_payment_channel,
}
use craftec_core.Prelude.{
  ℕ, Option, none, some, get_elem?, List, [], ◌∷◌, Byte, u8, get_or, zero_byte, ◌≡◌, refl, sym, ap,
  ◌∙◌,
}

-- The types in the order of their numbers.
abbrev types : List InstructionType
types =
    initialize_config_type ∷ create_plan_type ∷ update_plan_type ∷ delete_plan_type ∷ subscribe_type
    ∷ create_creator_pool_type ∷ fund_creator_pool_type ∷ fund_content_type ∷ post_distribution_type
    ∷ claim_type ∷ open_payment_channel_type ∷ settle_payment_channel_type
    ∷ close_payment_channel_type ∷ []

get_elem?-types : (t : InstructionType) → get_elem? types (discriminator_byte t).value ≡ some t
unfolding discriminator_byte u8
get_elem?-types initialize_config_type = refl
get_elem?-types create_plan_type = refl
get_elem?-types update_plan_type = refl
get_elem?-types delete_plan_type = refl
get_elem?-types subscribe_type = refl
get_elem?-types create_creator_pool_type = refl
get_elem?-types fund_creator_pool_type = refl
get_elem?-types fund_content_type = refl
get_elem?-types post_distribution_type = refl
get_elem?-types claim_type = refl
get_elem?-types open_payment_channel_type = refl
get_elem?-types settle_payment_channel_type = refl
get_elem?-types close_payment_channel_type = refl

or_first : Option InstructionType → InstructionType
or_first none = initialize_config_type
or_first (some t) = t

discriminator_byte-injective :
    (t u : InstructionType) → discriminator_byte t ≡ discriminator_byte u → t ≡ u
unfolding or_first
discriminator_byte-injective t u e =
    ap or_first
      (sym (get_elem?-types t) ∙ ap (λ (b : Byte). get_elem? types b.value) e ∙ get_elem?-types u)

-- The calls of the builders.
pub data Request : Type 0 where
  configure : List Byte → Request
  create_pool : List Byte → Byte → Request
  fund_pool : List Byte → ℕ → Request
  fund : List Byte → List Byte → ℕ → Byte → Request
  post : List Byte → List Byte → ℕ → List Byte → List Byte → Request
  claim : List Byte → List Byte → ℕ → List (List Byte) → ℕ → Request
  open_channel : List Byte → List Byte → ℕ → ℤ → Request
  settle_channel : List Byte → List Byte → ℕ → ℕ → List Byte → Request
  close_channel : List Byte → List Byte → Request

unfoldable pub type_of : Request → InstructionType
type_of (configure a) = initialize_config_type
type_of (create_pool c t) = create_creator_pool_type
type_of (fund_pool c a) = fund_creator_pool_type
type_of (fund c i a t) = fund_content_type
type_of (post p r w g i) = post_distribution_type
type_of (claim p o w m i) = claim_type
type_of (open_channel u n a x) = open_payment_channel_type
type_of (settle_channel u n a x s) = settle_payment_channel_type
type_of (close_channel u n) = close_payment_channel_type

unfoldable pub build : Bincode → Request → List Byte
build bincode (configure a) = initialize_config bincode a
build bincode (create_pool c t) = create_creator_pool bincode c t
build bincode (fund_pool c a) = fund_creator_pool bincode c a
build bincode (fund c i a t) = fund_content bincode c i a t
build bincode (post p r w g i) = post_distribution bincode p r w g i
build bincode (claim p o w m i) = claim_payout bincode p o w m i
build bincode (open_channel u n a x) = open_payment_channel bincode u n a x
build bincode (settle_channel u n a x s) = settle_payment_channel bincode u n a x s
build bincode (close_channel u n) = close_payment_channel bincode u n

first_of : List Byte → Byte
first_of bytes = get_or bytes 0 zero_byte

first_of-build :
    (bincode : Bincode) (r : Request) → first_of (build bincode r) ≡ discriminator_byte (type_of r)
unfolding first_of build type_of
first_of-build bincode (configure a) = refl
first_of-build bincode (create_pool c t) = refl
first_of-build bincode (fund_pool c a) = refl
first_of-build bincode (fund c i a t) = refl
first_of-build bincode (post p r w g i) = refl
first_of-build bincode (claim p o w m i) = refl
first_of-build bincode (open_channel u n a x) = refl
first_of-build bincode (settle_channel u n a x s) = refl
first_of-build bincode (close_channel u n) = refl

-- Two calls of builders that give the same instruction data are of the same type, whatever bytes
-- bincode gives for the payloads.
pub build-type_of :
    (bincode : Bincode) (r s : Request) → build bincode r ≡ build bincode s → type_of r ≡ type_of s
build-type_of bincode r s e =
    discriminator_byte-injective (type_of r) (type_of s)
      (sym (first_of-build bincode r) ∙ ap first_of e ∙ first_of-build bincode s)
