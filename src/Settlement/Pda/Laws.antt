-- ===== src/Settlement/Pda/Laws.antt =====
-- The addresses of crates/settlement/src/pda.rs, by the accounts that they are of.
use craftec_core.Settlement.Accounts.Laws.{IsCollision, hash-cases}
use craftec_core.Settlement.Pda.{
  config_seed, plan_seed, pool_seed, creator_pool_seed, claim_receipt_seed, treasury_seed,
  payment_channel_seed, address_tag, pda_message, config_pda, treasury_pda, creator_pool_pda,
  pool_pda, plan_pda, claim_receipt_pda, payment_channel_pda,
}
use craftec_core.Prelude.{
  ℕ, List, [], ◌∷◌, ◌++◌, length, length-append, flatten, take, drop, get_or, zero_byte,
  take_at-append, append_assoc, ◌==◌, if◌then◌else◌, Byte, append-injective, arith, ◌≡◌, ◌⊎◌, inl,
  inr, refl, sym, ap, ap₂, ◌∙◌, drop_at-append,
}

-- The accounts of the program, and what each is found by.
pub data Account : Type 0 where
  config treasury : Account
  creator_pool pool : List Byte → Account
  plan : Byte → Byte → Byte → Account
  claim_receipt payment_channel : List Byte → List Byte → Account

unfoldable pub address : (List Byte → List Byte) → List Byte → Account → List Byte
address sha256 program config = config_pda sha256 program
address sha256 program treasury = treasury_pda sha256 program
address sha256 program (creator_pool c) = creator_pool_pda sha256 program c
address sha256 program (pool p) = pool_pda sha256 program p
address sha256 program (plan s t b) = plan_pda sha256 program s t b
address sha256 program (claim_receipt p o) = claim_receipt_pda sha256 program p o
address sha256 program (payment_channel u n) = payment_channel_pda sha256 program u n

-- The seeds that the account's address is derived from.
abbrev pub seeds_of : Account → List (List Byte)
seeds_of config = config_seed ∷ []
seeds_of treasury = treasury_seed ∷ []
seeds_of (creator_pool c) = creator_pool_seed ∷ c ∷ []
seeds_of (pool p) = pool_seed ∷ p ∷ []
seeds_of (plan s t b) = plan_seed ∷ (s ∷ []) ∷ (t ∷ []) ∷ (b ∷ []) ∷ []
seeds_of (claim_receipt p o) = claim_receipt_seed ∷ p ∷ o ∷ []
seeds_of (payment_channel u n) = payment_channel_seed ∷ u ∷ n ∷ []

-- The keys of an account have 32 bytes.
unfoldable pub IsKeyed : Account → Type 0
IsKeyed config = Unit
IsKeyed treasury = Unit
IsKeyed (creator_pool c) = length c ≡ 32
IsKeyed (pool p) = length p ≡ 32
IsKeyed (plan s t b) = Unit
IsKeyed (claim_receipt p o) = (length p ≡ 32) × (length o ≡ 32)
IsKeyed (payment_channel u n) = (length u ≡ 32) × (length n ≡ 32)

address_lem :
    (sha256 : List Byte → List Byte) (program : List Byte) (a : Account)
    → address sha256 program a ≡ sha256 (pda_message program (seeds_of a))
unfolding address
address_lem sha256 program config = refl
address_lem sha256 program treasury = refl
address_lem sha256 program (creator_pool c) = refl
address_lem sha256 program (pool p) = refl
address_lem sha256 program (plan s t b) = refl
address_lem sha256 program (claim_receipt p o) = refl
address_lem sha256 program (payment_channel u n) = refl

-- How long the seeds of each account are; no two kinds have the same length.
size_of : Account → ℕ
size_of config = 6
size_of treasury = 8
size_of (creator_pool c) = 44
size_of (pool p) = 36
size_of (plan s t b) = 7
size_of (claim_receipt p o) = 77
size_of (payment_channel u n) = 79

length-seeds_of : (a : Account) → IsKeyed a → length (flatten (seeds_of a)) ≡ size_of a
unfolding IsKeyed size_of config_seed treasury_seed creator_pool_seed pool_seed plan_seed
    claim_receipt_seed payment_channel_seed
length-seeds_of config h = refl
length-seeds_of treasury h = refl
length-seeds_of (creator_pool c) h = omega (arith, length-append c [], h)
length-seeds_of (pool p) h = omega (arith, length-append p [], h)
length-seeds_of (plan s t b) h = refl
length-seeds_of (claim_receipt p o) h =
    omega (arith, length-append p (o ++ []), length-append o [], h.0, h.1)
length-seeds_of (payment_channel u n) h =
    omega (arith, length-append u (n ++ []), length-append n [], h.0, h.1)

-- The account with seeds of some length.
account_of : ℕ → List Byte → Account
account_of n bytes =
    if n == 6
    then config
    else if n == 8
    then treasury
    else if n == 44
    then creator_pool (take 32 (drop 12 bytes))
    else if n == 36
    then pool (take 32 (drop 4 bytes))
    else if n == 7
    then plan (get_or bytes 4 zero_byte) (get_or bytes 5 zero_byte) (get_or bytes 6 zero_byte)
    else if n == 77
    then claim_receipt (take 32 (drop 13 bytes)) (take 32 (drop 32 (drop 13 bytes)))
    else payment_channel (take 32 (drop 15 bytes)) (take 32 (drop 32 (drop 15 bytes)))

second_key :
    (p o : List Byte) → length p ≡ 32 → length o ≡ 32 → take 32 (drop 32 (p ++ (o ++ []))) ≡ o
second_key p o hp ho = ap (take 32) (drop_at-append 32 p (o ++ []) hp) ∙ take_at-append 32 o [] ho

account_of-seeds_of : (a : Account) → IsKeyed a → account_of (size_of a) (flatten (seeds_of a)) ≡ a
unfolding account_of size_of IsKeyed config_seed treasury_seed creator_pool_seed pool_seed plan_seed
    claim_receipt_seed payment_channel_seed
account_of-seeds_of config h = refl
account_of-seeds_of treasury h = refl
account_of-seeds_of (creator_pool c) h = ap creator_pool (take_at-append 32 c [] h)
account_of-seeds_of (pool p) h = ap pool (take_at-append 32 p [] h)
account_of-seeds_of (plan s t b) h = refl
account_of-seeds_of (claim_receipt p o) h =
    ap₂ claim_receipt (take_at-append 32 p (o ++ []) h.0) (second_key p o h.0 h.1)
account_of-seeds_of (payment_channel u n) h =
    ap₂ payment_channel (take_at-append 32 u (n ++ []) h.0) (second_key u n h.0 h.1)

-- The message of an account determines it.
pda_message-injective :
    (program : List Byte) (a b : Account)
    → IsKeyed a
    → IsKeyed b
    → pda_message program (seeds_of a) ≡ pda_message program (seeds_of b)
    → a ≡ b
pda_message-injective program a b ha hb e =
    let left : List Byte = flatten (seeds_of a) in
    let right : List Byte = flatten (seeds_of b) in
    let tail : List Byte = program ++ address_tag in
    let parts : left ++ tail ≡ right ++ tail =
      sym (append_assoc left program address_tag) ∙ e ∙ append_assoc right program address_tag in
    let sizes : length left ≡ length right =
      omega (arith, ap length parts, length-append left tail, length-append right tail) in
    let (seeds, tails) = append-injective left tail right tail sizes parts in
    let size : size_of a ≡ size_of b = sym (length-seeds_of a ha) ∙ sizes ∙ length-seeds_of b hb in
    sym (account_of-seeds_of a ha) ∙ ap₂ account_of size seeds ∙ account_of-seeds_of b hb

-- Two accounts of one program, whose keys have 32 bytes, have the same address only if they are the
-- same account, or if their two messages, the seeds followed by the program and the tag, are a
-- collision of the hash function.
pub address-cases :
    (sha256 : List Byte → List Byte) (program : List Byte) (a b : Account)
    → IsKeyed a
    → IsKeyed b
    → address sha256 program a ≡ address sha256 program b
    → (a ≡ b)
      ⊎ IsCollision sha256 (pda_message program (seeds_of a)) (pda_message program (seeds_of b))
address-cases sha256 program a b ha hb e =
    let m : List Byte = pda_message program (seeds_of a) in
    let n : List Byte = pda_message program (seeds_of b) in
    elim (hash-cases sha256 m n
      (sym (address_lem sha256 program a) ∙ e ∙ address_lem sha256 program b)) [
        | inl same ↦ inl (pda_message-injective program a b ha hb same)
        | inr found ↦ inr found
      ]
