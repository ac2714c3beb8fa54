-- ===== src/Identity/Did/Laws.antt =====
-- Parsing and reading an identifier of crates/identity/src/did.rs.
use craftec_core.Identity.Did.{
  Did, DidError, Parsed, ok, err, invalid_format, invalid_key_length, Base58, did_prefix, copy_key,
  parse_key, from_pubkey, to_pubkey, parse_encoded, from_str,
}
use craftec_core.Prelude.{
  ◌≤◌, ◌==◌, ==_iff, leb, if◌then◌else◌, Bool, true, false, Option, none, some, and_then, List, [],
  ◌∷◌, ◌++◌, take, drop, length, length-take, take-append, drop-append, length-append, Byte, key_eq,
  key_eq_refl, key_eq_sound, arith, ◌≡◌, ◌≢◌, refl, sym, ap, ◌∙◌,
}

module _ (bs58 : Base58) where
  -- A key of 32 bytes is not written as nothing.
  encode_nonempty :
      (pubkey : List Byte)
      → bs58.decode (bs58.encode pubkey) ≡ some pubkey
      → bs58.decode [] ≡ some []
      → length pubkey ≡ 32
      → bs58.encode pubkey ≢ []
  encode_nonempty pubkey back nothing size e =
      let both : some pubkey ≡ some [] = sym back ∙ ap bs58.decode e ∙ nothing in
      let empty : pubkey ≡ [] = cc in omega (arith, ap (λ (xs : List Byte). length xs) empty)

  parse_encoded_lem :
      (s encoded bytes : List Byte)
      → encoded ≢ []
      → bs58.decode encoded ≡ some bytes
      → length bytes ≡ 32
      → parse_encoded bs58 s encoded ≡ ok (record { text = s })
  parse_encoded_lem s [] bytes nonempty decoded size = absurd (nonempty refl)
  parse_encoded_lem s (b ∷ encoded) bytes nonempty decoded size =
      let fits : (length bytes == 32) ≡ true = (==_iff _ _).1 size in
      ap (parse_key s) decoded ∙ rw fits refl

  to_pubkey_lem :
      (s bytes : List Byte)
      → length did_prefix ≤ length s
      → bs58.decode (drop (length did_prefix) s) ≡ some bytes
      → length bytes ≡ 32
      → to_pubkey bs58 (record { text = s }) ≡ some bytes
  unfolding to_pubkey
  to_pubkey_lem s bytes long decoded size =
      let room : leb (length did_prefix) (length s) ≡ true = ground arith in
      let fits : (length bytes == 32) ≡ true = (==_iff _ _).1 size in
      rw room (ap (λ o. and_then o copy_key) decoded ∙ rw fits refl)

  -- Let bs58 read back what it writes of a key of 32 bytes, and nothing as no bytes. Then the
  -- identifier of the key is parsed as itself, and the key is read back from it.
  pub from_str-from_pubkey :
      (pubkey : List Byte)
      → bs58.decode (bs58.encode pubkey) ≡ some pubkey
      → bs58.decode [] ≡ some []
      → length pubkey ≡ 32
      → (from_str bs58 (from_pubkey bs58 pubkey).text ≡ ok (from_pubkey bs58 pubkey))
        × (to_pubkey bs58 (from_pubkey bs58 pubkey) ≡ some pubkey)
  unfolding from_str
  from_str-from_pubkey pubkey back nothing size =
      let encoded : List Byte = bs58.encode pubkey in
      let s : List Byte = did_prefix ++ encoded in
      let cut : drop (length did_prefix) s ≡ encoded = drop-append did_prefix encoded in
      let starts : key_eq (take (length did_prefix) s) did_prefix ≡ true =
        ap (λ t. key_eq t did_prefix) (take-append did_prefix encoded) ∙ key_eq_refl did_prefix in
      (
        ap
              (λ b.
                if b then parse_encoded bs58 s (drop (length did_prefix) s) else err invalid_format)
              starts
            ∙ ap (parse_encoded bs58 s) cut
            ∙ parse_encoded_lem s encoded pubkey (encode_nonempty pubkey back nothing size) back
                size,
        to_pubkey_lem s pubkey (omega (arith, length-append did_prefix encoded))
            (ap bs58.decode cut ∙ back) size,
      )

parsed_if :
    (b : Bool) (x y : Did) (e : DidError)
    → (if b then ok x else err e) ≡ ok y
    → (b ≡ true) × (x ≡ y)
parsed_if true x y e h = (refl, cc)
parsed_if false x y e h = absurd cc

parse_key-ok :
    (s : List Byte) (o : Option (List Byte)) (d : Did)
    → parse_key s o ≡ ok d
    → (bytes : List Byte) × (o ≡ some bytes) × (length bytes ≡ 32) × (record { text = s } ≡ d)
parse_key-ok s none d e = absurd cc
parse_key-ok s (some bytes) d e =
    let (fits, same) =
      parsed_if (length bytes == 32) (record { text = s }) d (invalid_key_length (length bytes))
        e in
    (bytes, refl, (==_iff (length bytes) 32).0 fits, same)

module _ (bs58 : Base58) where
  parse_encoded-ok :
      (s encoded : List Byte) (d : Did)
      → parse_encoded bs58 s encoded ≡ ok d
      → (bytes : List Byte) × (bs58.decode encoded ≡ some bytes)
        × (length bytes ≡ 32)
        × (record { text = s } ≡ d)
  parse_encoded-ok s [] d e = absurd cc
  parse_encoded-ok s (b ∷ encoded) d e = parse_key-ok s (bs58.decode (b ∷ encoded)) d e

  starting :
      (b : Bool) (x : Parsed) (d : Did)
      → (if b then x else err invalid_format) ≡ ok d
      → (b ≡ true) × (x ≡ ok d)
  starting true x d h = (refl, h)
  starting false x d h = absurd cc

  -- What `from_str` accepts is the identifier with that text, and `to_pubkey` of it does not panic, but
  -- gives a key of 32 bytes.
  pub to_pubkey-from_str :
      (s : List Byte) (d : Did)
      → from_str bs58 s ≡ ok d
      → (key : List Byte) × (to_pubkey bs58 d ≡ some key) × (length key ≡ 32) × (d.text ≡ s)
  unfolding from_str
  to_pubkey-from_str s d e =
      let tail : List Byte = drop (length did_prefix) s in
      let (starts, rest) =
        starting (key_eq (take (length did_prefix) s) did_prefix) (parse_encoded bs58 s tail) d e in
      let (key, decoded, size, same) = parse_encoded-ok s tail d rest in
      let head = key_eq_sound (take (length did_prefix) s) did_prefix starts in
      let long : length did_prefix ≤ length s =
        omega (arith, length-take (length did_prefix) s, ap (λ (xs : List Byte). length xs) head) in
      (
        key,
        ap (to_pubkey bs58) (sym same) ∙ to_pubkey_lem bs58 s key long decoded size,
        size,
        ap (λ (x : Did). x.text) (sym same),
      )
