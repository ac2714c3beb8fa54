-- ===== src/Tests/Identity.antt =====
-- Inputs for the theorems on crates/identity and crates/network/src/pex_wire.rs.
use craftec_core.Identity.Did.{ok, Base58, did_prefix, from_pubkey, to_pubkey, from_str}
use craftec_core.Identity.Did.Laws.{from_str-from_pubkey, to_pubkey-from_str}
use craftec_core.Network.PexWire as PexWire
use craftec_core.Network.PexWire.{Codec, from_peers, to_peers, to_bytes, from_bytes, and_if_ok}
use craftec_core.Network.PexWire.Laws.{IsCodec, to_peers-from_bytes}
use craftec_core.Prelude.{some, List, [], ◌∷◌, ◌++◌, replicate, length, Byte, u8, ◌≡◌, refl}

abbrev key : List Byte
key = replicate 32 (u8 7)

-- Texts that are the bytes themselves.
abbrev plain : Base58
plain = record { encode = λ b. b; decode = λ b. some b }

from_str-from_pubkey_example :
    (from_str plain (from_pubkey plain key).text ≡ ok (from_pubkey plain key))
    × (to_pubkey plain (from_pubkey plain key) ≡ some key)
from_str-from_pubkey_example = from_str-from_pubkey plain key refl refl refl

to_pubkey-from_str_example :
    (k : List Byte) × (to_pubkey plain (from_pubkey plain key) ≡ some k)
    × (length k ≡ 32)
    × ((from_pubkey plain key).text ≡ did_prefix ++ key)
to_pubkey-from_str_example =
    to_pubkey-from_str plain (did_prefix ++ key) (from_pubkey plain key)
      (from_str-from_pubkey plain key refl refl refl).0

-- A node with an address.
abbrev node : List Byte × List (List Byte)
node = (u8 1 ∷ [], (u8 2 ∷ []) ∷ [])

-- Ids and addresses are their bytes, and the one message is that of the node.
abbrev bytes_codec : Codec (List Byte) (List Byte)
bytes_codec = record {
  peer_to_bytes = λ p. p;
  peer_from_bytes = λ b. some b;
  addr_to_vec = λ a. a;
  addr_try_from = λ b. some b;
  to_vec = λ m. some (u8 3 ∷ []);
  from_slice = λ b.
      some (record { peers = record { peer_id_bytes = u8 1 ∷ []; addrs = (u8 2 ∷ []) ∷ [] } ∷ [] });
}

bytes_codec-IsCodec : IsCodec bytes_codec
bytes_codec-IsCodec = record { peer_back = λ p. refl; addr_back = λ a. refl }

to_peers-from_bytes_example :
    (to_bytes bytes_codec (from_peers bytes_codec (node ∷ [])) ≡ PexWire.ok (u8 3 ∷ []))
    × (and_if_ok (from_bytes bytes_codec (u8 3 ∷ [])) (λ m. to_peers bytes_codec m)
        ≡ PexWire.ok (node ∷ []))
to_peers-from_bytes_example =
    to_peers-from_bytes bytes_codec bytes_codec-IsCodec (node ∷ []) (u8 3 ∷ []) refl refl
