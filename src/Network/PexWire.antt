-- ===== src/Network/PexWire.antt =====
-- crates/network/src/pex_wire.rs: the message of a peer exchange. The peer ids and addresses of libp2p
-- are types with their bytes, and JSON is a parameter.
pub mod Laws
use craftec_core.Prelude.{Option, none, some, List, [], ◌∷◌, map, Byte}

pub record PexPeer : Type 0 where
  pub peer_id_bytes : List Byte
  pub addrs : List (List Byte)

pub record PexMessage : Type 0 where
  pub peers : List PexPeer

pub data PexWireError : Type 0 where
  serialization_error deserialization_error invalid_peer_id invalid_address : PexWireError

pub data Wired (A : Type 0) : Type 0 where
  ok : A → Wired A
  err : PexWireError → Wired A

-- `PeerId::to_bytes` and `from_bytes`, `Multiaddr::to_vec` and `try_from`, `serde_json::to_vec` and
-- `from_slice`; `none` is an error.
pub record Codec (Peer Addr : Type 0) : Type 0 where
  pub peer_to_bytes : Peer → List Byte
  pub peer_from_bytes : List Byte → Option Peer
  pub addr_to_vec : Addr → List Byte
  pub addr_try_from : List Byte → Option Addr
  pub to_vec : PexMessage → Option (List Byte)
  pub from_slice : List Byte → Option PexMessage

abbrev pub and_if_ok : {A B : Type 0} → Wired A → (A → Wired B) → Wired B
and_if_ok (ok a) next = next a
and_if_ok (err e) next = err e

-- `map_err(..)?`
abbrev pub ok_or : {A : Type 0} → PexWireError → Option A → Wired A
ok_or e none = err e
ok_or e (some a) = ok a

module _ {Peer Addr : Type 0} (codec : Codec Peer Addr) where
  -- `PexPeer::from_peer`
  abbrev pub from_peer : Peer × List Addr → PexPeer
  from_peer peer = record {
    peer_id_bytes = codec.peer_to_bytes peer.0;
    addrs = map codec.addr_to_vec peer.1;
  }

  -- `PexMessage::from_peers`
  abbrev pub from_peers : List (Peer × List Addr) → PexMessage
  from_peers peers = record { peers = map from_peer peers }

  -- The loop over the addresses.
  unfoldable pub to_addrs : List (List Byte) → Wired (List Addr)
  to_addrs [] = ok []
  to_addrs (bytes ∷ addrs) =
      and_if_ok (ok_or invalid_address (codec.addr_try_from bytes))
        (λ addr. and_if_ok (to_addrs addrs) (λ rest. ok (addr ∷ rest)))

  -- `PexPeer::to_peer`
  unfoldable pub to_peer : PexPeer → Wired (Peer × List Addr)
  to_peer p =
      and_if_ok (ok_or invalid_peer_id (codec.peer_from_bytes p.peer_id_bytes))
        (λ peer_id. and_if_ok (to_addrs p.addrs) (λ addrs. ok (peer_id, addrs)))

  -- `iter().map(..).collect()`, which stops at the first error.
  unfoldable pub collect_peers : List PexPeer → Wired (List (Peer × List Addr))
  collect_peers [] = ok []
  collect_peers (p ∷ peers) =
      and_if_ok (to_peer p) (λ peer. and_if_ok (collect_peers peers) (λ rest. ok (peer ∷ rest)))

  -- `PexMessage::to_peers`
  abbrev pub to_peers : PexMessage → Wired (List (Peer × List Addr))
  to_peers m = collect_peers m.peers

  -- `PexMessage::to_bytes`
  abbrev pub to_bytes : PexMessage → Wired (List Byte)
  to_bytes m = ok_or serialization_error (codec.to_vec m)

  -- `PexMessage::from_bytes`
  abbrev pub from_bytes : List Byte → Wired PexMessage
  from_bytes data' = ok_or deserialization_error (codec.from_slice data')
