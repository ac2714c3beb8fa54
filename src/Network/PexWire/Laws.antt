-- ===== src/Network/PexWire/Laws.antt =====
-- Sending and receiving a message of crates/network/src/pex_wire.rs.
use craftec_core.Network.PexWire.{
  ok, serialization_error, deserialization_error, Codec, and_if_ok, ok_or, from_peer, from_peers,
  to_addrs, to_peer, collect_peers, to_peers, to_bytes, from_bytes,
}
use craftec_core.Prelude.{some, List, [], ◌∷◌, map, Byte, ◌≡◌, refl, ap, ◌∙◌}

-- What libp2p documents: ids and addresses are read back from their bytes.
pub record IsCodec {Peer Addr : Type 0} (codec : Codec Peer Addr) : Type 0 where
  pub peer_back : (p : Peer) → codec.peer_from_bytes (codec.peer_to_bytes p) ≡ some p
  pub addr_back : (a : Addr) → codec.addr_try_from (codec.addr_to_vec a) ≡ some a

module _ {Peer Addr : Type 0} (codec : Codec Peer Addr) (lawful : IsCodec codec) where
  to_addrs-map : (addrs : List Addr) → to_addrs codec (map codec.addr_to_vec addrs) ≡ ok addrs
  unfolding to_addrs
  to_addrs-map [] = refl
  to_addrs-map (a ∷ addrs) = rw (lawful.addr_back a, to_addrs-map addrs) refl

  to_peer-from_peer : (p : Peer × List Addr) → to_peer codec (from_peer codec p) ≡ ok p
  unfolding to_peer
  to_peer-from_peer p = rw (lawful.peer_back p.0, to_addrs-map p.1) refl

  collect_peers-map :
      (peers : List (Peer × List Addr))
      → collect_peers codec (map (from_peer codec) peers) ≡ ok peers
  unfolding collect_peers
  collect_peers-map [] = refl
  collect_peers-map (p ∷ peers) = rw (to_peer-from_peer p, collect_peers-map peers) refl

  -- If ids and addresses are read back from their bytes, and JSON reads back what it writes of the
  -- message of some peers, then `to_bytes` writes it, and from these bytes the peers are read back.
  pub to_peers-from_bytes :
      (peers : List (Peer × List Addr)) (bytes : List Byte)
      → codec.to_vec (from_peers codec peers) ≡ some bytes
      → codec.from_slice bytes ≡ some (from_peers codec peers)
      → (to_bytes codec (from_peers codec peers) ≡ ok bytes)
        × (and_if_ok (from_bytes codec bytes) (λ m. to_peers codec m) ≡ ok peers)
  to_peers-from_bytes peers bytes written back = (
    ap (ok_or serialization_error) written,
    ap (λ o. and_if_ok (ok_or deserialization_error o) (λ x. to_peers codec x)) back
        ∙ collect_peers-map peers,
  )
