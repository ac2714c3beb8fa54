-- ===== src/Network/Pex.antt =====
-- crates/network/src/pex.rs: the peers that a node knows, and when it last sent them its list. The
-- peer ids and addresses of libp2p are type parameters, with the equality of ids. An
-- instant is a number, and the present one is an argument.
pub mod Laws
use craftec_core.Maps.{get, insert, remove}
use craftec_core.Prelude.{
  ℕ, ◌-◌, ltb, leb, if◌then◌else◌, Bool, true, false, Option, none, some, List, [], ◌∷◌, take,
}

pub record PexManager (Peer Addr : Type 0) : Type 0 where
  pub known_peers : List (Peer × List Addr)
  pub last_sent : List (Peer × ℕ)
  pub interval : ℕ
  pub max_share : ℕ

abbrev pub elapsed_enough : ℕ → ℕ → Option ℕ → Bool
elapsed_enough now interval none = true
elapsed_enough now interval (some last_time) = leb interval (now - last_time)

module _ {Peer : Type 0} where
  -- The peers whose time is before `cutoff`.
  unfoldable pub stale_peers : ℕ → List (Peer × ℕ) → List Peer
  stale_peers cutoff [] = []
  stale_peers cutoff (entry ∷ m) =
      let rest = stale_peers cutoff m in if ltb entry.1 cutoff then entry.0 ∷ rest else rest

module _ {Peer Addr : Type 0} where
  -- `!self.known_peers.contains_key(&peer_id)`, with the new peers of the rest.
  abbrev pub push_new :
      Option (List Addr) → Peer × List Addr → List (Peer × List Addr) → List (Peer × List Addr)
  push_new none peer new_peers = peer ∷ new_peers
  push_new (some known) peer new_peers = new_peers

  abbrev pub with_config : ℕ → ℕ → PexManager Peer Addr
  with_config interval max_share = record {
    known_peers = [];
    last_sent = [];
    interval = interval;
    max_share = max_share;
  }

module _ {Peer Addr : Type 0} (same : Peer → Peer → Bool) where
  unfoldable pub add_peer : Peer → List Addr → PexManager Peer Addr → PexManager Peer Addr
  add_peer peer_id [] s = s
  add_peer peer_id (a ∷ addrs) s = record {
    known_peers = insert same peer_id (a ∷ addrs) s.known_peers;
    last_sent = s.last_sent;
    interval = s.interval;
    max_share = s.max_share;
  }

  unfoldable pub remove_peer : Peer → PexManager Peer Addr → PexManager Peer Addr
  remove_peer peer_id s = record {
    known_peers = remove same peer_id s.known_peers;
    last_sent = remove same peer_id s.last_sent;
    interval = s.interval;
    max_share = s.max_share;
  }

  unfoldable pub peers_to_share : Peer → PexManager Peer Addr → List (Peer × List Addr)
  peers_to_share exclude s = take s.max_share (remove same exclude s.known_peers)

  -- `receive_pex`: the state and the new peers.
  unfoldable pub receive_pex :
      List (Peer × List Addr)
      → PexManager Peer Addr
      → PexManager Peer Addr × List (Peer × List Addr)
  receive_pex [] s = (s, [])
  receive_pex ((peer_id, []) ∷ peers) s = receive_pex peers s
  receive_pex ((peer_id, a ∷ addrs) ∷ peers) s =
      let rest = receive_pex peers (add_peer peer_id (a ∷ addrs) s) in
      (rest.0, push_new (get same s.known_peers peer_id) (peer_id, a ∷ addrs) rest.1)

  -- `should_send`; `elapsed` is 0 for an instant that is later than the present.
  unfoldable pub should_send : ℕ → Peer → PexManager Peer Addr → Bool
  should_send now peer s = elapsed_enough now s.interval (get same s.last_sent peer)

  unfoldable pub mark_sent : ℕ → Peer → PexManager Peer Addr → PexManager Peer Addr
  mark_sent now peer s = record {
    known_peers = s.known_peers;
    last_sent = insert same peer now s.last_sent;
    interval = s.interval;
    max_share = s.max_share;
  }

  unfoldable pub remove_peers : List Peer → PexManager Peer Addr → PexManager Peer Addr
  remove_peers [] s = s
  remove_peers (p ∷ ps) s = remove_peers ps (remove_peer p s)

  -- `cleanup_stale_peers`; `none` is the panic of `Instant::now() - max_age` below the first instant.
  unfoldable pub cleanup_stale_peers : ℕ → ℕ → PexManager Peer Addr → Option (PexManager Peer Addr)
  cleanup_stale_peers now max_age s =
      if ltb now max_age
      then none
      else some (remove_peers (stale_peers (now - max_age) s.last_sent) s)
