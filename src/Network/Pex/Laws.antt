-- ===== src/Network/Pex/Laws.antt =====
-- What every call on a `PexManager` keeps, and what is shared with a peer.
use craftec_core.Maps.{remove}
use craftec_core.Maps.Laws.{All-fst, insert-All, remove-All}
use craftec_core.Network.Pex.{
  PexManager, with_config, add_peer, remove_peer, peers_to_share, receive_pex, mark_sent,
  stale_peers, remove_peers, cleanup_stale_peers,
}
use craftec_core.Prelude.{
  ℕ, zero, suc, ◌-◌, ◌≤◌, ltb, Bool, false, Option, none, some, List, [], ◌∷◌, take, length,
  length-take, All, arith, ◌≡◌, ◌≢◌, refl, ap, subst, inl, inr, Bool-cases,
}

All-take : {A : Type 0} (P : A → Type 0) (n : ℕ) (xs : List A) → All P xs → All P (take n xs)
All-take P zero xs all = tt
All-take P (suc n) [] all = tt
All-take P (suc n) (x ∷ xs) all = (all.0, All-take P n xs all.1)

unwrap_or : {A : Type 0} → A → Option A → A
unwrap_or a none = a
unwrap_or a (some b) = b

module _ {Peer Addr : Type 0} (same : Peer → Peer → Bool) where
  -- The calls that change a manager, at any time and with any arguments.
  pub data Step : PexManager Peer Addr → PexManager Peer Addr → Type 0 where
    added :
        (s : PexManager Peer Addr) (p : Peer) (addrs : List Addr) → Step s (add_peer same p addrs s)
    removed : (s : PexManager Peer Addr) (p : Peer) → Step s (remove_peer same p s)
    received :
        (s : PexManager Peer Addr) (peers : List (Peer × List Addr))
        → Step s (receive_pex same peers s).0
    marked : (s : PexManager Peer Addr) (now : ℕ) (p : Peer) → Step s (mark_sent same now p s)
    cleaned :
        (s t : PexManager Peer Addr) (now max_age : ℕ)
        → cleanup_stale_peers same now max_age s ≡ some t
        → Step s t

  -- The managers that calls lead to from a new one.
  pub data Reachable (interval max_share : ℕ) : PexManager Peer Addr → Type 0 where
    start : Reachable interval max_share (with_config interval max_share)
    next_call :
        (s t : PexManager Peer Addr)
        → Reachable interval max_share s
        → Step s t
        → Reachable interval max_share t

  -- Every known peer has an address, and the configuration is the one given.
  record IsConsistent (interval max_share : ℕ) (s : PexManager Peer Addr) : Type 0 where
    addresses : All (λ e. e.1 ≢ []) s.known_peers
    shares : s.max_share ≡ max_share
    waits : s.interval ≡ interval

  module _ (interval max_share : ℕ) where
    add_peer-IsConsistent :
        (p : Peer) (addrs : List Addr) (s : PexManager Peer Addr)
        → IsConsistent interval max_share s
        → IsConsistent interval max_share (add_peer same p addrs s)
    unfolding add_peer
    add_peer-IsConsistent p [] s c = c
    add_peer-IsConsistent p (a ∷ addrs) s c = record {
      addresses =
          insert-All same (λ v. v ≢ []) p (a ∷ addrs) s.known_peers
            (λ e. omega (arith, ap (λ (xs : List Addr). length xs) e)) c.addresses;
      shares = c.shares;
      waits = c.waits;
    }

    remove_peer-IsConsistent :
        (p : Peer) (s : PexManager Peer Addr)
        → IsConsistent interval max_share s
        → IsConsistent interval max_share (remove_peer same p s)
    unfolding remove_peer
    remove_peer-IsConsistent p s c = record {
      addresses =
          All-fst (λ e. e.1 ≢ []) (λ e. same e.0 p ≡ false) (remove same p s.known_peers)
            (remove-All same (λ e. e.1 ≢ []) p s.known_peers c.addresses);
      shares = c.shares;
      waits = c.waits;
    }

    remove_peers-IsConsistent :
        (ps : List Peer) (s : PexManager Peer Addr)
        → IsConsistent interval max_share s
        → IsConsistent interval max_share (remove_peers same ps s)
    unfolding remove_peers
    remove_peers-IsConsistent [] s c = c
    remove_peers-IsConsistent (p ∷ ps) s c =
        remove_peers-IsConsistent ps (remove_peer same p s) (remove_peer-IsConsistent p s c)

    receive_pex-IsConsistent :
        (peers : List (Peer × List Addr)) (s : PexManager Peer Addr)
        → IsConsistent interval max_share s
        → IsConsistent interval max_share (receive_pex same peers s).0
    unfolding receive_pex
    receive_pex-IsConsistent [] s c = c
    receive_pex-IsConsistent ((p, []) ∷ peers) s c = receive_pex-IsConsistent peers s c
    receive_pex-IsConsistent ((p, a ∷ addrs) ∷ peers) s c =
        receive_pex-IsConsistent peers (add_peer same p (a ∷ addrs) s)
          (add_peer-IsConsistent p (a ∷ addrs) s c)

    cleanup-IsConsistent :
        (now max_age : ℕ) (s : PexManager Peer Addr)
        → IsConsistent interval max_share s
        → IsConsistent interval max_share (unwrap_or s (cleanup_stale_peers same now max_age s))
    unfolding cleanup_stale_peers unwrap_or
    cleanup-IsConsistent now max_age s c = elim (Bool-cases (ltb now max_age)) [
      | inl e ↦ rw e c
      | inr e ↦ rw e (remove_peers-IsConsistent (stale_peers (now - max_age) s.last_sent) s c)
    ]

    Step-IsConsistent :
        (s t : PexManager Peer Addr)
        → Step s t
        → IsConsistent interval max_share s
        → IsConsistent interval max_share t
    unfolding unwrap_or mark_sent
    Step-IsConsistent _ _ (added s p addrs) c = add_peer-IsConsistent p addrs s c
    Step-IsConsistent _ _ (removed s p) c = remove_peer-IsConsistent p s c
    Step-IsConsistent _ _ (received s peers) c = receive_pex-IsConsistent peers s c
    Step-IsConsistent _ _ (marked s now p) c = record {
      addresses = c.addresses;
      shares = c.shares;
      waits = c.waits;
    }
    Step-IsConsistent _ _ (cleaned s t now max_age e) c =
        subst (IsConsistent interval max_share) (ap (unwrap_or s) e)
          (cleanup-IsConsistent now max_age s c)

    Reachable-IsConsistent :
        (s : PexManager Peer Addr)
        → Reachable interval max_share s
        → IsConsistent interval max_share s
    Reachable-IsConsistent _ start = record { addresses = tt; shares = refl; waits = refl }
    Reachable-IsConsistent _ (next_call s t before step) =
        Step-IsConsistent s t step (Reachable-IsConsistent s before)

  -- Whatever calls lead from a new manager to a manager, it shares with a peer at most `max_share`
  -- peers, each with an address and none of them that peer.
  pub peers_to_share-Reachable :
      (interval max_share : ℕ) (s : PexManager Peer Addr) (exclude : Peer)
      → Reachable interval max_share s
      → All (λ e. (e.1 ≢ []) × (same e.0 exclude ≡ false)) (peers_to_share same exclude s)
        × (length (peers_to_share same exclude s) ≤ max_share)
  unfolding peers_to_share
  peers_to_share-Reachable interval max_share s exclude reached =
      let c = Reachable-IsConsistent interval max_share s reached in
      let others = remove same exclude s.known_peers in
      (
        All-take (λ e. (e.1 ≢ []) × (same e.0 exclude ≡ false)) s.max_share others
            (remove-All same (λ e. e.1 ≢ []) exclude s.known_peers c.addresses),
        omega (arith, length-take s.max_share others, c.shares),
      )
