-- ===== src/Tests/Pex.antt =====
-- An input for the theorem on pex.rs of crates/network, with numbers for peers and addresses.
use craftec_core.Network.Pex.{PexManager, with_config, add_peer, receive_pex, peers_to_share}
use craftec_core.Network.Pex.Laws.{
  Reachable, start, next_call, added, received, peers_to_share-Reachable,
}
use craftec_core.Prelude.{ℕ, ◌≤◌, ◌==◌, Bool, false, List, [], ◌∷◌, length, All, ◌≡◌, ◌≢◌}

abbrev same : ℕ → ℕ → Bool
same a b = a == b

abbrev first : PexManager ℕ ℕ
first = with_config 60 2

abbrev second : PexManager ℕ ℕ
second = add_peer same 1 (10 ∷ []) first

abbrev announced : List (ℕ × List ℕ)
announced = (2, 20 ∷ []) ∷ (3, []) ∷ (4, 40 ∷ 41 ∷ []) ∷ []

abbrev third : PexManager ℕ ℕ
third = (receive_pex same announced second).0

third-Reachable : Reachable same 60 2 third
third-Reachable =
    next_call second third (next_call first second start (added first 1 (10 ∷ [])))
      (received second announced)

peers_to_share-Reachable_example :
    All (λ e. (e.1 ≢ []) × (same e.0 1 ≡ false)) (peers_to_share same 1 third)
    × (length (peers_to_share same 1 third) ≤ 2)
peers_to_share-Reachable_example = peers_to_share-Reachable same 60 2 third 1 third-Reachable
