-- ===== src/Agent/HostFns/Laws.antt =====
-- The permissions of the calls of crates/agent-runtime/src/host_fns.rs.
use craftec_core.Agent.State.{HostState, Host, fail, if_permitted}
use craftec_core.Agent.HostFns.{
  Call, call_log, call_emit_event, call_network_send, call_dht_put, call_db_execute, call_db_query,
  call_get_config, call_storage_put, call_storage_get, call_dht_get, call_current_time, run_call,
}
use craftec_core.Agent.Permissions.{
  Capability, read_own_db, write_own_db, storage_read, storage_write, network_send, dht_access,
  check, has, denied,
}
use craftec_core.Settlement.Accounts.{ℤ, negsuc}
use craftec_core.Prelude.{if◌then◌else◌, false, Option, none, some, List, Byte, ◌≡◌, ap, ◌∙◌}

-- What a call asks for.
unfoldable pub needed : Call → Option Capability
needed (call_log a b c d) = none
needed (call_emit_event a b c d) = none
needed (call_network_send a b c d) = some network_send
needed (call_dht_put a b c d) = some dht_access
needed (call_db_execute a b) = some write_own_db
needed (call_db_query a b) = some read_own_db
needed (call_get_config a b) = none
needed (call_storage_put a b) = some storage_write
needed (call_storage_get a b) = some storage_read
needed (call_dht_get a b) = some dht_access
needed (call_current_time now) = none

module _ {Db Store : Type 0} (host : Host Db Store) where
  refused :
      (s : HostState Db Store) (cap : Capability) (rest : Option (HostState Db Store × Option ℤ))
      → has s.permissions cap ≡ false
      → if_permitted (check s.permissions cap) s rest ≡ fail s
  refused s cap rest e = ap (λ b. if_permitted (if b then none else some (denied cap)) s rest) e

  some-injective : (a b : Capability) → some a ≡ some b → a ≡ b
  some-injective a b e = cc

  -- A call whose capability the agent does not have returns -1, whatever its arguments and the memory
  -- of the guest are, and changes nothing.
  pub run_call-fail :
      (call : Call) (memory : Option (List Byte)) (s : HostState Db Store) (cap : Capability)
      → needed call ≡ some cap
      → has s.permissions cap ≡ false
      → run_call host call memory s ≡ some (s, some (negsuc 0))
  unfolding run_call needed
  run_call-fail (call_log a b c d) memory s cap e none_there = absurd cc
  run_call-fail (call_emit_event a b c d) memory s cap e none_there = absurd cc
  run_call-fail (call_network_send a b c d) memory s cap e none_there =
      refused s network_send _ (ap (has s.permissions) (some-injective _ _ e) ∙ none_there)
  run_call-fail (call_dht_put a b c d) memory s cap e none_there =
      refused s dht_access _ (ap (has s.permissions) (some-injective _ _ e) ∙ none_there)
  run_call-fail (call_db_execute a b) memory s cap e none_there =
      refused s write_own_db _ (ap (has s.permissions) (some-injective _ _ e) ∙ none_there)
  run_call-fail (call_db_query a b) memory s cap e none_there =
      refused s read_own_db _ (ap (has s.permissions) (some-injective _ _ e) ∙ none_there)
  run_call-fail (call_get_config a b) memory s cap e none_there = absurd cc
  run_call-fail (call_storage_put a b) memory s cap e none_there =
      refused s storage_write _ (ap (has s.permissions) (some-injective _ _ e) ∙ none_there)
  run_call-fail (call_storage_get a b) memory s cap e none_there =
      refused s storage_read _ (ap (has s.permissions) (some-injective _ _ e) ∙ none_there)
  run_call-fail (call_dht_get a b) memory s cap e none_there =
      refused s dht_access _ (ap (has s.permissions) (some-injective _ _ e) ∙ none_there)
  run_call-fail (call_current_time now) memory s cap e none_there = absurd cc
