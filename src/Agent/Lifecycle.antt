-- ===== src/Agent/Lifecycle.antt =====
-- crates/agent-runtime/src/lifecycle.rs: which functions an agent is linked with, and the registry; and
-- the memory limit of crates/agent-runtime/src/sandbox.rs. Wasmtime is left out.
pub mod Kept
pub mod Laws
pub mod Confined
use craftec_core.Agent.HostFns.{
  Call, call_log, call_emit_event, call_network_send, call_dht_put, call_db_execute, call_db_query,
  call_get_config, call_storage_put, call_storage_get, call_dht_get, call_current_time,
}
use craftec_core.Agent.Permissions.{Capability}
use craftec_core.Maps.{get, insert, remove}
use craftec_core.Prelude.{
  ℕ, ◌/◌, ◌==◌, ltb, if◌then◌else◌, Bool, true, false, ◌||◌, Option, none, some, List, [], ◌∷◌, map,
  Byte, key_eq,
}

pub record AgentManifest : Type 0 where
  pub cid : List Byte
  pub name : List Byte
  pub version : List Byte
  pub required_capabilities : List Capability
  pub tier : Byte

-- What `register_host_fns` registers.
unfoldable pub is_standard : Call → Bool
is_standard (call_log a b c d) = true
is_standard (call_emit_event a b c d) = true
is_standard (call_network_send a b c d) = false
is_standard (call_dht_put a b c d) = false
is_standard (call_db_execute a b) = true
is_standard (call_db_query a b) = true
is_standard (call_get_config a b) = true
is_standard (call_storage_put a b) = false
is_standard (call_storage_get a b) = false
is_standard (call_dht_get a b) = false
is_standard (call_current_time now) = true

-- What `register_tier1_host_fns` registers.
unfoldable pub is_tier1 : Call → Bool
is_tier1 (call_log a b c d) = false
is_tier1 (call_emit_event a b c d) = false
is_tier1 (call_network_send a b c d) = true
is_tier1 (call_dht_put a b c d) = true
is_tier1 (call_db_execute a b) = false
is_tier1 (call_db_query a b) = false
is_tier1 (call_get_config a b) = false
is_tier1 (call_storage_put a b) = true
is_tier1 (call_storage_get a b) = true
is_tier1 (call_dht_get a b) = true
is_tier1 (call_current_time now) = false

-- Whether `load_agent` links the function.
abbrev pub is_linked : AgentManifest → Call → Bool
is_linked manifest call =
    if manifest.tier.value == 1 then is_standard call || is_tier1 call else is_standard call

-- `AgentRegistry`
abbrev pub AgentRegistry : Type 0
AgentRegistry = List (List Byte × AgentManifest)

abbrev pub register : AgentManifest → AgentRegistry → AgentRegistry
register manifest agents = insert key_eq manifest.cid manifest agents

abbrev pub unregister : List Byte → AgentRegistry → AgentRegistry
unregister cid agents = remove key_eq cid agents

abbrev pub get_agent : List Byte → AgentRegistry → Option AgentManifest
get_agent cid agents = get key_eq agents cid

abbrev pub list_agents : AgentRegistry → List AgentManifest
list_agents agents = map (λ entry. entry.1) agents
