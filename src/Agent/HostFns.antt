-- ===== src/Agent/HostFns.antt =====
-- crates/agent-runtime/src/host_fns.rs: the functions that a guest calls. The memory that a guest
-- exports, if any, and the clock are arguments.
pub mod Laws
pub mod Storage
use craftec_core.Agent.State.{
  LogEntry, Event, HostState, Host, unknown, text_or, new_state, return, fail, push_log, push_event,
  with_db, with_store, fill_buffer, share, if_permitted, with_bytes, with_text, number_or_fail,
  share_or_fail,
}
use craftec_core.Agent.Permissions.{
  Capability, read_own_db, write_own_db, storage_read, storage_write, network_send, dht_access,
  PermissionSet, PermissionError, check,
}
use craftec_core.Agent.Store.{AgentStore}
use craftec_core.Agent.Words.{as_i32, as_i64, slice_at, is_utf8}
use craftec_core.Maps.{get}
use craftec_core.Settlement.Accounts.{ℤ, pos, negsuc}
use craftec_core.Prelude.{
  ℕ, min, if◌then◌else◌, Option, none, some, and_then, List, [], ◌∷◌, ◌++◌, map, replicate, take,
  drop, length, Byte, u8, zero_byte, key_eq,
}

module _ {Db Store : Type 0} where
  abbrev pub log :
      Option (List Byte)
      → ℤ
      → ℤ
      → ℤ
      → ℤ
      → HostState Db Store
      → Option (HostState Db Store × Option ℤ)
  log none level_ptr level_len msg_ptr msg_len s = some (s, none)
  log (some data') level_ptr level_len msg_ptr msg_len s =
      and_then (slice_at data' level_ptr level_len) (λ level.
        and_then (slice_at data' msg_ptr msg_len) (λ message. some (
          push_log (record { level = text_or unknown level; message = text_or [] message }) s,
          none,
        )))

  abbrev pub emit_event :
      Option (List Byte)
      → ℤ
      → ℤ
      → ℤ
      → ℤ
      → HostState Db Store
      → Option (HostState Db Store × Option ℤ)
  emit_event none type_ptr type_len payload_ptr payload_len s = some (s, none)
  emit_event (some data') type_ptr type_len payload_ptr payload_len s =
      and_then (slice_at data' type_ptr type_len) (λ event_type.
        and_then (slice_at data' payload_ptr payload_len) (λ payload. some (
          push_event (record { event_type = text_or [] event_type; payload = text_or [] payload })
              s,
          none,
        )))

  -- `current_time`, at `now` milliseconds.
  abbrev pub current_time : ℕ → HostState Db Store → Option (HostState Db Store × Option ℤ)
  current_time now s = return s (as_i64 now)

  abbrev pub get_config :
      Option (List Byte) → ℤ → ℤ → HostState Db Store → Option (HostState Db Store × Option ℤ)
  get_config memory key_ptr key_len s = with_text memory key_ptr key_len s (λ key.
      elim (get key_eq s.config key) [ none ↦ fail s | some val ↦ return s (as_i32 (length val)) ])

  abbrev pub send : HostState Db Store → Option (HostState Db Store × Option ℤ)
  send s = if_permitted (check s.permissions network_send) s (return s (pos 0))

  abbrev pub dht_put : HostState Db Store → Option (HostState Db Store × Option ℤ)
  dht_put s = if_permitted (check s.permissions dht_access) s (return s (pos 0))

  abbrev pub dht_get : HostState Db Store → Option (HostState Db Store × Option ℤ)
  dht_get s = if_permitted (check s.permissions dht_access) s (fail s)

module _ {Db Store : Type 0} (host : Host Db Store) where
  abbrev pub db_execute :
      Option (List Byte) → ℤ → ℤ → HostState Db Store → Option (HostState Db Store × Option ℤ)
  db_execute memory sql_ptr sql_len s = if_permitted (check s.permissions write_own_db) s (
      with_text memory sql_ptr sql_len s
        (λ sql. number_or_fail (with_db (host.execute sql s.db).0 s) (host.execute sql s.db).1))

  abbrev pub db_query :
      Option (List Byte) → ℤ → ℤ → HostState Db Store → Option (HostState Db Store × Option ℤ)
  db_query memory sql_ptr sql_len s = if_permitted (check s.permissions read_own_db) s (
      with_text memory sql_ptr sql_len s (λ sql.
        number_or_fail (with_db (host.count_rows sql s.db).0 s) (host.count_rows sql s.db).1))

  -- With a store, or with the hash alone.
  abbrev pub put_in :
      Option Store → List Byte → HostState Db Store → Option (HostState Db Store × Option ℤ)
  put_in none bytes s = share (host.to_hex_hash bytes) s
  put_in (some store) bytes s =
      share_or_fail (host.ops.put bytes store).1 (with_store (host.ops.put bytes store).0 s)

  abbrev pub storage_put :
      Option (List Byte) → ℤ → ℤ → HostState Db Store → Option (HostState Db Store × Option ℤ)
  storage_put memory data_ptr data_len s =
      if_permitted (check s.permissions storage_write) s
        (with_bytes memory data_ptr data_len s (λ bytes. put_in s.store bytes s))

  abbrev pub get_from :
      Option Store → List Byte → HostState Db Store → Option (HostState Db Store × Option ℤ)
  get_from none cid s = fail s
  get_from (some store) cid s = share_or_fail (host.ops.get cid store) s

  abbrev pub storage_get :
      Option (List Byte) → ℤ → ℤ → HostState Db Store → Option (HostState Db Store × Option ℤ)
  storage_get memory cid_ptr cid_len s =
      if_permitted (check s.permissions storage_read) s
        (with_text memory cid_ptr cid_len s (λ cid. get_from s.store cid s))

-- The functions by name, with their arguments.
pub data Call : Type 0 where
  call_log call_emit_event call_network_send call_dht_put : ℤ → ℤ → ℤ → ℤ → Call
  call_db_execute call_db_query call_get_config call_storage_put call_storage_get call_dht_get :
      ℤ → ℤ → Call
  call_current_time : ℕ → Call

-- A call by a guest with this memory.
unfoldable pub run_call :
    {Db Store : Type 0}
    → Host Db Store
    → Call
    → Option (List Byte)
    → HostState Db Store
    → Option (HostState Db Store × Option ℤ)
run_call host (call_log a b c d) memory s = log memory a b c d s
run_call host (call_emit_event a b c d) memory s = emit_event memory a b c d s
run_call host (call_network_send a b c d) memory s = send s
run_call host (call_dht_put a b c d) memory s = dht_put s
run_call host (call_db_execute a b) memory s = db_execute host memory a b s
run_call host (call_db_query a b) memory s = db_query host memory a b s
run_call host (call_get_config a b) memory s = get_config memory a b s
run_call host (call_storage_put a b) memory s = storage_put host memory a b s
run_call host (call_storage_get a b) memory s = storage_get host memory a b s
run_call host (call_dht_get a b) memory s = dht_get s
run_call host (call_current_time now) memory s = current_time now s
