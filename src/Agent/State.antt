-- ===== src/Agent/State.antt =====
-- The state of an agent, and how a host function of crates/agent-runtime/src/host_fns.rs returns: with
-- the state and a number, if it has one, where nothing is a panic. SQLite is a parameter, and so is
-- BLAKE3 with its hexadecimal text.
use craftec_core.Agent.Permissions.{PermissionSet, PermissionError}
use craftec_core.Agent.Store.{AgentStore}
use craftec_core.Agent.Words.{as_i32, slice_at, is_utf8}
use craftec_core.Settlement.Accounts.{ℤ, negsuc}
use craftec_core.Prelude.{
  ℕ, min, if◌then◌else◌, Option, none, some, and_then, List, [], ◌∷◌, ◌++◌, map, replicate, take,
  drop, length, Byte, u8, zero_byte,
}

pub record LogEntry : Type 0 where
  pub level : List Byte
  pub message : List Byte

pub record Event : Type 0 where
  pub event_type : List Byte
  pub payload : List Byte

pub record HostState (Db Store : Type 0) : Type 0 where
  pub db : Db
  pub permissions : PermissionSet
  pub config : List (List Byte × List Byte)
  pub logs : List LogEntry
  pub events : List Event
  pub shared_buffer : List Byte
  pub store : Option Store

-- `execute`, and `prepare` with `query_map` and `count`: the database after it and the number of
-- rows; no number is an error. `to_hex_hash` is `blake3::hash(..).to_hex()`.
pub record Host (Db Store : Type 0) : Type 0 where
  pub execute : List Byte → Db → Db × Option ℕ
  pub count_rows : List Byte → Db → Db × Option ℕ
  pub to_hex_hash : List Byte → List Byte
  pub ops : AgentStore Store

-- `b"unknown"`
unfoldable pub unknown : List Byte
unknown = map u8 (117 ∷ 110 ∷ 107 ∷ 110 ∷ 111 ∷ 119 ∷ 110 ∷ [])

-- `from_utf8(..).unwrap_or(..)`
abbrev pub text_or : List Byte → List Byte → List Byte
text_or default bytes = if is_utf8 bytes then bytes else default

module _ {Db Store : Type 0} where
  -- `HostState::new`
  abbrev pub new_state : Db → PermissionSet → HostState Db Store
  new_state db permissions = record {
    db = db;
    permissions = permissions;
    config = [];
    logs = [];
    events = [];
    shared_buffer = replicate 65536 zero_byte;
    store = none;
  }

  -- What a call returns with.
  abbrev pub return : HostState Db Store → ℤ → Option (HostState Db Store × Option ℤ)
  return s n = some (s, some n)

  -- `return -1`
  abbrev pub fail : HostState Db Store → Option (HostState Db Store × Option ℤ)
  fail s = return s (negsuc 0)

  abbrev pub push_log : LogEntry → HostState Db Store → HostState Db Store
  push_log entry s = record {
    db = s.db;
    permissions = s.permissions;
    config = s.config;
    logs = s.logs ++ entry ∷ [];
    events = s.events;
    shared_buffer = s.shared_buffer;
    store = s.store;
  }

  abbrev pub push_event : Event → HostState Db Store → HostState Db Store
  push_event event s = record {
    db = s.db;
    permissions = s.permissions;
    config = s.config;
    logs = s.logs;
    events = s.events ++ event ∷ [];
    shared_buffer = s.shared_buffer;
    store = s.store;
  }

  abbrev pub with_db : Db → HostState Db Store → HostState Db Store
  with_db db s = record {
    db = db;
    permissions = s.permissions;
    config = s.config;
    logs = s.logs;
    events = s.events;
    shared_buffer = s.shared_buffer;
    store = s.store;
  }

  abbrev pub with_store : Store → HostState Db Store → HostState Db Store
  with_store store s = record {
    db = s.db;
    permissions = s.permissions;
    config = s.config;
    logs = s.logs;
    events = s.events;
    shared_buffer = s.shared_buffer;
    store = some store;
  }

  -- `buf[..len].copy_from_slice(&bytes[..len])`
  abbrev pub fill_buffer : ℕ → List Byte → HostState Db Store → HostState Db Store
  fill_buffer len bytes s = record {
    db = s.db;
    permissions = s.permissions;
    config = s.config;
    logs = s.logs;
    events = s.events;
    shared_buffer = take len bytes ++ drop len s.shared_buffer;
    store = s.store;
  }

  -- As much of the bytes as the buffer takes, and how much that is.
  abbrev pub share : List Byte → HostState Db Store → Option (HostState Db Store × Option ℤ)
  share bytes s =
      let len = min (length bytes) (length s.shared_buffer) in
      return (fill_buffer len bytes s) (as_i32 len)

  -- `if caller.data().permissions.check(..).is_err()`
  abbrev pub if_permitted :
      Option PermissionError
      → HostState Db Store
      → Option (HostState Db Store × Option ℤ)
      → Option (HostState Db Store × Option ℤ)
  if_permitted (some e) s rest = fail s
  if_permitted none s rest = rest

  -- The bytes that an argument points to, and then the rest of the call.
  abbrev pub with_bytes :
      Option (List Byte)
      → ℤ
      → ℤ
      → HostState Db Store
      → (List Byte → Option (HostState Db Store × Option ℤ))
      → Option (HostState Db Store × Option ℤ)
  with_bytes none ptr len s rest = fail s
  with_bytes (some data') ptr len s rest = and_then (slice_at data' ptr len) rest

  -- The same for a text.
  abbrev pub with_text :
      Option (List Byte)
      → ℤ
      → ℤ
      → HostState Db Store
      → (List Byte → Option (HostState Db Store × Option ℤ))
      → Option (HostState Db Store × Option ℤ)
  with_text memory ptr len s rest =
      with_bytes memory ptr len s (λ bytes. if is_utf8 bytes then rest bytes else fail s)

  -- `Ok(n) => n as i32`, `Err(_) => -1`
  abbrev pub number_or_fail : HostState Db Store → Option ℕ → Option (HostState Db Store × Option ℤ)
  number_or_fail s none = fail s
  number_or_fail s (some n) = return s (as_i32 n)

  abbrev pub share_or_fail :
      Option (List Byte) → HostState Db Store → Option (HostState Db Store × Option ℤ)
  share_or_fail none s = fail s
  share_or_fail (some bytes) s = share bytes s
