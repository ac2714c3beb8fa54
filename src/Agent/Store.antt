-- ===== src/Agent/Store.antt =====
-- `AgentStore` and `MemoryStore` of crates/agent-runtime/src/host_fns.rs. A text is its bytes; BLAKE3
-- with its hexadecimal text is a parameter.
use craftec_core.Agent.Words.{is_utf8}
use craftec_core.Maps.{get, insert}
use craftec_core.Maps.Laws.{get-insert_self}
use craftec_core.Prelude.{true, Option, some, List, Byte, key_eq, key_eq_refl, ◌≡◌, refl}

-- The store after `put`, with the CID, and the bytes of a CID; `none` is an error.
pub record AgentStore (Store : Type 0) : Type 0 where
  pub put : List Byte → Store → Store × Option (List Byte)
  pub get : List Byte → Store → Option (List Byte)

-- What a client relies on: `put` succeeds with a text, `cid_of`, and `get` finds the bytes under it.
pub record IsStore {Store : Type 0} (ops : AgentStore Store)
    (cid_of : List Byte → Store → List Byte) : Type 0 where
  pub stored : (bytes : List Byte) (s : Store) → (ops.put bytes s).1 ≡ some (cid_of bytes s)
  pub found :
      (bytes : List Byte) (s : Store) → ops.get (cid_of bytes s) (ops.put bytes s).0 ≡ some bytes
  pub text : (bytes : List Byte) (s : Store) → is_utf8 (cid_of bytes s) ≡ true

abbrev pub MemoryStore : Type 0
MemoryStore = List (List Byte × List Byte)

module _ (to_hex_hash : List Byte → List Byte) where
  abbrev pub memory_put : List Byte → MemoryStore → MemoryStore × Option (List Byte)
  memory_put data' s = (insert key_eq (to_hex_hash data') data' s, some (to_hex_hash data'))

  abbrev pub memory_get : List Byte → MemoryStore → Option (List Byte)
  memory_get cid s = get key_eq s cid

  abbrev pub memory_store : AgentStore MemoryStore
  memory_store = record { put = memory_put; get = memory_get }

  -- If hashes are written as UTF-8, a `MemoryStore` is a store.
  pub memory_store-IsStore :
      ((m : List Byte) → is_utf8 (to_hex_hash m) ≡ true)
      → IsStore memory_store (λ bytes s. to_hex_hash bytes)
  memory_store-IsStore text = record {
    stored = λ bytes s. refl;
    found = λ bytes s.
        get-insert_self key_eq (to_hex_hash bytes) bytes s (key_eq_refl (to_hex_hash bytes));
    text = λ bytes s. text bytes;
  }
