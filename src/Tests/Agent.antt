-- ===== src/Tests/Agent.antt =====
-- Inputs for the theorems on crates/agent-runtime.
use craftec_core.Agent.State.{HostState, Host, new_state, push_log, with_store}
use craftec_core.Agent.HostFns.{call_log, call_storage_put, run_call, storage_put, storage_get}
use craftec_core.Agent.HostFns.Laws.{needed, run_call-fail}
use craftec_core.Agent.HostFns.Storage.{storage_get-storage_put}
use craftec_core.Agent.Lifecycle.{AgentManifest, is_standard}
use craftec_core.Agent.Lifecycle.Confined.{Run, not_started, called, Run-SameShare, Run-SameData}
use craftec_core.Agent.Lifecycle.Kept.{SameShare, SameData}
use craftec_core.Agent.Permissions.{
  storage_write, contains_capability, permissions_of, tier1_permissions, tier2_permissions,
}
use craftec_core.Agent.Store.{MemoryStore, memory_store, memory_store-IsStore}
use craftec_core.Agent.Words.{slice_at, add_i32, is_utf8, is_utf8_from}
use craftec_core.Settlement.Accounts.{pos, negsuc}
use craftec_core.Prelude.{
  ℕ, ◌+◌, true, min, none, some, List, [], ◌∷◌, take, length, Byte, u8, arith, ◌≡◌, refl,
}

-- A hash whose text is `a`.
abbrev hash : List Byte → List Byte
hash m = u8 97 ∷ []

-- A database that counts its statements.
abbrev host : Host ℕ MemoryStore
host = record {
  execute = λ sql db. (db + 1, some 1);
  count_rows = λ sql db. (db, none);
  to_hex_hash = hash;
  ops = memory_store hash;
}

hash-text : (m : List Byte) → is_utf8 (hash m) ≡ true
unfolding is_utf8_from u8
hash-text m = refl

abbrev guest : HostState ℕ MemoryStore
guest = with_store [] (new_state 0 (permissions_of tier1_permissions))

abbrev user : HostState ℕ MemoryStore
user = new_state 0 (permissions_of tier2_permissions)

abbrev locked : HostState ℕ MemoryStore
locked = new_state 0 (permissions_of [])

abbrev page : List Byte
page = u8 97 ∷ u8 98 ∷ u8 99 ∷ []

abbrev manifest : AgentManifest
manifest = record {
  cid = page;
  name = page;
  version = page;
  required_capabilities = [];
  tier = u8 2;
}

run_call-fail_example :
    run_call host (call_storage_put (pos 0) (pos 3)) (some page) user ≡ some (user, some (negsuc 0))
unfolding needed contains_capability
run_call-fail_example =
    run_call-fail host (call_storage_put (pos 0) (pos 3)) (some page) user storage_write refl refl

storage_get-storage_put_example :
    (t : HostState ℕ MemoryStore) × (u : HostState ℕ MemoryStore) × (n : ℕ) × (m : ℕ) × (storage_put
        host
        (some page)
        (pos 0)
        (pos 3)
        guest
      ≡ some (t, some (pos n)))
    × (n ≡ length (hash page))
    × (take n t.shared_buffer ≡ hash page)
    × (storage_get host (some page) (pos 0) (pos 1) t ≡ some (u, some (pos m)))
    × (m ≡ min 3 (length guest.shared_buffer))
    × (take m u.shared_buffer ≡ take m page)
unfolding contains_capability slice_at add_i32
storage_get-storage_put_example =
    storage_get-storage_put host (λ bytes s. hash bytes) (memory_store-IsStore hash hash-text) page
      page (pos 0) (pos 3) page (pos 0) (pos 1) guest [] refl refl refl (omega arith) (omega arith)
      refl refl

-- The state after a call of `log` with the first two bytes of the page.
abbrev after_log : HostState ℕ MemoryStore → HostState ℕ MemoryStore
after_log s = push_log (record { level = u8 97 ∷ []; message = u8 98 ∷ [] }) s

user-Run : Run host manifest user (after_log user)
unfolding run_call is_standard is_utf8_from slice_at add_i32 u8
user-Run =
    called user (after_log user) (call_log (pos 0) (pos 1) (pos 1) (pos 1)) (some page) none
      not_started refl refl

Run-SameShare_example : SameShare user (after_log user)
unfolding u8
Run-SameShare_example = Run-SameShare host manifest user (after_log user) (omega arith) user-Run

locked-Run : Run host manifest locked (after_log locked)
unfolding run_call is_standard is_utf8_from slice_at add_i32 u8
locked-Run =
    called locked (after_log locked) (call_log (pos 0) (pos 1) (pos 1) (pos 1)) (some page) none
      not_started refl refl

Run-SameData_example : SameData locked (after_log locked)
unfolding contains_capability
Run-SameData_example =
    Run-SameData host manifest locked (after_log locked)
      (record { no_read = refl; no_write = refl; no_storage_read = refl; no_storage_write = refl })
      locked-Run
