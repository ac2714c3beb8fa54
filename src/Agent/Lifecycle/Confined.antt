-- ===== src/Agent/Lifecycle/Confined.antt =====
-- All the calls of an agent of crates/agent-runtime, one after the other.
use craftec_core.Agent.State.{HostState, Host}
use craftec_core.Agent.HostFns.{Call, run_call}
use craftec_core.Agent.Lifecycle.{AgentManifest, is_standard, is_tier1, is_linked}
use craftec_core.Agent.Lifecycle.Kept.{SameShare, SameData, unchanged, SameShare-trans}
use craftec_core.Agent.Lifecycle.Laws.{IsLocked, standard_call-SameShare, locked_call-SameData}
use craftec_core.Agent.Permissions.{
  Capability, read_own_db, write_own_db, storage_read, storage_write, has,
}
use craftec_core.Settlement.Accounts.{ℤ}
use craftec_core.Prelude.{
  ◌==◌, if◌then◌else◌, true, false, ◌||◌, Option, some, List, Byte, arith, ◌≡◌, ◌≢◌, refl, sym, ap,
  ◌∙◌,
}

module _ {Db Store : Type 0} (host : Host Db Store) (manifest : AgentManifest) where
  -- The states that calls of linked functions lead to.
  pub data Run (s : HostState Db Store) : HostState Db Store → Type 0 where
    not_started : Run s s
    called :
        (t u : HostState Db Store) (call : Call) (memory : Option (List Byte)) (n : Option ℤ)
        → Run s t
        → is_linked manifest call ≡ true
        → run_call host call memory t ≡ some (u, n)
        → Run s u

  linked-is_standard :
      (call : Call)
      → manifest.tier.value ≢ 1
      → is_linked manifest call ≡ true
      → is_standard call ≡ true
  linked-is_standard call other linked =
      let e : (manifest.tier.value == 1) ≡ false = ground arith in
      ap (λ b. if b then is_standard call || is_tier1 call else is_standard call) (sym e) ∙ linked

  -- Whatever functions an agent of another tier than 1 calls, with whatever permissions, it leaves the
  -- store and the shared buffer, and its permissions and configuration.
  pub Run-SameShare : (s t : HostState Db Store) → manifest.tier.value ≢ 1 → Run s t → SameShare s t
  Run-SameShare s _ other not_started = record {
    same_store = refl;
    same_buffer = refl;
    same_permissions = refl;
    same_config = refl;
  }
  Run-SameShare s _ other (called t u call memory n before linked e) =
      SameShare-trans s t u (Run-SameShare s t other before)
        (standard_call-SameShare host call memory t u n (linked-is_standard call other linked) e)

  still-IsLocked : (s t : HostState Db Store) → SameShare s t → IsLocked s → IsLocked t
  still-IsLocked s t same locked =
      let keep : (cap : Capability)
          → has s.permissions cap ≡ false
          → has t.permissions cap ≡ false =
        λ cap missing. ap (λ p. has p cap) same.same_permissions ∙ missing in
      record {
        no_read = keep read_own_db locked.no_read;
        no_write = keep write_own_db locked.no_write;
        no_storage_read = keep storage_read locked.no_storage_read;
        no_storage_write = keep storage_write locked.no_storage_write;
      }

  -- Whatever functions an agent of any tier calls without the four capabilities on its database and on
  -- the store, it leaves the database, the store and the shared buffer, and its permissions and
  -- configuration.
  pub Run-SameData : (s t : HostState Db Store) → IsLocked s → Run s t → SameData s t
  Run-SameData s _ locked not_started = record { same_share = unchanged s; same_db = refl }
  Run-SameData s _ locked (called t u call memory n before linked e) =
      let first = Run-SameData s t locked before in
      let second =
        locked_call-SameData host call memory t u n (still-IsLocked s t first.same_share locked)
          e in
      record {
        same_share = SameShare-trans s t u first.same_share second.same_share;
        same_db = second.same_db ∙ first.same_db;
      }
