-- ===== src/Agent/Lifecycle/Laws.antt =====
-- The data that calls reach, by what is linked and by permissions, of crates/agent-runtime.
use craftec_core.Agent.Lifecycle.Kept.{
  Kept-some, if_permitted-Kept, with_text-Kept, number_or_fail-Kept, SameShare, SameData, unchanged,
  log-Kept, emit_event-Kept, get_config-Kept,
}
use craftec_core.Agent.State.{HostState, Host}
use craftec_core.Agent.HostFns.{
  Call, call_log, call_emit_event, call_network_send, call_dht_put, call_db_execute, call_db_query,
  call_get_config, call_storage_put, call_storage_get, call_dht_get, call_current_time, run_call,
}
use craftec_core.Agent.HostFns.Laws.{needed, run_call-fail}
use craftec_core.Agent.Lifecycle.{is_standard}
use craftec_core.Agent.Permissions.{
  Capability, read_own_db, write_own_db, storage_read, storage_write, network_send, dht_access,
  check, has,
}
use craftec_core.Settlement.Accounts.{ℤ}
use craftec_core.Prelude.{true, false, Option, none, some, List, Byte, ◌≡◌, refl, sym, ◌∙◌}

module _ {Db Store : Type 0} where
  -- A call that needs no capability leaves all the data.
  pub free_call-SameData :
      (host : Host Db Store) (call : Call) (memory : Option (List Byte)) (s t : HostState Db Store)
      (n : Option ℤ)
      → needed call ≡ none
      → run_call host call memory s ≡ some (t, n)
      → SameData s t
  unfolding run_call needed
  free_call-SameData host (call_log a b c d) memory s t n free e =
      Kept-some (SameData s) _ t n e (log-Kept memory a b c d s)
  free_call-SameData host (call_emit_event a b c d) memory s t n free e =
      Kept-some (SameData s) _ t n e (emit_event-Kept memory a b c d s)
  free_call-SameData host (call_get_config a b) memory s t n free e =
      Kept-some (SameData s) _ t n e (get_config-Kept memory a b s)
  free_call-SameData host (call_current_time now) memory s t n free e =
      Kept-some (SameData s) _ t n e (record { same_share = unchanged s; same_db = refl })
  free_call-SameData host (call_network_send a b c d) memory s t n free e = absurd cc
  free_call-SameData host (call_dht_put a b c d) memory s t n free e = absurd cc
  free_call-SameData host (call_db_execute a b) memory s t n free e = absurd cc
  free_call-SameData host (call_db_query a b) memory s t n free e = absurd cc
  free_call-SameData host (call_storage_put a b) memory s t n free e = absurd cc
  free_call-SameData host (call_storage_get a b) memory s t n free e = absurd cc
  free_call-SameData host (call_dht_get a b) memory s t n free e = absurd cc

  -- A standard call leaves the store and the buffer.
  pub standard_call-SameShare :
      (host : Host Db Store) (call : Call) (memory : Option (List Byte)) (s t : HostState Db Store)
      (n : Option ℤ)
      → is_standard call ≡ true
      → run_call host call memory s ≡ some (t, n)
      → SameShare s t
  unfolding run_call is_standard needed
  standard_call-SameShare host (call_log a b c d) memory s t n standard e =
      (free_call-SameData host (call_log a b c d) memory s t n refl e).same_share
  standard_call-SameShare host (call_emit_event a b c d) memory s t n standard e =
      (free_call-SameData host (call_emit_event a b c d) memory s t n refl e).same_share
  standard_call-SameShare host (call_get_config a b) memory s t n standard e =
      (free_call-SameData host (call_get_config a b) memory s t n refl e).same_share
  standard_call-SameShare host (call_current_time now) memory s t n standard e =
      (free_call-SameData host (call_current_time now) memory s t n refl e).same_share
  standard_call-SameShare host (call_db_execute a b) memory s t n standard e =
      Kept-some (SameShare s) _ t n e (
        if_permitted-Kept (SameShare s) (check s.permissions write_own_db) s _ (unchanged s) (
          with_text-Kept (SameShare s) memory a b s _ (unchanged s) (λ sql.
            number_or_fail-Kept (SameShare s) _ (host.execute sql s.db).1 (record {
              same_store = refl;
              same_buffer = refl;
              same_permissions = refl;
              same_config = refl;
            }))))
  standard_call-SameShare host (call_db_query a b) memory s t n standard e =
      Kept-some (SameShare s) _ t n e (
        if_permitted-Kept (SameShare s) (check s.permissions read_own_db) s _ (unchanged s) (
          with_text-Kept (SameShare s) memory a b s _ (unchanged s) (λ sql.
            number_or_fail-Kept (SameShare s) _ (host.count_rows sql s.db).1 (record {
              same_store = refl;
              same_buffer = refl;
              same_permissions = refl;
              same_config = refl;
            }))))
  standard_call-SameShare host (call_network_send a b c d) memory s t n standard e = absurd cc
  standard_call-SameShare host (call_dht_put a b c d) memory s t n standard e = absurd cc
  standard_call-SameShare host (call_storage_put a b) memory s t n standard e = absurd cc
  standard_call-SameShare host (call_storage_get a b) memory s t n standard e = absurd cc
  standard_call-SameShare host (call_dht_get a b) memory s t n standard e = absurd cc

  -- None of the capabilities on data.
  pub record IsLocked (s : HostState Db Store) : Type 0 where
    pub no_read : has s.permissions read_own_db ≡ false
    pub no_write : has s.permissions write_own_db ≡ false
    pub no_storage_read : has s.permissions storage_read ≡ false
    pub no_storage_write : has s.permissions storage_write ≡ false

  refused-SameData :
      (host : Host Db Store) (call : Call) (memory : Option (List Byte)) (s t : HostState Db Store)
      (n : Option ℤ) (cap : Capability)
      → needed call ≡ some cap
      → has s.permissions cap ≡ false
      → run_call host call memory s ≡ some (t, n)
      → SameData s t
  refused-SameData host call memory s t n cap asks missing e =
      Kept-some (SameData s) _ t n (sym (run_call-fail host call memory s cap asks missing) ∙ e)
        (record { same_share = unchanged s; same_db = refl })

  pub locked_call-SameData :
      (host : Host Db Store) (call : Call) (memory : Option (List Byte)) (s t : HostState Db Store)
      (n : Option ℤ)
      → IsLocked s
      → run_call host call memory s ≡ some (t, n)
      → SameData s t
  unfolding run_call needed
  locked_call-SameData host (call_log a b c d) memory s t n locked e =
      free_call-SameData host (call_log a b c d) memory s t n refl e
  locked_call-SameData host (call_emit_event a b c d) memory s t n locked e =
      free_call-SameData host (call_emit_event a b c d) memory s t n refl e
  locked_call-SameData host (call_get_config a b) memory s t n locked e =
      free_call-SameData host (call_get_config a b) memory s t n refl e
  locked_call-SameData host (call_current_time now) memory s t n locked e =
      free_call-SameData host (call_current_time now) memory s t n refl e
  locked_call-SameData host (call_db_execute a b) memory s t n locked e =
      refused-SameData host (call_db_execute a b) memory s t n write_own_db refl locked.no_write e
  locked_call-SameData host (call_db_query a b) memory s t n locked e =
      refused-SameData host (call_db_query a b) memory s t n read_own_db refl locked.no_read e
  locked_call-SameData host (call_storage_put a b) memory s t n locked e =
      refused-SameData host (call_storage_put a b) memory s t n storage_write refl
        locked.no_storage_write e
  locked_call-SameData host (call_storage_get a b) memory s t n locked e =
      refused-SameData host (call_storage_get a b) memory s t n storage_read refl
        locked.no_storage_read e
  locked_call-SameData host (call_network_send a b c d) memory s t n locked e =
      Kept-some (SameData s) _ t n e (
        if_permitted-Kept (SameData s) (check s.permissions network_send) s _
          (record { same_share = unchanged s; same_db = refl })
          (record { same_share = unchanged s; same_db = refl }))
  locked_call-SameData host (call_dht_put a b c d) memory s t n locked e =
      Kept-some (SameData s) _ t n e (
        if_permitted-Kept (SameData s) (check s.permissions dht_access) s _
          (record { same_share = unchanged s; same_db = refl })
          (record { same_share = unchanged s; same_db = refl }))
  locked_call-SameData host (call_dht_get a b) memory s t n locked e =
      Kept-some (SameData s) _ t n e (
        if_permitted-Kept (SameData s) (check s.permissions dht_access) s _
          (record { same_share = unchanged s; same_db = refl })
          (record { same_share = unchanged s; same_db = refl }))
