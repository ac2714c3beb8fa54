-- ===== src/Agent/Permissions.antt =====
-- crates/agent-runtime/src/permissions.rs. A `HashSet` is a list of its elements.
use craftec_core.Prelude.{
  ℕ, ◌==◌, Bool, false, ◌||◌, Option, none, some, if◌then◌else◌, List, [], ◌∷◌,
}

pub data Capability : Type 0 where
  read_own_db write_own_db storage_read storage_write network_send dht_access spawn_agent :
      Capability

abbrev pub number_of : Capability → ℕ
number_of read_own_db = 0
number_of write_own_db = 1
number_of storage_read = 2
number_of storage_write = 3
number_of network_send = 4
number_of dht_access = 5
number_of spawn_agent = 6

-- The derived `==`
abbrev pub same_capability : Capability → Capability → Bool
same_capability a b = number_of a == number_of b

pub record PermissionSet : Type 0 where
  pub capabilities : List Capability

pub data PermissionError : Type 0 where
  denied : Capability → PermissionError

-- `PermissionSet::new`
abbrev pub permissions_of : List Capability → PermissionSet
permissions_of caps = record { capabilities = caps }

unfoldable pub contains_capability : List Capability → Capability → Bool
contains_capability [] cap = false
contains_capability (c ∷ caps) cap = same_capability c cap || contains_capability caps cap

abbrev pub has : PermissionSet → Capability → Bool
has set cap = contains_capability set.capabilities cap

-- `check`: the error, if there is one.
abbrev pub check : PermissionSet → Capability → Option PermissionError
check set cap = if has set cap then none else some (denied cap)

abbrev pub tier1_permissions : List Capability
tier1_permissions =
    read_own_db ∷ write_own_db ∷ storage_read ∷ storage_write ∷ network_send ∷ dht_access
    ∷ spawn_agent ∷ []

abbrev pub tier2_permissions : List Capability
tier2_permissions = read_own_db ∷ write_own_db ∷ []
