-- ===== src/Agent/Sandbox.antt =====
-- The limits of crates/agent-runtime/src/sandbox.rs; the engine and the module are Wasmtime's.
use craftec_core.Prelude.{ℕ, ◌/◌, ltb, if◌then◌else◌, Option, none, some, List, [], ◌∷◌}

-- A time is a number of seconds.
pub record SandboxConfig : Type 0 where
  pub max_memory_bytes : ℕ
  pub fuel_limit : ℕ
  pub max_execution_time : ℕ

abbrev pub default_sandbox : SandboxConfig
default_sandbox = record {
  max_memory_bytes = 67108864;
  fuel_limit = 1000000;
  max_execution_time = 30;
}

-- An import of a module: a memory, with the least number of its pages, or another.
pub data Import : Type 0 where
  memory : ℕ → Import
  other : Import

-- The error of the first memory that asks for too much: what it asks for, and the limit.
unfoldable pub resource_limit : SandboxConfig → List Import → Option (ℕ × ℕ)
resource_limit config [] = none
resource_limit config (other ∷ imports) = resource_limit config imports
resource_limit config (memory minimum ∷ imports) =
    let rest = resource_limit config imports in
    if ltb (config.max_memory_bytes / 65536) minimum
    then some (minimum, config.max_memory_bytes / 65536)
    else rest
