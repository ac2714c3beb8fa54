-- ===== src/Tests/Ipc.antt =====
-- Inputs for the theorems on crates/ipc.
use craftec_core.Ipc.Router.{
  Answer, good, bad, unknown_method, NamespacedHandler, new_router, add_namespace, handle,
}
use craftec_core.Ipc.Router.Laws.{IsRouted, IsUnrouted, handle-cases}
use craftec_core.Prelude.{ℕ, ◌+◌, Option, none, some, List, [], ◌∷◌, ◌++◌, map, Byte, u8, ◌≡◌, ◌⊎◌}

-- Counts its calls, and answers with the method.
abbrev echo : List Byte → Option (List Byte) → ℕ → ℕ × Answer (List Byte)
echo method params calls = (calls + 1, good method)

abbrev router : NamespacedHandler (List Byte) ℕ
router = add_namespace (map u8 (100 ∷ 98 ∷ [])) echo new_router

-- `db.put`
abbrev method : List Byte
method = map u8 (100 ∷ 98 ∷ 46 ∷ 112 ∷ 117 ∷ 116 ∷ [])

handle-cases_example :
    ((h : List Byte → Option (List Byte) → ℕ → ℕ × Answer (List Byte)) × (rest : List Byte)
      × IsRouted router method h rest
      × (handle router method none 0 ≡ h rest none 0))
    ⊎ (((h : List Byte → Option (List Byte) → ℕ → ℕ × Answer (List Byte)) × IsUnrouted router method
          × (router.default ≡ some h)
          × (handle router method none 0 ≡ h method none 0))
        ⊎ (IsUnrouted router method
            × (router.default ≡ none)
            × (handle router method none 0 ≡ (0, bad (unknown_method ++ method)))))
handle-cases_example = handle-cases router method none 0
