-- ===== src/Maps.antt =====
-- The maps of the source. A `HashMap` is a list of entries, in an order that stands for the order in
-- which the map is read; the equality of its keys is a parameter.
pub mod Laws
use craftec_core.Prelude.{if◌then◌else◌, Bool, Option, none, some, List, [], ◌∷◌}

module _ {Key : Type 0} (same : Key → Key → Bool) where
  -- `HashMap::get`
  unfoldable pub get {ℓ} : {A : Type ℓ} → List (Key × A) → Key → Option A
  get [] k = none
  get (entry ∷ m) k = let rest = get m k in if same entry.0 k then some entry.1 else rest

  -- `HashMap::insert`
  unfoldable pub insert {ℓ} : {A : Type ℓ} → Key → A → List (Key × A) → List (Key × A)
  insert k v [] = (k, v) ∷ []
  insert k v (entry ∷ m) =
      let rest = insert k v m in if same entry.0 k then (entry.0, v) ∷ m else entry ∷ rest

  -- `HashMap::remove`, and a filter by `!=`.
  unfoldable pub remove {ℓ} : {A : Type ℓ} → Key → List (Key × A) → List (Key × A)
  remove k [] = []
  remove k (entry ∷ m) = let rest = remove k m in if same entry.0 k then rest else entry ∷ rest
