-- ===== src/Maps/Laws.antt =====
-- Calls on a map, entry by entry.
use craftec_core.Maps.{get, insert, remove}
use craftec_core.Prelude.{
  Bool, true, false, some, List, [], ◌∷◌, All, ◌≡◌, refl, inl, inr, Bool-cases,
}

pub All-fst : {A : Type 0} (P Q : A → Type 0) (xs : List A) → All (λ x. P x × Q x) xs → All P xs
All-fst P Q [] all = tt
All-fst P Q (x ∷ xs) all = (all.0.0, All-fst P Q xs all.1)

module _ {Key Value : Type 0} (same : Key → Key → Bool) where
  pub insert-All :
      (P : Value → Type 0) (k : Key) (v : Value) (m : List (Key × Value))
      → P v
      → All (λ e. P e.1) m
      → All (λ e. P e.1) (insert same k v m)
  unfolding insert
  insert-All P k v [] pv all = (pv, tt)
  insert-All P k v (entry ∷ m) pv all = elim (Bool-cases (same entry.0 k)) [
    | inl e ↦ rw e (pv, all.1)
    | inr e ↦ rw e (all.0, insert-All P k v m pv all.1)
  ]

  pub remove-All :
      (P : Key × Value → Type 0) (k : Key) (m : List (Key × Value))
      → All P m
      → All (λ e. P e × (same e.0 k ≡ false)) (remove same k m)
  unfolding remove
  remove-All P k [] all = tt
  remove-All P k (entry ∷ m) all = elim (Bool-cases (same entry.0 k)) [
    | inl e ↦ rw e (remove-All P k m all.1)
    | inr e ↦ rw e ((all.0, e), remove-All P k m all.1)
  ]

  pub get-insert_self :
      (k : Key) (v : Value) (m : List (Key × Value))
      → same k k ≡ true
      → get same (insert same k v m) k ≡ some v
  unfolding get insert
  get-insert_self k v [] e = rw e refl
  get-insert_self k v (entry ∷ m) e = elim (Bool-cases (same entry.0 k)) [
    | inl found ↦ rw (found, found) refl
    | inr other ↦ rw (other, other) (get-insert_self k v m e)
  ]
