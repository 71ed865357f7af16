-- ===== src/HashMap.antt =====
-- `std::collections::HashMap` as an association list without repeated keys. A set is a map to
-- `Unit`. The program reads and writes its maps by these operations alone.
pub mod Laws
use new_proxy.Prelude.{
  ℕ, Bool, true, false, Option, none, some, List, [], ◌∷◌, ◌≡◌, Eq, ◌==◌, if◌then◌else◌, is_some,
}

abbrev pub HashMap {ℓ κ} : Type ℓ → Type κ → Type (ℓ ⊔ κ)
HashMap K V = List (K × V)

module _ {ℓ κ} {K : Type ℓ} {V : Type κ} where
  unfoldable pub retain : (K → V → Bool) → HashMap K V → HashMap K V
  retain p [] = []
  retain p ((k, v) ∷ m) = let rest = retain p m in if p k v then (k, v) ∷ rest else rest

module _ {ℓ κ} {K : Type ℓ} {V : Type κ} ⦃e : Eq K⦄ where
  unfoldable pub get : K → HashMap K V → Option V
  get j [] = none
  get j ((k, v) ∷ m) = if k == j then some v else get j m

  unfoldable pub remove : K → HashMap K V → HashMap K V
  remove j [] = []
  remove j ((k, v) ∷ m) = let rest = remove j m in if k == j then rest else (k, v) ∷ rest

  unfoldable pub insert : K → V → HashMap K V → HashMap K V
  insert k v m = (k, v) ∷ remove k m

  abbrev pub contains_key : K → HashMap K V → Bool
  contains_key k m = is_some (get k m)

  -- No key stands twice.
  abbrev pub IsMap : HashMap K V → Type κ
  IsMap [] = Unit {κ}
  IsMap ((k, v) ∷ m) = (get k m ≡ none) × IsMap m
