-- ===== src/BTreeMap.antt =====
-- `std::collections::BTreeMap` with numbers for keys, as an association list in ascending order.
-- `BTreeSet` is such a map to `Unit`. Reads and removals are those of `HashMap`.
pub mod Laws
use new_proxy.Prelude.{
  ℕ, zero, suc, ◌<◌, Option, none, some, List, [], ◌∷◌, if◌then◌else◌, ltb, nat_beq, nat_eq,
}
use new_proxy.HashMap

abbrev pub BTreeMap {ℓ} : Type ℓ → Type ℓ
BTreeMap V = List (ℕ × V)

abbrev pub BTreeSet : Type 0
BTreeSet = BTreeMap (Unit {0})

module _ {ℓ} {V : Type ℓ} where
  abbrev pub get : ℕ → BTreeMap V → Option V
  get k m = HashMap.get k m

  abbrev pub remove : ℕ → BTreeMap V → BTreeMap V
  remove k m = HashMap.remove k m

  unfoldable pub insert : ℕ → V → BTreeMap V → BTreeMap V
  insert k v [] = (k, v) ∷ []
  insert k v ((i, w) ∷ m) =
      let rest = insert k v m in
      if ltb k i then (k, v) ∷ (i, w) ∷ m else if nat_beq k i then (k, v) ∷ m else (i, w) ∷ rest

  -- `first_key_value`
  abbrev pub first : BTreeMap V → Option (ℕ × V)
  first [] = none
  first (kv ∷ m) = some kv

  -- Every key lies above the bound.
  abbrev pub IsAbove : ℕ → BTreeMap V → Type 0
  IsAbove k [] = Unit {0}
  IsAbove k ((i, v) ∷ m) = (k < i) × IsAbove k m

  abbrev pub IsSorted : BTreeMap V → Type 0
  IsSorted [] = Unit {0}
  IsSorted ((k, v) ∷ m) = IsAbove k m × IsSorted m

-- `(start..=end).collect()`, by the number of its elements.
unfoldable pub range : ℕ → ℕ → BTreeSet
range start zero = []
range start (suc n) = (start, tt) ∷ range (suc start) n
