-- ===== src/BTreeMap/Laws.antt =====
-- The laws of the ordered maps.
use new_proxy.Prelude.{
  ℕ, zero, suc, ◌+◌, ◌≤◌, ◌<◌, none, some, [], ◌∷◌, ◌≡◌, refl, if◌then◌else◌, length, arith,
  nat_beq, nat_eq,
}
use new_proxy.HashMap
use new_proxy.BTreeMap.{BTreeMap, get, remove, insert, first, IsAbove, IsSorted, range}

module _ {ℓ} {V : Type ℓ} where
  pub get-insert :
      (j k : ℕ) (v : V) (m : BTreeMap V)
      → get j (insert k v m) ≡ (if nat_beq k j then some v else get j m)
  unfolding HashMap.get insert
  get-insert j k v [] = ground arith
  get-insert j k v ((i, w) ∷ m) = ground (arith, get-insert j k v m)

  pub length-insert_new :
      (k : ℕ) (v : V) (m : BTreeMap V) → get k m ≡ none → length (insert k v m) ≡ length m + 1
  unfolding HashMap.get insert
  length-insert_new k v [] h = omega arith
  length-insert_new k v ((i, w) ∷ m) h = ground (arith, length-insert_new k v m)

  pub get-above : (k : ℕ) (m : BTreeMap V) → IsAbove k m → (j : ℕ) → j ≤ k → get j m ≡ none
  unfolding HashMap.get
  get-above k [] h j le = refl
  get-above k ((i, w) ∷ m) h j le = ground (arith, get-above k m h.1 j)

  IsAbove-le : (j k : ℕ) (m : BTreeMap V) → j ≤ k → IsAbove k m → IsAbove j m
  IsAbove-le j k [] le h = tt
  IsAbove-le j k ((i, w) ∷ m) le h = (omega arith, IsAbove-le j k m le h.1)

  insert-IsAbove :
      (j k : ℕ) (v : V) (m : BTreeMap V) → j < k → IsAbove j m → IsAbove j (insert k v m)
  unfolding insert
  insert-IsAbove j k v [] lt h = (lt, tt)
  insert-IsAbove j k v ((i, w) ∷ m) lt h = ground (arith, insert-IsAbove j k v m lt)

  pub insert-IsSorted : (k : ℕ) (v : V) (m : BTreeMap V) → IsSorted m → IsSorted (insert k v m)
  unfolding insert
  insert-IsSorted k v [] h = (tt, tt)
  insert-IsSorted k v ((i, w) ∷ m) h =
      ground (arith, insert-IsSorted k v m, insert-IsAbove i k v m, IsAbove-le k i m)

  remove-IsAbove : (j k : ℕ) (m : BTreeMap V) → IsAbove j m → IsAbove j (remove k m)
  unfolding HashMap.remove
  remove-IsAbove j k [] h = tt
  remove-IsAbove j k ((i, w) ∷ m) h = ground (arith, remove-IsAbove j k m)

  pub remove-IsSorted : (k : ℕ) (m : BTreeMap V) → IsSorted m → IsSorted (remove k m)
  unfolding HashMap.remove
  remove-IsSorted k [] h = tt
  remove-IsSorted k ((i, w) ∷ m) h = ground (arith, remove-IsSorted k m, remove-IsAbove i k m)

  pub IsSorted-IsMap : (m : BTreeMap V) → IsSorted m → HashMap.IsMap m
  IsSorted-IsMap [] h = tt
  IsSorted-IsMap ((k, v) ∷ m) h = (get-above k m h.0 k (omega arith), IsSorted-IsMap m h.1)

  -- The first key is the least.
  pub first-le :
      (k : ℕ) (v : V) (m : BTreeMap V) (j : ℕ) (w : V)
      → IsSorted m
      → first m ≡ some (k, v)
      → get j m ≡ some w
      → k ≤ j
  unfolding HashMap.get
  first-le k v [] j w s f g = cc
  first-le k v ((i, u) ∷ m) j w s f g = ground (arith, get-above i m s.0 j)

range-IsAbove : (j start n : ℕ) → j < start → IsAbove j (range start n)
unfolding range
range-IsAbove j start zero h = tt
range-IsAbove j start (suc n) h = (h, range-IsAbove j (suc start) n (omega arith))

pub range-IsSorted : (start n : ℕ) → IsSorted (range start n)
unfolding range
range-IsSorted start zero = tt
range-IsSorted start (suc n) =
    (range-IsAbove start (suc start) n (omega arith), range-IsSorted (suc start) n)

pub get-range-none : (j start n : ℕ) → j < start → get j (range start n) ≡ none
get-range-none j start n h = get-above j (range start n) (range-IsAbove j start n h) j (omega arith)

pub length-range : (start n : ℕ) → length (range start n) ≡ n
unfolding range
length-range start zero = refl
length-range start (suc n) = omega (arith, length-range (suc start) n)
