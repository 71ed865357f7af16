-- ===== src/HashMap/Laws.antt =====
-- The laws of the map operations that the components' proofs use.
use new_proxy.Prelude.{
  ◌+◌, Bool, true, false, none, some, [], ◌∷◌, ◌≡◌, refl, Eq, ◌==◌, if◌then◌else◌, length, arith,
  ==_self,
}
use new_proxy.HashMap.{HashMap, retain, get, remove, insert, IsMap}

module _ {ℓ κ} {K : Type ℓ} {V : Type κ} ⦃e : Eq K⦄ where
  pub get-nil : (k : K) → get {V = V} k [] ≡ none
  unfolding get
  get-nil k = refl

  pub get-remove :
      (j k : K) (m : HashMap K V) → get j (remove k m) ≡ (if k == j then none else get j m)
  unfolding get remove
  get-remove j k [] = ground arith
  get-remove j k ((i, v) ∷ m) =
      ground (arith, e.beq_iff i k, e.beq_iff i j, e.beq_iff k j, get-remove j k m)

  pub get-remove_self : (k : K) (m : HashMap K V) → get k (remove k m) ≡ none
  get-remove_self k m = ground (arith, get-remove k k m, ==_self k)

  pub get-insert :
      (j k : K) (v : V) (m : HashMap K V)
      → get j (insert k v m) ≡ (if k == j then some v else get j m)
  unfolding get insert
  get-insert j k v m = ground (arith, get-remove j k m)

  remove-IsMap_cons :
      (k i : K) (v : V) (m : HashMap K V)
      → (get i m ≡ none)
      → IsMap (remove k m)
      → IsMap (remove k ((i, v) ∷ m))
  unfolding remove
  remove-IsMap_cons k i v m h r =
      elim (i == k) as (λ b. IsMap (if b then remove k m else (i, v) ∷ remove k m)) [
        | true ↦ r
        | false ↦ (ground (arith, get-remove i k m), r)
      ]

  pub remove-IsMap : (k : K) (m : HashMap K V) → IsMap m → IsMap (remove k m)
  unfolding remove
  remove-IsMap k [] h = h
  remove-IsMap k ((i, v) ∷ m) h = remove-IsMap_cons k i v m h.0 (remove-IsMap k m h.1)

  pub insert-IsMap : (k : K) (v : V) (m : HashMap K V) → IsMap m → IsMap (insert k v m)
  unfolding insert
  insert-IsMap k v m h = (get-remove_self k m, remove-IsMap k m h)

  pub get-retain-eq-none :
      (p : K → V → Bool) (j : K) (m : HashMap K V) → get j m ≡ none → get j (retain p m) ≡ none
  unfolding get retain
  get-retain-eq-none p j [] h = refl
  get-retain-eq-none p j ((i, w) ∷ m) h = ground (arith, get-retain-eq-none p j m)

  pub get-retain :
      (p : K → V → Bool) (j : K) (v : V) (m : HashMap K V)
      → IsMap m
      → get j m ≡ some v
      → get j (retain p m) ≡ (if p j v then some v else none)
  unfolding get retain
  get-retain p j v [] d h = cc
  get-retain p j v ((i, w) ∷ m) d h =
      ground (arith, e.beq_iff i j, get-retain p j v m, get-retain-eq-none p j m)

  retain-IsMap_cons :
      (p : K → V → Bool) (i : K) (v : V) (m : HashMap K V)
      → get i m ≡ none
      → IsMap (retain p m)
      → IsMap (retain p ((i, v) ∷ m))
  unfolding retain
  retain-IsMap_cons p i v m h r =
      elim (p i v) as (λ b. IsMap (if b then (i, v) ∷ retain p m else retain p m)) [
        | true ↦ (get-retain-eq-none p i m h, r)
        | false ↦ r
      ]

  pub retain-IsMap : (p : K → V → Bool) (m : HashMap K V) → IsMap m → IsMap (retain p m)
  unfolding retain
  retain-IsMap p [] h = h
  retain-IsMap p ((i, v) ∷ m) h = retain-IsMap_cons p i v m h.0 (retain-IsMap p m h.1)

  pub length-remove_absent :
      (k : K) (m : HashMap K V) → get k m ≡ none → length (remove k m) ≡ length m
  unfolding get remove
  length-remove_absent k [] h = refl
  length-remove_absent k ((i, w) ∷ m) h = ground (arith, length-remove_absent k m)

  pub length-remove :
      (k : K) (v : V) (m : HashMap K V)
      → IsMap m
      → get k m ≡ some v
      → length (remove k m) + 1 ≡ length m
  unfolding get remove
  length-remove k v [] d h = cc
  length-remove k v ((i, w) ∷ m) d h =
      ground (arith, e.beq_iff i k, length-remove k v m, length-remove_absent k m)

  pub length-insert_new :
      (k : K) (v : V) (m : HashMap K V) → get k m ≡ none → length (insert k v m) ≡ length m + 1
  unfolding insert
  length-insert_new k v m h = omega (arith, length-remove_absent k m h)
