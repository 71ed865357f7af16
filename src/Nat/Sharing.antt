-- ===== src/Nat/Sharing.antt =====
-- src/flow_plane/nat.rs: `ReverseNatDirectory` as workers share it, over any publications and
-- retirements.
use new_proxy.Prelude.{
  ◌≡◌, arith, ◌==◌, some, ok, Option-cases, Bool-cases, inl, inr, ==_eq, ==_self,
}
use new_proxy.HashMap
use new_proxy.HashMap.Laws.{get-insert, get-remove}
use new_proxy.Net.{FlowKey, flow_eq, flow_beq_iff}
use new_proxy.Nat.Directory.{
  ReverseNatKey, SessionLocator, locator_eq, ReverseNatDirectory, NatBinding, publish, lookup,
  retire,
}
use new_proxy.Nat.Invariant.{key_of}
use new_proxy.Nat.Keys.{IsReply, reply_key}

-- The directories that `d` becomes while workers publish any bindings, and retire any for
-- locators other than `l`.
pub data Run (l : SessionLocator) (d : ReverseNatDirectory) : ReverseNatDirectory → Type 0 where
  here : Run l d d
  publication :
      {e : ReverseNatDirectory} (b : NatBinding) (m : SessionLocator)
      → Run l d e
      → Run l d (publish e b m).0
  retirement :
      {e : ReverseNatDirectory} (b : NatBinding) (m : SessionLocator)
      → ¬ (m ≡ l)
      → Run l d e
      → Run l d (retire e b m).0

-- A publication leaves each key that stands there to its locator.
publish-kept :
    (d : ReverseNatDirectory) (b : NatBinding) (m l : SessionLocator) (k : ReverseNatKey)
    → HashMap.get k d ≡ some l
    → HashMap.get k (publish d b m).0 ≡ some l
unfolding publish
publish-kept d b m l k held = elim (Option-cases (HashMap.get (key_of b) d)) [
  | inl absent ↦
      rw (absent, publish) (ground (arith, get-insert k (key_of b) m d, flow_beq_iff (key_of b) k))
  | inr (x, found) ↦ elim (Bool-cases (x == m)) [
    | inl same ↦ rw (found, publish, same) held
    | inr other ↦ rw (found, publish, other) held
  ]
]

-- A retirement for another locator leaves it, too.
retire-kept :
    (d : ReverseNatDirectory) (b : NatBinding) (m l : SessionLocator) (k : ReverseNatKey)
    → ¬ (m ≡ l)
    → HashMap.get k d ≡ some l
    → HashMap.get k (retire d b m).0 ≡ some l
unfolding retire
retire-kept d b m l k other held = elim (Option-cases (HashMap.get (key_of b) d)) [
  | inl absent ↦ rw (absent, retire) held
  | inr (x, found) ↦ elim (Bool-cases (x == m)) [
    | inr ne ↦ rw (found, retire, ne) held
    | inl same ↦
        let is_m : x ≡ m = ==_eq x m same in
        rw (found, retire, same)
          (ground (arith, get-remove k (key_of b) d, flow_beq_iff (key_of b) k))
  ]
]

publish-get :
    (d : ReverseNatDirectory) (b : NatBinding) (l : SessionLocator)
    → (publish d b l).1 ≡ ok tt
    → HashMap.get (key_of b) (publish d b l).0 ≡ some l
unfolding publish
publish-get d b l = elim (Option-cases (HashMap.get (key_of b) d)) [
  | inl absent ↦
      rw (absent, publish)
        (λ h. ground (arith, get-insert (key_of b) (key_of b) l d, ==_self (key_of b)))
  | inr (m, found) ↦ elim (Bool-cases (m == l)) [
    | inl same ↦
        let is_l : m ≡ l = ==_eq m l same in rw (found, publish, same) (λ h. ground (arith, found))
    | inr other ↦ rw (found, publish, other) (λ h. absurd (ground arith))
  ]
]

Run-kept :
    {l : SessionLocator} {d e : ReverseNatDirectory} (k : ReverseNatKey)
    → Run l d e
    → HashMap.get k d ≡ some l
    → HashMap.get k e ≡ some l
Run-kept k here held = held
Run-kept {l} k (publication {e} b m r) held = publish-kept e b m l k (Run-kept k r held)
Run-kept {l} k (retirement {e} b m other r) held = retire-kept e b m l k other (Run-kept k r held)

-- From a directory publication that succeeds on, through any publications and any retirements for
-- other locators, every reply of the translated flow finds the locator: no key is taken over.
pub publish-Run :
    (d e : ReverseNatDirectory) (b : NatBinding) (l : SessionLocator) (r : FlowKey)
    → (publish d b l).1 ≡ ok tt
    → Run l (publish d b l).0 e
    → IsReply b.translated r
    → lookup e r ≡ some l
unfolding lookup
publish-Run d e b l r h run reply =
    rw (reply_key b.translated r reply) (Run-kept (key_of b) run (publish-get d b l h))
