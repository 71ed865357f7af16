-- ===== src/Nat/Outcome.antt =====
-- src/flow_plane/nat.rs: the branches of `NatTable::allocate_at`, each with the condition under
-- which it is taken and the table that it leaves.
use new_proxy.Prelude.{
  ℕ, ◌<◌, Bool, true, false, ◌≡◌, arith, nat_eq, none, some, [], ◌∷◌, ok, err, Result, Bool-cases,
  Option-cases, inl, inr,
}
use new_proxy.HashMap
use new_proxy.BTreeMap
use new_proxy.BTreeMap.Laws
use new_proxy.BTreeMap.{BTreeSet, IsSorted}
use new_proxy.Net.{SessionId, FlowKey, flow_eq, Instant, IpAddr}
use new_proxy.Nat.Directory.{
  SessionLocator, ReverseNatKey, from_translated_flow, NatBinding, NatError,
  address_family_mismatch, port_range_exhausted, duplicate_session,
}
use new_proxy.Nat.Table.{
  NatTable, bind, purge, translate, find_port, is_free, snat_for, allocate_at,
}

-- The reverse key that the flow would have behind a port.
abbrev pub candidate : FlowKey → IpAddr → ℕ → ReverseNatKey
candidate f ip port = from_translated_flow (translate f ip port)

module _ (p : ReverseNatKey → Bool) (f : FlowKey) (ip : IpAddr) where
  -- The port that is found is in the set, its key passes, and no smaller port's key does.
  pub find_port-some :
      (ports : BTreeSet) (port : ℕ) (tr : FlowKey) (key : ReverseNatKey)
      → IsSorted ports
      → find_port p f ip ports ≡ some (port, tr, key)
      → (BTreeMap.get port ports ≡ some tt)
        × (tr ≡ translate f ip port)
        × (key ≡ candidate f ip port)
        × (p (candidate f ip port) ≡ true)
        × ((q : ℕ) → q < port → BTreeMap.get q ports ≡ some tt → p (candidate f ip q) ≡ false)
  unfolding find_port HashMap.get
  find_port-some [] port tr key s h = cc
  find_port-some ((i, u) ∷ ports) port tr key s h = elim (Bool-cases (p (candidate f ip i))) [
    | inl free ↦ (
      ground arith,
      ground arith,
      ground arith,
      ground arith,
      λ q lt g. ground (arith, BTreeMap.Laws.get-above i ports s.0 q),
    )
    | inr busy ↦
        let (found, e, k, free, least) = find_port-some ports port tr key s.1 (ground arith) in
        (
          ground (arith, BTreeMap.Laws.get-above i ports s.0 i),
          e,
          k,
          free,
          λ q lt g. ground (arith, least q lt),
        )
  ]

  pub find_port-none :
      (ports : BTreeSet)
      → find_port p f ip ports ≡ none
      → (q : ℕ) → BTreeMap.get q ports ≡ some tt
      → p (candidate f ip q) ≡ false
  unfolding find_port HashMap.get
  find_port-none [] h q g = cc
  find_port-none ((i, u) ∷ ports) h q g = ground (arith, find_port-none ports (ground arith) q)

pub data Outcome (t : NatTable) (i : SessionId) (f : FlowKey) (l : SessionLocator) (now : Instant)
    (r : NatTable × Result NatError NatBinding) : Type 0 where
  duplicate :
      (b : NatBinding)
      → HashMap.get i t.forward ≡ some b
      → r ≡ (t, err (duplicate_session i))
      → Outcome t i f l now r
  mismatch :
      HashMap.get i t.forward ≡ none
      → snat_for t f.source ≡ none
      → r ≡ (t, err address_family_mismatch)
      → Outcome t i f l now r
  exhausted :
      (ip : IpAddr)
      → HashMap.get i t.forward ≡ none
      → snat_for t f.source ≡ some ip
      → find_port (is_free (purge t now)) f ip t.available_ports ≡ none
      → r ≡ (purge t now, err port_range_exhausted)
      → Outcome t i f l now r
  bound :
      (ip : IpAddr) (port : ℕ) (tr : FlowKey) (key : ReverseNatKey)
      → HashMap.get i t.forward ≡ none
      → snat_for t f.source ≡ some ip
      → find_port (is_free (purge t now)) f ip t.available_ports ≡ some (port, tr, key)
      → r ≡ (
        bind (purge t now) i l port key (record { original = f; translated = tr }),
        ok (record { original = f; translated = tr }),
      )
      → Outcome t i f l now r

pub outcome :
    (t : NatTable) (i : SessionId) (f : FlowKey) (l : SessionLocator) (now : Instant)
    → Outcome t i f l now (allocate_at t i f l now)
unfolding allocate_at purge
outcome t i f l now = elim (Option-cases (HashMap.get i t.forward)) [
  | inr (b, held) ↦ duplicate b held (rw held)
  | inl absent ↦ elim (Option-cases (snat_for t f.source)) [
    | inl other ↦ mismatch absent other (rw (absent, other))
    | inr (ip, family) ↦
        elim (Option-cases (find_port (is_free (purge t now)) f ip t.available_ports)) [
          | inl busy ↦ exhausted ip absent family busy (rw (absent, family, busy))
          | inr ((port, tr, key), found) ↦
              bound ip port tr key absent family found (rw (absent, family, found))
        ]
  ]
]
