-- ===== src/Nat/Removal.antt =====
-- src/flow_plane/nat.rs: what `remove_at` does to a table, on every branch.
use new_proxy.Prelude.{
  ℕ, ◌+◌, ◌≡◌, arith, ◌==◌, nat_eq, none, some, ok, Option-cases, inl, inr, length, if◌then◌else◌,
  nat_beq,
}
use new_proxy.HashMap
use new_proxy.HashMap.Laws.{get-remove, length-remove}
use new_proxy.BTreeMap
use new_proxy.BTreeMap.Laws
use new_proxy.Net.{SessionId, FlowKey, flow_eq, Instant}
use new_proxy.Nat.Directory.{from_return_flow, NatBinding}
use new_proxy.Nat.Table.{NatTable, release, remove_at, lookup_reverse}
use new_proxy.Nat.Invariant.{IsValid, key_of, port, release-IsValid}

module _ {owner : ℕ} {t : NatTable} (v : IsValid owner t) (i : SessionId) (now : Instant) where
  -- Every removal, a failed one included, keeps a well-formed NAT table well formed.
  pub remove-IsValid : IsValid owner (remove_at t i now).0
  unfolding remove_at
  remove-IsValid = elim (Option-cases (HashMap.get i t.forward)) [
    | inl absent ↦ rw (absent, remove_at) v
    | inr (b, held) ↦ rw (held, remove_at) (release-IsValid v i b now held)
  ]

  pub remove_ok :
      (b : NatBinding)
      → (remove_at t i now).1 ≡ ok b
      → (HashMap.get i t.forward ≡ some b) × ((remove_at t i now).0 ≡ release t i b now)
  unfolding remove_at
  remove_ok b h = ground arith

  -- In a well-formed table, a successful removal returns the binding that the session had, frees
  -- its port, forgets the session and its reverse key, and leaves all other sessions and keys as
  -- they were.
  pub remove-lookup_reverse :
      (b : NatBinding)
      → (remove_at t i now).1 ≡ ok b
      → (HashMap.get i t.forward ≡ some b)
        × (BTreeMap.get (port b) (remove_at t i now).0.available_ports ≡ some tt)
        × ((j : SessionId)
            → HashMap.get j (remove_at t i now).0.forward
              ≡ (if i == j then none else HashMap.get j t.forward))
        × ((r : FlowKey)
            → lookup_reverse (remove_at t i now).0 r
              ≡ (if key_of b == from_return_flow r then none else lookup_reverse t r))
  unfolding lookup_reverse release
  remove-lookup_reverse b h =
      let (held, state) = remove_ok b h in
      (
        held,
        rw state (ground (arith, BTreeMap.Laws.get-insert (port b) (port b) tt t.available_ports)),
        λ j. rw state (get-remove j i t.forward),
        λ r. rw state (get-remove (from_return_flow r) (key_of b) t.reverse),
      )

  pub remove-forward :
      (j : SessionId)
      → HashMap.get j (remove_at t i now).0.forward
        ≡ (if nat_beq i j then none else HashMap.get j t.forward)
  unfolding remove_at release
  remove-forward j = ground (arith, get-remove j i t.forward)

  -- In a well-formed table, on every branch of a removal, the numbers of free ports and of leases
  -- add up as before.
  pub remove_conserves :
      length (remove_at t i now).0.available_ports + length (remove_at t i now).0.forward
      ≡ length t.available_ports + length t.forward
  unfolding remove_at release
  remove_conserves = elim (Option-cases (HashMap.get i t.forward)) [
    | inl absent ↦ rw (absent, remove_at)
    | inr (b, held) ↦
        rw (held, remove_at)
          (omega (
            arith,
            length-remove i b t.forward v.forward_map held,
            BTreeMap.Laws.length-insert_new (port b) tt t.available_ports (v.leased i b held),
          ))
  ]
