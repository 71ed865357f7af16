-- ===== src/Session/Ephemeral.antt =====
-- src/flow_plane/session.rs: the NAT bindings without a session, such as a local DNS query's.
use new_proxy.Prelude.{
  ℕ, true, ◌≡◌, refl, arith, nat_eq, nat_beq, none, some, ok, err, Result, Bool-cases, inl, inr,
}
use new_proxy.HashMap
use new_proxy.Net.{SessionId, Instant, FlowKey}
use new_proxy.Nat.Table.{allocate_at, remove_at}
use new_proxy.Nat.Directory.{NatBinding, NatError}
use new_proxy.Nat.Invariant.{locator_of}
use new_proxy.Nat.Leases.{allocate-IsValid, allocate-forward}
use new_proxy.Nat.Removal.{remove-IsValid, remove-forward}
use new_proxy.Session.Table.{Session, SessionTable}
use new_proxy.Session.Bulk.{allocate_ephemeral_nat, release_ephemeral_nat}
use new_proxy.Session.Invariant.{IsValid}
use new_proxy.Session.Create.{with_nat-IsValid}

module _ {t : SessionTable} (v : IsValid t) (caller : ℕ) (token : SessionId) (clock : Instant) where
  allocate_keeps :
      (original : FlowKey) (r : Result NatError NatBinding)
      → (allocate_at t.nat token original (locator_of t.owner_worker_id token) clock).1 ≡ r
      → (i : SessionId) (s : Session) → HashMap.get i t.sessions ≡ some s
      → HashMap.get i
          (allocate_at t.nat token original (locator_of t.owner_worker_id token) clock).0.forward
        ≡ some s.nat
  allocate_keeps original (ok b) e i s h =
      let (fresh, forward) = (allocate-forward v.nat_valid token original clock).0 b e in
      ground (arith, forward i, v.leased i s)
  allocate_keeps original (err b) e i s h =
      ground (arith, (allocate-forward v.nat_valid token original clock).1 b e, v.leased i s)

  allocated_state :
      (original : FlowKey)
      → IsValid (record t {
        nat = (allocate_at t.nat token original (locator_of t.owner_worker_id token) clock).0;
      })
  allocated_state original =
      with_nat-IsValid v
        (allocate_at t.nat token original (locator_of t.owner_worker_id token) clock).0
        (allocate-IsValid v.nat_valid token original clock) (allocate_keeps original _ refl)

  released_state :
      HashMap.get token t.sessions ≡ none
      → IsValid (record t { nat = (remove_at t.nat token clock).0 })
  released_state no_session =
      with_nat-IsValid v (remove_at t.nat token clock).0 (remove-IsValid v.nat_valid token clock)
        (λ i s h. ground (arith, remove-forward v.nat_valid token clock i, v.leased i s))

  allocate_nat :
      (original : FlowKey)
      → nat_beq caller t.owner_worker_id ≡ true
      → (allocate_ephemeral_nat t caller token original clock).0 ≡ record t {
        nat = (allocate_at t.nat token original (locator_of t.owner_worker_id token) clock).0;
      }
  unfolding allocate_ephemeral_nat
  allocate_nat original owner = ground arith

  release_nat :
      nat_beq caller t.owner_worker_id ≡ true
      → (release_ephemeral_nat t caller token clock).0
        ≡ record t { nat = (remove_at t.nat token clock).0 }
  unfolding release_ephemeral_nat
  release_nat owner = ground arith

  -- A binding without a session leaves the table well formed, and so does its release, unless its
  -- token is the identifier of a session.
  pub ephemeral_nat-IsValid :
      ((original : FlowKey) → IsValid (allocate_ephemeral_nat t caller token original clock).0)
      × (HashMap.get token t.sessions ≡ none
          → IsValid (release_ephemeral_nat t caller token clock).0)
  ephemeral_nat-IsValid = elim (Bool-cases (nat_beq caller t.owner_worker_id)) [
    | inl owner ↦ (
      λ original. rw (allocate_nat original owner) (allocated_state original),
      λ no_session. rw (release_nat owner) (released_state no_session),
    )
    | inr other ↦
        unfold allocate_ephemeral_nat release_ephemeral_nat in
        (
          λ original. rw (other, allocate_ephemeral_nat) v,
          λ no_session. rw (other, release_ephemeral_nat) v,
        )
  ]
