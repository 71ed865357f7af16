-- ===== src/Session/Create.antt =====
-- src/flow_plane/session.rs: `get_or_create_with_flags_at` and the invariant of the table.
use new_proxy.Prelude.{
  ℕ, Bool, true, ◌&&◌, ◌≡◌, ◌≢◌, refl, arith, ◌==◌, nat_eq, nat_beq, Option, none, some, ok, err,
  Result, if◌then◌else◌, Bool-cases, inl, inr, ==_eq,
}
use new_proxy.HashMap
use new_proxy.HashMap.Laws.{get-insert, insert-IsMap}
use new_proxy.Net.{SessionId, QuicFlowId, Instant, FlowKey, IoOwnerKey, flow_eq}
use new_proxy.Nat
use new_proxy.Nat.Table.{NatTable, allocate_at}
use new_proxy.Nat.Directory.{NatBinding, NatError}
use new_proxy.Nat.Invariant.{locator_of}
use new_proxy.Nat.Leases.{allocate-IsValid, allocate-forward}
use new_proxy.Session.Deadlines.{add_deadline}
use new_proxy.Session.Table.{
  SessionKey, key_eq, key_beq_iff, Session, key_of, SessionTable, new_session, record_session,
  create,
}
use new_proxy.Session.Expiry.{
  due_at, due_at-add_deadline, add_deadline-IsSorted, add_deadline-AreBuckets,
}
use new_proxy.Session.Invariant.{IsValid, IsValidBut}

-- Another NAT table that still holds every session's binding.
pub with_nat-IsValid :
    {exempt : Instant → Bool} {t : SessionTable} (v : IsValidBut exempt t) (nat : NatTable)
    → Nat.Invariant.IsValid t.owner_worker_id nat
    → ((i : SessionId) (s : Session)
        → HashMap.get i t.sessions ≡ some s
        → HashMap.get i nat.forward ≡ some s.nat)
    → IsValidBut exempt (record t { nat = nat })
with_nat-IsValid v nat valid leased = record {
  nat_valid = valid;
  sessions_map = v.sessions_map;
  deadlines_sorted = v.deadlines_sorted;
  buckets = v.buckets;
  same_id = v.same_id;
  worker = v.worker;
  indexed = v.indexed;
  leased = leased;
  scheduled = v.scheduled;
  keyed = v.keyed;
  timed = v.timed;
}

module _ {t : SessionTable} (v : IsValid t) (s : Session) (nat : NatTable)
    (nat_valid : Nat.Invariant.IsValid t.owner_worker_id nat)
    (fresh : HashMap.get s.id t.nat.forward ≡ none)
    (forward : (j : SessionId)
      → HashMap.get j nat.forward
        ≡ (if nat_beq s.id j then some s.nat else HashMap.get j t.nat.forward))
    (worker : s.flow_worker_id ≡ t.owner_worker_id)
    (new_key : HashMap.get (key_of s) t.by_key ≡ none) where
  by_id :
      (j : SessionId)
      → HashMap.get j (HashMap.insert s.id s t.sessions)
        ≡ (if nat_beq s.id j then some s else HashMap.get j t.sessions)
  by_id j = get-insert j s.id s t.sessions

  by_key :
      (k : SessionKey)
      → HashMap.get k (HashMap.insert (key_of s) s.id t.by_key)
        ≡ (if key_of s == k then some s.id else HashMap.get k t.by_key)
  by_key k = get-insert k (key_of s) s.id t.by_key

  due :
      (d : Instant) (j : SessionId)
      → due_at (add_deadline t.deadlines s.expires_at s.id) d j
        ≡ (if nat_beq s.expires_at d && nat_beq s.id j then true else due_at t.deadlines d j)
  due d j = due_at-add_deadline t.deadlines s.expires_at d s.id j

  no_session : (c : Session) → HashMap.get s.id t.sessions ≢ some c
  no_session c h = ground (arith, v.leased s.id c h)

  record_session-IsValid : IsValid (record_session t nat s)
  unfolding record_session
  record_session-IsValid = record {
    nat_valid = nat_valid;
    sessions_map = insert-IsMap s.id s t.sessions v.sessions_map;
    deadlines_sorted = add_deadline-IsSorted t.deadlines s.expires_at s.id v.deadlines_sorted;
    buckets = add_deadline-AreBuckets t.deadlines s.expires_at s.id v.buckets;
    same_id = λ j c h. ground (arith, by_id j, v.same_id j c);
    worker = λ j c h. ground (arith, by_id j, v.worker j c);
    indexed = λ j c h.
        ground
          (arith, by_id j, by_key (key_of c), v.indexed j c, key_beq_iff (key_of s) (key_of c));
    leased = λ j c h. ground (arith, by_id j, forward j, v.leased j c);
    scheduled = λ j c h _. ground (arith, by_id j, due c.expires_at j, v.scheduled j c);
    keyed = λ k j h. elim (Bool-cases (key_of s == k)) [
      | inl same ↦ (s, ground (arith, by_key k, by_id j), ==_eq (key_of s) k same)
      | inr other ↦
          let (c, found, key) = v.keyed k j (ground (arith, by_key k)) in
          (c, ground (arith, by_id j, no_session c), key)
    ];
    timed = λ d j h. elim (Bool-cases (nat_beq s.expires_at d && nat_beq s.id j)) [
      | inl same ↦ (s, ground (arith, by_id j), ground arith)
      | inr other ↦
          let (c, found, at) = v.timed d j (ground (arith, due d j)) in
          (c, ground (arith, by_id j, no_session c), at)
    ];
  }

module _ {t : SessionTable} (v : IsValid t) (original : FlowKey) (io : IoOwnerKey)
    (quic : QuicFlowId) (flags : Option ℕ) (now clock : Instant) where
  abbrev pub key : SessionKey
  key = record { original = original; intercept_ifindex = io.ifindex }

  abbrev pub allocated : NatTable × Result NatError NatBinding
  allocated =
      allocate_at t.nat t.next_session_id original (locator_of t.owner_worker_id t.next_session_id)
        clock

  pub create-IsValid :
      HashMap.get key t.by_key ≡ none → IsValid (create t original io quic flags now clock).0
  unfolding create new_session
  create-IsValid absent = by_result allocated.1 refl
    where
      valid : Nat.Invariant.IsValid t.owner_worker_id allocated.0
      valid = allocate-IsValid v.nat_valid t.next_session_id original clock

      by_result :
          (r : Result NatError NatBinding)
          → allocated.1 ≡ r
          → IsValid (create t original io quic flags now clock).0
      by_result (err e) h =
          rw (h, create)
            (with_nat-IsValid v allocated.0 valid (λ j c g. ground (
              arith,
              v.leased j c g,
              (allocate-forward v.nat_valid t.next_session_id original clock).1 e h,
            )))
      by_result (ok b) h =
          let (fresh, forward) =
            (allocate-forward v.nat_valid t.next_session_id original clock).0 b h in
          rw (h, create)
            (record_session-IsValid v (new_session t original b io quic flags now) allocated.0 valid
              fresh forward refl absent)
