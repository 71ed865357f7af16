-- ===== src/Session/Remove.antt =====
-- src/flow_plane/session.rs: `remove` in a well-formed table.
use new_proxy.Prelude.{
  ℕ, Bool, true, false, ◌&&◌, ◌≡◌, refl, arith, ◌==◌, nat_eq, nat_beq, none, some, ok,
  if◌then◌else◌,
}
use new_proxy.HashMap
use new_proxy.HashMap.Laws.{get-remove, remove-IsMap}
use new_proxy.Net.{SessionId, Instant}
use new_proxy.Nat
use new_proxy.Nat.Table.{NatTable, remove_at}
use new_proxy.Nat.Removal.{remove-IsValid, remove-lookup_reverse}
use new_proxy.Session.Deadlines.{remove_deadline}
use new_proxy.Session.Table.{
  SessionKey, key_eq, key_beq_iff, Session, key_of, SessionTable, forget, remove,
}
use new_proxy.Session.Expiry.{
  due_at, due_at-remove_deadline, remove_deadline-IsSorted, remove_deadline-AreBuckets,
}
use new_proxy.Session.Invariant.{IsValidBut}

module _ {exempt : Instant → Bool} {t : SessionTable} (v : IsValidBut exempt t) (i : SessionId)
    (s : Session) (held : HashMap.get i t.sessions ≡ some s) where
  module _ (nat : NatTable) (nat_valid : Nat.Invariant.IsValid t.owner_worker_id nat)
      (forward : (j : SessionId)
        → HashMap.get j nat.forward
          ≡ (if nat_beq i j then none else HashMap.get j t.nat.forward)) where
    by_id :
        (j : SessionId)
        → HashMap.get j (HashMap.remove i t.sessions)
          ≡ (if nat_beq i j then none else HashMap.get j t.sessions)
    by_id j = get-remove j i t.sessions

    by_key :
        (k : SessionKey)
        → HashMap.get k (HashMap.remove (key_of s) t.by_key)
          ≡ (if key_of s == k then none else HashMap.get k t.by_key)
    by_key k = get-remove k (key_of s) t.by_key

    due :
        (d : Instant) (j : SessionId)
        → due_at (remove_deadline t.deadlines s.expires_at i) d j
          ≡ (if nat_beq s.expires_at d && nat_beq i j then false else due_at t.deadlines d j)
    due d j = due_at-remove_deadline t.deadlines s.expires_at d i j

    forget-IsValid : IsValidBut exempt (forget t i s nat)
    unfolding forget
    forget-IsValid = record {
      nat_valid = nat_valid;
      sessions_map = remove-IsMap i t.sessions v.sessions_map;
      deadlines_sorted = remove_deadline-IsSorted t.deadlines s.expires_at i v.deadlines_sorted;
      buckets = remove_deadline-AreBuckets t.deadlines s.expires_at i v.buckets;
      same_id = λ j c h. ground (arith, by_id j, v.same_id j c);
      worker = λ j c h. ground (arith, by_id j, v.worker j c);
      indexed = λ j c h. ground (
        arith,
        by_id j,
        by_key (key_of c),
        v.indexed j c,
        v.indexed i s held,
        key_beq_iff (key_of s) (key_of c),
      );
      leased = λ j c h. ground (arith, by_id j, forward j, v.leased j c);
      scheduled = λ j c h x. ground (arith, by_id j, due c.expires_at j, v.scheduled j c);
      keyed = λ k j h.
          let (c, found, key) = v.keyed k j (ground (arith, by_key k)) in
          (c, ground (arith, by_id j, by_key k, key_beq_iff (key_of s) k), key);
      timed = λ d j h.
          let (c, found, at) = v.timed d j (ground (arith, due d j)) in
          (c, ground (arith, by_id j, due d j), at);
    }

  -- What `remove` leaves.
  pub record Removed (t' : SessionTable) : Type 0 where
    pub valid : IsValidBut exempt t'
    pub owner : t'.owner_worker_id ≡ t.owner_worker_id
    pub others :
        (j : SessionId)
        → HashMap.get j t'.sessions ≡ (if nat_beq i j then none else HashMap.get j t.sessions)
    pub unleased : HashMap.get i t'.nat.forward ≡ none

  -- In a table that is well formed, where sessions with certain deadlines may be exempt from
  -- standing in the deadline index, the owner's removal of a session that is there succeeds,
  -- returns that session, ends its lease, removes no other session and keeps the table so.
  pub remove-Removed :
      (caller : ℕ) (clock : Instant)
      → caller ≡ t.owner_worker_id
      → ((remove t caller i clock).1 ≡ ok s) × Removed (remove t caller i clock).0
  unfolding remove
  remove-Removed caller clock owner =
      let released : (remove_at t.nat i clock).1 ≡ ok s.nat = freed in
      let (was, port, forward, replies) =
        remove-lookup_reverse v.nat_valid i clock s.nat released in
      let left =
        forget-IsValid (remove_at t.nat i clock).0 (remove-IsValid v.nat_valid i clock) forward in
      rw (owner_test, held, remove, released)
        (
          refl,
          record {
            valid = left;
            owner = unfold forget in refl;
            others = λ j. unfold forget in get-remove j i t.sessions;
            unleased = unfold forget in ground (arith, forward i);
          },
        )
    where
      freed : (remove_at t.nat i clock).1 ≡ ok s.nat
      freed = unfold remove_at in rw (v.leased i s held, remove_at)

      owner_test : nat_beq caller t.owner_worker_id ≡ true
      owner_test = ground arith
