-- ===== src/Session/Replace.antt =====
-- src/flow_plane/session.rs: the operations that overwrite one session in place, `touch_tcp` and
-- `correct_intercept_io`.
use new_proxy.Prelude.{
  ℕ, ◌+◌, Bool, ◌&&◌, ◌≡◌, refl, arith, ◌==◌, nat_eq, nat_beq, Option, some, if◌then◌else◌,
  Option-cases, Bool-cases, inl, inr,
}
use new_proxy.HashMap
use new_proxy.HashMap.Laws.{get-insert, insert-IsMap}
use new_proxy.BTreeMap.{IsSorted}
use new_proxy.Net.{SessionId, Instant, IoOwnerKey, io_eq}
use new_proxy.Session.Tcp.{touch_state}
use new_proxy.Session.Deadlines.{Deadlines, add_deadline, remove_deadline}
use new_proxy.Session.Table.{
  key_eq, Session, key_of, SessionTable, touched, touch_tcp, correct_session, correct_intercept_io,
}
use new_proxy.Session.Expiry.{
  due_at, AreBuckets, due_at-add_deadline, due_at-remove_deadline, add_deadline-IsSorted,
  remove_deadline-IsSorted, add_deadline-AreBuckets, remove_deadline-AreBuckets,
}
use new_proxy.Session.Invariant.{IsValid, due_at-expires_at}

abbrev with_session : SessionTable → SessionId → Session → Deadlines → SessionTable
with_session t i s m = record t { sessions = HashMap.insert i s t.sessions; deadlines = m }

module _ {t : SessionTable} (v : IsValid t) (i : SessionId) (s s' : Session)
    (held : HashMap.get i t.sessions ≡ some s) (m : Deadlines) (same_id : s'.id ≡ s.id)
    (same_worker : s'.flow_worker_id ≡ s.flow_worker_id) (same_key : key_of s' ≡ key_of s)
    (same_nat : s'.nat ≡ s.nat) (sorted : IsSorted m) (buckets : AreBuckets m)
    (rescheduled : (d : Instant) (j : SessionId)
      → due_at m d j
        ≡ (if nat_beq i j then nat_beq s'.expires_at d else due_at t.deadlines d j)) where
  replaced :
      (j : SessionId)
      → HashMap.get j (HashMap.insert i s' t.sessions)
        ≡ (if nat_beq i j then some s' else HashMap.get j t.sessions)
  replaced j = get-insert j i s' t.sessions

  with_session-IsValid : IsValid (with_session t i s' m)
  with_session-IsValid = record {
    nat_valid = v.nat_valid;
    sessions_map = insert-IsMap i s' t.sessions v.sessions_map;
    deadlines_sorted = sorted;
    buckets = buckets;
    same_id = λ j c h. ground (arith, replaced j, v.same_id j c, v.same_id i s held);
    worker = λ j c h. ground (arith, replaced j, v.worker j c, v.worker i s held);
    indexed = λ j c h. ground (arith, replaced j, v.indexed j c, v.indexed i s held);
    leased = λ j c h. ground (arith, replaced j, v.leased j c, v.leased i s held);
    scheduled = λ j c h _. ground (arith, replaced j, rescheduled c.expires_at j, v.scheduled j c);
    keyed = λ k j h. elim (Bool-cases (nat_beq i j)) [
      | inl same ↦ (s', ground (arith, replaced j), ground (arith, v.keyed k j h))
      | inr other ↦ let (c, found, key) = v.keyed k j h in (c, ground (arith, replaced j), key)
    ];
    timed = λ d j h. elim (Bool-cases (nat_beq i j)) [
      | inl same ↦ (s', ground (arith, replaced j), ground (arith, rescheduled d j))
      | inr other ↦
          let (c, found, at) = v.timed d j (ground (arith, rescheduled d j)) in
          (c, ground (arith, replaced j), at)
    ];
  }

module _ {t : SessionTable} (v : IsValid t) (i : SessionId) where
  touched_rescheduled :
      (s : Session)
      → HashMap.get i t.sessions ≡ some s
      → (new d : Instant) (j : SessionId)
      → due_at (add_deadline (remove_deadline t.deadlines s.expires_at i) new i) d j
        ≡ (if nat_beq i j then nat_beq new d else due_at t.deadlines d j)
  touched_rescheduled s held new d j = ground (
    arith,
    due_at-add_deadline (remove_deadline t.deadlines s.expires_at i) new d i j,
    due_at-remove_deadline t.deadlines s.expires_at d i j,
    due_at-expires_at v i s held d,
  )

  touched-IsValid :
      (s : Session) (flags : Option ℕ) (is_reverse : Bool) (now : Instant)
      → HashMap.get i t.sessions ≡ some s
      → IsValid (touched t i s flags is_reverse now)
  unfolding touched
  touched-IsValid s flags is_reverse now held =
      let next = touch_state s.original.protocol s.tcp_state flags is_reverse in
      let earlier = remove_deadline t.deadlines s.expires_at i in
      with_session-IsValid v i s (record s { tcp_state = next.0; expires_at = now + next.1 }) held
        (add_deadline earlier (now + next.1) i) refl refl refl refl
        (add_deadline-IsSorted earlier _ i
          (remove_deadline-IsSorted t.deadlines _ i v.deadlines_sorted))
        (add_deadline-AreBuckets earlier _ i (remove_deadline-AreBuckets t.deadlines _ i v.buckets))
        (touched_rescheduled s held (now + next.1))

  -- A touch keeps the table well formed on every branch.
  pub touch_tcp-IsValid :
      (caller : ℕ) (flags : Option ℕ) (is_reverse : Bool) (now : Instant)
      → IsValid (touch_tcp t caller i flags is_reverse now).0
  unfolding touch_tcp
  touch_tcp-IsValid caller flags is_reverse now =
      elim (Bool-cases (nat_beq caller t.owner_worker_id)) [
        | inr other ↦ rw (other, touch_tcp) v
        | inl owner ↦ elim (Option-cases (HashMap.get i t.sessions)) [
          | inl absent ↦ rw (owner, absent, touch_tcp) v
          | inr (s, held) ↦
              rw (owner, held, touch_tcp) (touched-IsValid s flags is_reverse now held)
        ]
      ]

  moved-IsValid :
      (s : Session) (observed : IoOwnerKey)
      → HashMap.get i t.sessions ≡ some s
      → s.intercept_io.ifindex ≡ observed.ifindex
      → IsValid (with_session t i (record s { intercept_io = observed }) t.deadlines)
  moved-IsValid s observed held same =
      with_session-IsValid v i s (record s { intercept_io = observed }) held t.deadlines refl refl
        (ground arith) refl v.deadlines_sorted v.buckets
        (λ d j. ground (arith, due_at-expires_at v i s held d))

  correct_session-IsValid :
      (s : Session) (observed : IoOwnerKey)
      → HashMap.get i t.sessions ≡ some s
      → IsValid (correct_session t i s observed).0
  unfolding correct_session
  correct_session-IsValid s observed held = elim (Bool-cases (s.intercept_io == observed)) [
    | inl same ↦ rw (same, correct_session) v
    | inr other ↦
        elim (Bool-cases
          (nat_beq s.intercept_io.ifindex observed.ifindex && nat_beq s.intercept_io.queue_id 0)) [
            | inl moved ↦
                rw (other, moved, correct_session) (moved-IsValid s observed held (ground arith))
            | inr elsewhere ↦ rw (other, elsewhere, correct_session) v
          ]
  ]

  -- A correction of the ingress queue keeps the table well formed on every branch.
  pub correct_intercept_io-IsValid :
      (caller : ℕ) (observed : IoOwnerKey) → IsValid (correct_intercept_io t caller i observed).0
  unfolding correct_intercept_io
  correct_intercept_io-IsValid caller observed =
      elim (Bool-cases (nat_beq caller t.owner_worker_id)) [
        | inr other ↦ rw (other, correct_intercept_io) v
        | inl owner ↦ elim (Option-cases (HashMap.get i t.sessions)) [
          | inl absent ↦ rw (owner, absent, correct_intercept_io) v
          | inr (s, held) ↦
              rw (owner, held, correct_intercept_io) (correct_session-IsValid s observed held)
        ]
      ]
