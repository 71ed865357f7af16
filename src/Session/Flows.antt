-- ===== src/Session/Flows.antt =====
-- src/flow_plane/session.rs: the operations by QUIC flow.
use new_proxy.Prelude.{
  ℕ, Bool, true, false, ◌≡◌, refl, arith, nat_eq, nat_beq, none, some, ok, if◌then◌else◌,
  Option-cases, Bool-cases, inl, inr, List, [], ◌∷◌, mem, Distinct, length, Option, ap, ◌∙◌,
}
use new_proxy.HashMap
use new_proxy.HashMap.{HashMap, IsMap}
use new_proxy.Net.{SessionId, QuicFlowId, Instant}
use new_proxy.Session.Table.{Session, SessionTable, key_of}
use new_proxy.Session.Bulk.{rebind_sessions, rebind_quic_flow, ids_of_flow, remove_by_quic_flow}
use new_proxy.Session.Invariant.{IsValid}
use new_proxy.Session.Expire.{AreHeld, remove_all-AllRemoved}

-- A session as `rebind_quic_flow` leaves it.
abbrev pub rebound : QuicFlowId → QuicFlowId → Option Session → Option Session
rebound old new none = none
rebound old new (some s) =
    if nat_beq s.quic_flow_id old then some (record s { quic_flow_id = new }) else some s

pub get-rebind :
    (old new : QuicFlowId) (m : HashMap SessionId Session) (i : SessionId)
    → HashMap.get i (rebind_sessions old new m).0 ≡ rebound old new (HashMap.get i m)
unfolding rebind_sessions HashMap.get
get-rebind old new [] i = refl
get-rebind old new ((j, s) ∷ m) i = ground (arith, get-rebind old new m i)

rebind-IsMap :
    (old new : QuicFlowId) (m : HashMap SessionId Session)
    → IsMap m
    → IsMap (rebind_sessions old new m).0
unfolding rebind_sessions
rebind-IsMap old new [] h = h
rebind-IsMap old new ((j, s) ∷ m) h = elim (Bool-cases (nat_beq s.quic_flow_id old)) [
  | inl hit ↦
      rw (hit, rebind_sessions)
        (ground (arith, get-rebind old new m j, h.0), rebind-IsMap old new m h.1)
  | inr miss ↦
      rw (miss, rebind_sessions)
        (ground (arith, get-rebind old new m j, h.0), rebind-IsMap old new m h.1)
]

count_rebind :
    (old new : QuicFlowId) (m : HashMap SessionId Session)
    → (rebind_sessions old new m).1 ≡ length (ids_of_flow old m)
unfolding rebind_sessions ids_of_flow
count_rebind old new [] = refl
count_rebind old new ((j, s) ∷ m) = ground (arith, count_rebind old new m)

abbrev pub on_flow : QuicFlowId → Option Session → Bool
on_flow q none = false
on_flow q (some s) = nat_beq s.quic_flow_id q

-- Every entry stands under its own identifier.
abbrev AreNamed : HashMap SessionId Session → Type 0
AreNamed m = (j : SessionId) (s : Session) → HashMap.get j m ≡ some s → s.id ≡ j

AreNamed-tail :
    (j : SessionId) (s : Session) (m : HashMap SessionId Session)
    → IsMap ((j, s) ∷ m)
    → AreNamed ((j, s) ∷ m)
    → (s.id ≡ j) × AreNamed m
unfolding HashMap.get
AreNamed-tail j s m d same = (ground (arith, same j s), λ k c h. ground (arith, same k c, d.0))

mem-ids_of_flow :
    (q : QuicFlowId) (m : HashMap SessionId Session) (i : SessionId)
    → IsMap m
    → AreNamed m
    → mem i (ids_of_flow q m) ≡ on_flow q (HashMap.get i m)
unfolding ids_of_flow mem HashMap.get
mem-ids_of_flow q [] i d same = refl
mem-ids_of_flow q ((j, s) ∷ m) i d same =
    let (here, there) = AreNamed-tail j s m d same in
    ground (arith, d.0, mem-ids_of_flow q m i d.1 there)

ids_of_flow-Distinct :
    (q : QuicFlowId) (m : HashMap SessionId Session)
    → IsMap m
    → AreNamed m
    → Distinct (ids_of_flow q m)
unfolding ids_of_flow
ids_of_flow-Distinct q [] d same = tt
ids_of_flow-Distinct q ((j, s) ∷ m) d same =
    let (here, there) = AreNamed-tail j s m d same in
    elim (Bool-cases (nat_beq s.quic_flow_id q)) [
      | inr miss ↦ rw (miss, ids_of_flow) (ids_of_flow-Distinct q m d.1 there)
      | inl hit ↦
          rw (hit, ids_of_flow)
            (
              ground (arith, d.0, mem-ids_of_flow q m s.id d.1 there),
              ids_of_flow-Distinct q m d.1 there,
            )
    ]

ids_of_flow-AreHeld :
    (q : QuicFlowId) (m : HashMap SessionId Session) (t : SessionTable)
    → IsMap m
    → AreNamed m
    → ((j : SessionId) (s : Session) → HashMap.get j m ≡ some s → HashMap.get j t.sessions ≡ some s)
    → (ss : List Session) × AreHeld t (ids_of_flow q m) ss
unfolding ids_of_flow HashMap.get
ids_of_flow-AreHeld q [] t d same inside = ([], tt)
ids_of_flow-AreHeld q ((j, s) ∷ m) t d same inside =
    let (here, there) = AreNamed-tail j s m d same in
    let (ss, held) =
      ids_of_flow-AreHeld q m t d.1 there (λ k c h. inside k c (ground (arith, d.0))) in
    elim (Bool-cases (nat_beq s.quic_flow_id q)) [
      | inr miss ↦ rw (miss, ids_of_flow) (ss, held)
      | inl hit ↦ rw (hit, ids_of_flow) (s ∷ ss, (ground (arith, inside j s), held))
    ]

module _ {t : SessionTable} (v : IsValid t) (caller : ℕ) (owner : caller ≡ t.owner_worker_id) where
  owner_test : nat_beq caller t.owner_worker_id ≡ true
  owner_test = ground arith

  module _ (old new : QuicFlowId) where
    abbrev after : HashMap SessionId Session
    after = (rebind_sessions old new t.sessions).0

    -- What a rebinding leaves of a session.
    record IsSame (s s' : Session) : Type 0 where
      id : s'.id ≡ s.id
      worker : s'.flow_worker_id ≡ s.flow_worker_id
      key : key_of s' ≡ key_of s
      nat : s'.nat ≡ s.nat
      expires_at : s'.expires_at ≡ s.expires_at

    origin :
        (i : SessionId) (s' : Session)
        → HashMap.get i after ≡ some s'
        → (s : Session) × (HashMap.get i t.sessions ≡ some s) × IsSame s s'
    origin i s' h = elim (Option-cases (HashMap.get i t.sessions)) [
      | inl absent ↦ absurd (ground (arith, get-rebind old new t.sessions i))
      | inr (s, held) ↦ (s, held, ground (arith, get-rebind old new t.sessions i))
    ]

    image :
        (i : SessionId) (s : Session)
        → HashMap.get i t.sessions ≡ some s
        → (s' : Session) × (HashMap.get i after ≡ some s') × IsSame s s'
    image i s held = elim (Bool-cases (nat_beq s.quic_flow_id old)) [
      | inl hit ↦ (
        record s { quic_flow_id = new },
        ground (arith, get-rebind old new t.sessions i),
        ground arith,
      )
      | inr miss ↦ (s, ground (arith, get-rebind old new t.sessions i), ground arith)
    ]

    rebound-IsValid : IsValid (record t { sessions = after })
    rebound-IsValid = record {
      nat_valid = v.nat_valid;
      sessions_map = rebind-IsMap old new t.sessions v.sessions_map;
      deadlines_sorted = v.deadlines_sorted;
      buckets = v.buckets;
      same_id = λ i c h. let (s, held, e) = origin i c h in e.id ∙ v.same_id i s held;
      worker = λ i c h. let (s, held, e) = origin i c h in e.worker ∙ v.worker i s held;
      indexed = λ i c h. let (s, held, e) = origin i c h in rw e.key (v.indexed i s held);
      leased = λ i c h. let (s, held, e) = origin i c h in rw e.nat (v.leased i s held);
      scheduled =
          λ i c h _. let (s, held, e) = origin i c h in rw e.expires_at (v.scheduled i s held refl);
      keyed = λ k i h.
          let (s, held, key) = v.keyed k i h in
          let (s', found, e) = image i s held in (s', found, e.key ∙ key);
      timed = λ d i h.
          let (s, held, at) = v.timed d i h in
          let (s', found, e) = image i s held in (s', found, e.expires_at ∙ at);
    }

    -- In a well-formed table whose owner calls, a rebinding moves every session of the old QUIC
    -- flow to the new one, changes no other session, returns how many the old flow had, and keeps
    -- the table well formed.
    pub rebind_quic_flow-sessions :
        ((rebind_quic_flow t caller old new).1 ≡ ok (length (ids_of_flow old t.sessions)))
        × ((i : SessionId)
            → HashMap.get i (rebind_quic_flow t caller old new).0.sessions
              ≡ rebound old new (HashMap.get i t.sessions))
        × IsValid (rebind_quic_flow t caller old new).0
    unfolding rebind_quic_flow
    rebind_quic_flow-sessions =
        rw (owner_test, rebind_quic_flow)
          (
            ap ok (count_rebind old new t.sessions),
            λ i. get-rebind old new t.sessions i,
            rebound-IsValid,
          )

  -- In a well-formed table whose owner calls, the sessions of a QUIC flow are removed, all others
  -- stay, the number of those removed is returned, and the table stays well formed.
  pub remove_by_quic_flow-sessions :
      (q : QuicFlowId) (clock : SessionId → Instant)
      → ((remove_by_quic_flow t caller q clock).1 ≡ ok (length (ids_of_flow q t.sessions)))
        × ((i : SessionId)
            → HashMap.get i (remove_by_quic_flow t caller q clock).0.sessions
              ≡ (if on_flow q (HashMap.get i t.sessions) then none else HashMap.get i t.sessions))
        × IsValid (remove_by_quic_flow t caller q clock).0
  unfolding remove_by_quic_flow
  remove_by_quic_flow-sessions q clock =
      let (ss, held) = ids_of_flow-AreHeld q t.sessions t v.sessions_map v.same_id (λ j s h. h) in
      let (done, all) =
        remove_all-AllRemoved (ids_of_flow q t.sessions) ss v caller clock owner
          (ids_of_flow-Distinct q t.sessions v.sessions_map v.same_id) held in
      rw (owner_test, remove_by_quic_flow, done)
        (
          refl,
          λ i. rw (← mem-ids_of_flow q t.sessions i v.sessions_map v.same_id) (all.others i),
          all.valid,
        )
