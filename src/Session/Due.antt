-- ===== src/Session/Due.antt =====
-- src/flow_plane/session.rs: what the `while` loop of `expire_idle` pops from the deadline index.
use new_proxy.Prelude.{
  ◌≤◌, true, false, ◌≡◌, refl, arith, [], ◌∷◌, if◌then◌else◌, leb, nat_eq, nat_beq, Bool-cases, inl,
  inr, mem, Distinct, mem-append, append-Distinct, leb→le,
}
use new_proxy.HashMap
use new_proxy.HashMap.{IsMap}
use new_proxy.BTreeMap
use new_proxy.BTreeMap.{IsSorted, IsAbove}
use new_proxy.BTreeMap.Laws
use new_proxy.Net.{SessionId, Instant}
use new_proxy.Session.Deadlines.{Bucket, Deadlines, ids_of, pop_due}
use new_proxy.Session.Expiry.{due_at, due_at-none, AreBuckets}

mem-ids_of : (i : SessionId) (ids : Bucket) → mem i (ids_of ids) ≡ HashMap.contains_key i ids
unfolding mem HashMap.get
mem-ids_of i [] = refl
mem-ids_of i ((j, u) ∷ ids) = ground (arith, mem-ids_of i ids)

ids_of-Distinct : (ids : Bucket) → IsMap ids → Distinct (ids_of ids)
ids_of-Distinct [] h = tt
ids_of-Distinct ((j, u) ∷ ids) h = (ground (arith, mem-ids_of j ids), ids_of-Distinct ids h.1)

due_at_cons :
    (d : Instant) (ids : Bucket) (m : Deadlines) (e : Instant) (j : SessionId)
    → due_at ((d, ids) ∷ m) e j ≡ (if nat_beq d e then HashMap.contains_key j ids else due_at m e j)
unfolding due_at HashMap.get
due_at_cons d ids m e j = ground arith

due_at_above :
    (d : Instant) (m : Deadlines) (e : Instant) (j : SessionId)
    → IsAbove d m
    → e ≤ d
    → due_at m e j ≡ false
due_at_above d m e j h le = due_at-none m e j (BTreeMap.Laws.get-above d m h e le)

pub pop_due-IsSorted : (m : Deadlines) (now : Instant) → IsSorted m → IsSorted (pop_due m now).1
unfolding pop_due
pop_due-IsSorted [] now s = s
pop_due-IsSorted ((d, ids) ∷ m) now s = elim (Bool-cases (leb d now)) [
  | inl due ↦ rw (due, pop_due) (pop_due-IsSorted m now s.1)
  | inr later ↦ rw (later, pop_due) s
]

-- What stays is what lies after `now`.
pub due_at-pop_due :
    (m : Deadlines) (now e : Instant) (j : SessionId)
    → IsSorted m
    → due_at (pop_due m now).1 e j ≡ (if leb e now then false else due_at m e j)
unfolding pop_due
due_at-pop_due [] now e j s = ground (arith, due_at-none [] e j (unfold HashMap.get in refl))
due_at-pop_due ((d, ids) ∷ m) now e j s =
    ground (arith, due_at_cons d ids m e j, due_at-pop_due m now e j s.1, due_at_above d m e j s.0)

-- A session is popped if it is due, and only then.
pub mem-pop_due :
    (m : Deadlines) (now e : Instant) (j : SessionId)
    → IsSorted m
    → due_at m e j ≡ true
    → e ≤ now
    → mem j (pop_due m now).0 ≡ true
unfolding pop_due
mem-pop_due [] now e j s h le =
    absurd (ground (arith, due_at-none [] e j (unfold HashMap.get in refl)))
mem-pop_due ((d, ids) ∷ m) now e j s h le = ground (
  arith,
  due_at_cons d ids m e j,
  mem-pop_due m now e j s.1,
  mem-append j (ids_of ids) (pop_due m now).0,
  mem-ids_of j ids,
  due_at_above d m e j s.0,
)

pub pop_due-mem :
    (m : Deadlines) (now : Instant) (j : SessionId)
    → IsSorted m
    → mem j (pop_due m now).0 ≡ true
    → (e : Instant) × (due_at m e j ≡ true) × (e ≤ now)
unfolding pop_due mem
pop_due-mem [] now j s h = cc
pop_due-mem ((d, ids) ∷ m) now j s h = elim (Bool-cases (leb d now)) [
  | inr later ↦ absurd (ground arith)
  | inl due ↦ elim (Bool-cases (HashMap.contains_key j ids)) [
    | inl here ↦ (d, ground (arith, due_at_cons d ids m d j), leb→le d now due)
    | inr elsewhere ↦
        let (e, there, le) =
          pop_due-mem m now j s.1
            (ground (arith, mem-append j (ids_of ids) (pop_due m now).0, mem-ids_of j ids)) in
        (e, ground (arith, due_at_cons d ids m e j, due_at_above d m e j s.0), le)
  ]
]

apart_of :
    (d : Instant) (ids : Bucket) (m : Deadlines) (now : Instant) (j : SessionId)
    → IsSorted ((d, ids) ∷ m)
    → ((e : Instant) → due_at ((d, ids) ∷ m) d j ≡ true → due_at ((d, ids) ∷ m) e j ≡ true → d ≡ e)
    → mem j (ids_of ids) ≡ true
    → mem j (pop_due m now).0 ≡ false
apart_of d ids m now j s one h = elim (Bool-cases (mem j (pop_due m now).0)) [
  | inr absent ↦ absent
  | inl there ↦
      let (e, due, le) = pop_due-mem m now j s.1 there in
      absurd (
        ground (
          arith,
          one e,
          due_at_cons d ids m d j,
          due_at_cons d ids m e j,
          mem-ids_of j ids,
          due_at_above d m e j s.0,
        ))
]

-- With one deadline to a session, nothing is popped twice.
pub pop_due-Distinct :
    (m : Deadlines) (now : Instant)
    → IsSorted m
    → AreBuckets m
    → ((d e : Instant) (j : SessionId) → due_at m d j ≡ true → due_at m e j ≡ true → d ≡ e)
    → Distinct (pop_due m now).0
unfolding pop_due AreBuckets HashMap.get
pop_due-Distinct [] now s b one = tt
pop_due-Distinct ((d, ids) ∷ m) now s b one = elim (Bool-cases (leb d now)) [
  | inr later ↦ rw (later, pop_due) tt
  | inl due ↦
      rw (due, pop_due)
        (append-Distinct (ids_of ids) (pop_due m now).0
          (ids_of-Distinct ids (b d ids (ground arith)))
          (pop_due-Distinct m now s.1
            (λ e js g. b e js (ground (arith, BTreeMap.Laws.get-above d m s.0 e)))
            (λ e f j p q.
              one e f j (ground (arith, due_at_cons d ids m e j, due_at_above d m e j s.0))
                (ground (arith, due_at_cons d ids m f j, due_at_above d m f j s.0))))
          (λ j h. apart_of d ids m now j s (λ e. one d e j) h))
]

pub pop_due-AreBuckets :
    (m : Deadlines) (now : Instant) → IsSorted m → AreBuckets m → AreBuckets (pop_due m now).1
unfolding pop_due AreBuckets HashMap.get
pop_due-AreBuckets [] now s b = b
pop_due-AreBuckets ((d, ids) ∷ m) now s b = elim (Bool-cases (leb d now)) [
  | inr later ↦ rw (later, pop_due) b
  | inl due ↦
      rw (due, pop_due)
        (pop_due-AreBuckets m now s.1
          (λ e js g. b e js (ground (arith, BTreeMap.Laws.get-above d m s.0 e))))
]
