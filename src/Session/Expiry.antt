-- ===== src/Session/Expiry.antt =====
-- src/flow_plane/session.rs: the laws of the deadline index.
use new_proxy.Prelude.{
  Bool, true, false, ◌&&◌, ◌≡◌, arith, none, some, [], ◌∷◌, if◌then◌else◌, nat_eq, nat_beq,
  Option-cases, Bool-cases, inl, inr, subst,
}
use new_proxy.HashMap
use new_proxy.HashMap.{HashMap, IsMap}
use new_proxy.HashMap.Laws.{get-insert, get-remove, insert-IsMap, remove-IsMap}
use new_proxy.BTreeMap
use new_proxy.BTreeMap.{IsSorted, IsAbove}
use new_proxy.BTreeMap.Laws
use new_proxy.Net.{SessionId, Instant}
use new_proxy.Session.Deadlines.{
  Bucket, Deadlines, bucket_or_default, add_deadline, put_bucket, remove_deadline,
}

-- The session stands in the bucket of the deadline.
unfoldable pub due_at : Deadlines → Instant → SessionId → Bool
due_at m d i = HashMap.contains_key i (bucket_or_default (BTreeMap.get d m))

pub due_at-add_deadline :
    (m : Deadlines) (d e : Instant) (i j : SessionId)
    → due_at (add_deadline m d i) e j ≡ (if nat_beq d e && nat_beq i j then true else due_at m e j)
unfolding due_at add_deadline
due_at-add_deadline m d e i j =
    let b = bucket_or_default (BTreeMap.get d m) in
    ground (arith, BTreeMap.Laws.get-insert e d (HashMap.insert i tt b) m, get-insert j i tt b)

due_at-put_bucket :
    (m : Deadlines) (d e : Instant) (ids : Bucket) (j : SessionId)
    → due_at (put_bucket m d ids) e j
      ≡ (if nat_beq d e then HashMap.contains_key j ids else due_at m e j)
unfolding due_at put_bucket HashMap.get
due_at-put_bucket m d e [] j = ground (arith, get-remove e d m)
due_at-put_bucket m d e (x ∷ ids) j = ground (arith, BTreeMap.Laws.get-insert e d (x ∷ ids) m)

pub due_at-none :
    (m : Deadlines) (d : Instant) (j : SessionId) → BTreeMap.get d m ≡ none → due_at m d j ≡ false
unfolding due_at HashMap.get
due_at-none m d j h = rw h

pub due_at-some :
    (m : Deadlines) (d : Instant) (ids : Bucket) (j : SessionId)
    → BTreeMap.get d m ≡ some ids
    → due_at m d j ≡ HashMap.contains_key j ids
unfolding due_at
due_at-some m d ids j h = rw h

pub due_at-remove_deadline :
    (m : Deadlines) (d e : Instant) (i j : SessionId)
    → due_at (remove_deadline m d i) e j
      ≡ (if nat_beq d e && nat_beq i j then false else due_at m e j)
unfolding remove_deadline
due_at-remove_deadline m d e i j = elim (Option-cases (BTreeMap.get d m)) [
  | inl absent ↦ rw (absent, remove_deadline) (ground (arith, due_at-none m d j absent))
  | inr (ids, found) ↦
      rw (found, remove_deadline)
        (ground (
          arith,
          due_at-put_bucket m d e (HashMap.remove i ids) j,
          get-remove j i ids,
          due_at-some m d ids j found,
        ))
]

-- Every bucket is a set.
unfoldable pub AreBuckets : Deadlines → Type 0
AreBuckets m = (d : Instant) (ids : Bucket) → BTreeMap.get d m ≡ some ids → IsMap ids

put_bucket-IsSorted :
    (m : Deadlines) (d : Instant) (ids : Bucket) → IsSorted m → IsSorted (put_bucket m d ids)
unfolding put_bucket
put_bucket-IsSorted m d [] s = BTreeMap.Laws.remove-IsSorted d m s
put_bucket-IsSorted m d (x ∷ ids) s = BTreeMap.Laws.insert-IsSorted d (x ∷ ids) m s

pub remove_deadline-IsSorted :
    (m : Deadlines) (d : Instant) (i : SessionId) → IsSorted m → IsSorted (remove_deadline m d i)
unfolding remove_deadline
remove_deadline-IsSorted m d i s = elim (Option-cases (BTreeMap.get d m)) [
  | inl absent ↦ rw (absent, remove_deadline) s
  | inr (ids, found) ↦
      rw (found, remove_deadline) (put_bucket-IsSorted m d (HashMap.remove i ids) s)
]

pub add_deadline-IsSorted :
    (m : Deadlines) (d : Instant) (i : SessionId) → IsSorted m → IsSorted (add_deadline m d i)
unfolding add_deadline
add_deadline-IsSorted m d i s = BTreeMap.Laws.insert-IsSorted d _ m s

put_bucket-AreBuckets :
    (m : Deadlines) (d : Instant) (ids : Bucket)
    → IsMap ids
    → AreBuckets m
    → AreBuckets (put_bucket m d ids)
unfolding put_bucket AreBuckets
put_bucket-AreBuckets m d [] h b e js g = b e js (ground (arith, get-remove e d m))
put_bucket-AreBuckets m d (x ∷ ids) h b e js g = elim (Bool-cases (nat_beq d e)) [
  | inl same ↦
      subst IsMap {x = x ∷ ids} (ground (arith, BTreeMap.Laws.get-insert e d (x ∷ ids) m)) h
  | inr other ↦ b e js (ground (arith, BTreeMap.Laws.get-insert e d (x ∷ ids) m))
]

pub remove_deadline-AreBuckets :
    (m : Deadlines) (d : Instant) (i : SessionId)
    → AreBuckets m
    → AreBuckets (remove_deadline m d i)
unfolding remove_deadline
remove_deadline-AreBuckets m d i b = elim (Option-cases (BTreeMap.get d m)) [
  | inl absent ↦ rw (absent, remove_deadline) b
  | inr (ids, found) ↦
      rw (found, remove_deadline)
        (put_bucket-AreBuckets m d (HashMap.remove i ids)
          (remove-IsMap i ids (unfold AreBuckets in b d ids found)) b)
]

bucket-IsMap :
    (m : Deadlines) (d : Instant) → AreBuckets m → IsMap (bucket_or_default (BTreeMap.get d m))
unfolding AreBuckets
bucket-IsMap m d b = elim (Option-cases (BTreeMap.get d m)) [
  | inl absent ↦ rw absent tt
  | inr (ids, found) ↦ rw found (b d ids found)
]

pub add_deadline-AreBuckets :
    (m : Deadlines) (d : Instant) (i : SessionId) → AreBuckets m → AreBuckets (add_deadline m d i)
unfolding add_deadline AreBuckets
add_deadline-AreBuckets m d i b e js g =
    let ids = bucket_or_default (BTreeMap.get d m) in
    let new = HashMap.insert i tt ids in
    elim (Bool-cases (nat_beq d e)) [
      | inl same ↦
          subst IsMap {x = new} (ground (arith, BTreeMap.Laws.get-insert e d new m))
            (insert-IsMap i tt ids (bucket-IsMap m d b))
      | inr other ↦ b e js (ground (arith, BTreeMap.Laws.get-insert e d new m))
    ]
