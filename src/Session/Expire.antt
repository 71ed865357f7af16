-- ===== src/Session/Expire.antt =====
-- src/flow_plane/session.rs: `expire_idle` against its specification, a scan of all sessions.
use new_proxy.Prelude.{
  ℕ, Bool, true, false, ◌&&◌, ◌≡◌, refl, arith, nat_eq, nat_beq, none, some, ok, Result,
  if◌then◌else◌, Option-cases, Bool-cases, inl, inr, sym, List, [], ◌∷◌, mem, Distinct, leb, ◌∙◌,
}
use new_proxy.HashMap
use new_proxy.Net.{SessionId, Instant}
use new_proxy.Session.Deadlines.{pop_due}
use new_proxy.Session.Table.{Session, SessionTable, SessionError}
use new_proxy.Session.Bulk.{remove_all, is_due, due_ids, expire_idle}
use new_proxy.Session.Due.{
  pop_due-IsSorted, due_at-pop_due, mem-pop_due, pop_due-Distinct, pop_due-AreBuckets,
}
use new_proxy.Session.Invariant.{IsValid, IsValidBut, due_at_once}
use new_proxy.Session.Remove.{Removed, remove-Removed}

-- Each identifier of the list, with its session.
abbrev pub AreHeld : SessionTable → List SessionId → List Session → Type 0
AreHeld t [] [] = Unit {0}
AreHeld t (i ∷ ids) (s ∷ ss) = (HashMap.get i t.sessions ≡ some s) × AreHeld t ids ss
AreHeld t _ _ = ⊥

-- What removing a list of sessions leaves.
pub record AllRemoved (exempt : Instant → Bool) (t : SessionTable) (ids : List SessionId)
    (t' : SessionTable) : Type 0 where
  pub valid : IsValidBut exempt t'
  pub owner : t'.owner_worker_id ≡ t.owner_worker_id
  pub others :
      (j : SessionId)
      → HashMap.get j t'.sessions ≡ (if mem j ids then none else HashMap.get j t.sessions)

AreHeld-Removed :
    {exempt : Instant → Bool} {t : SessionTable} (v : IsValidBut exempt t) (i : SessionId)
    (s : Session) (held : HashMap.get i t.sessions ≡ some s) {t' : SessionTable}
    → Removed v i s held t'
    → (ids : List SessionId) (ss : List Session) → mem i ids ≡ false
    → AreHeld t ids ss
    → AreHeld t' ids ss
unfolding mem
AreHeld-Removed v i s held r [] [] absent h = tt
AreHeld-Removed v i s held r [] (c ∷ ss) absent h = h
AreHeld-Removed v i s held r (j ∷ ids) [] absent h = h
AreHeld-Removed v i s held r (j ∷ ids) (c ∷ ss) absent h =
    (ground (arith, r.others j, h.0), AreHeld-Removed v i s held r ids ss (ground arith) h.1)

-- Distinct sessions that are there are all removed, and returned in order.
pub remove_all-AllRemoved :
    (ids : List SessionId) (ss : List Session) {exempt : Instant → Bool} {t : SessionTable}
    (v : IsValidBut exempt t) (caller : ℕ) (clock : SessionId → Instant)
    → caller ≡ t.owner_worker_id
    → Distinct ids
    → AreHeld t ids ss
    → ((remove_all t caller ids clock).1 ≡ ok ss)
      × AllRemoved exempt t ids (remove_all t caller ids clock).0
unfolding remove_all mem
remove_all-AllRemoved [] [] v caller clock owner d h =
    (refl, record { valid = v; owner = refl; others = λ j. refl })
remove_all-AllRemoved [] (s ∷ ss) v caller clock owner d h = absurd h
remove_all-AllRemoved (i ∷ ids) [] v caller clock owner d h = absurd h
remove_all-AllRemoved (i ∷ ids) (s ∷ ss) v caller clock owner d h =
    let (done, r) = remove-Removed v i s h.0 caller (clock i) owner in
    let (rest, all) =
      remove_all-AllRemoved ids ss r.valid caller clock (owner ∙ sym r.owner) d.1
        (AreHeld-Removed v i s h.0 r ids ss d.0 h.1) in
    rw (done, remove_all, rest)
      (
        refl,
        record {
          valid = all.valid;
          owner = all.owner ∙ r.owner;
          others = λ j. ground (arith, all.others j, r.others j);
        },
      )

mem-due_ids :
    (t : SessionTable) (now : Instant) (j : SessionId) (ids : List SessionId)
    → mem j (due_ids t now ids) ≡ (mem j ids && is_due t now j)
unfolding mem due_ids
mem-due_ids t now j [] = refl
mem-due_ids t now j (i ∷ ids) = ground (arith, mem-due_ids t now j ids)

due_ids-Distinct :
    (t : SessionTable) (now : Instant) (ids : List SessionId)
    → Distinct ids
    → Distinct (due_ids t now ids)
unfolding due_ids
due_ids-Distinct t now [] d = tt
due_ids-Distinct t now (i ∷ ids) d = elim (Bool-cases (is_due t now i)) [
  | inl due ↦
      rw (due, due_ids) (ground (arith, mem-due_ids t now i ids), due_ids-Distinct t now ids d.1)
  | inr later ↦ rw (later, due_ids) (due_ids-Distinct t now ids d.1)
]

is_due-held :
    (t : SessionTable) (now : Instant) (i : SessionId)
    → is_due t now i ≡ true
    → (s : Session) × (HashMap.get i t.sessions ≡ some s)
unfolding is_due
is_due-held t now i h = elim (Option-cases (HashMap.get i t.sessions)) [
  | inl absent ↦ absurd (ground arith)
  | inr (s, held) ↦ (s, held)
]

due_ids-AreHeld :
    (t : SessionTable) (now : Instant) (ids : List SessionId)
    → (ss : List Session) × AreHeld t (due_ids t now ids) ss
unfolding due_ids
due_ids-AreHeld t now [] = ([], tt)
due_ids-AreHeld t now (i ∷ ids) =
    let (ss, h) = due_ids-AreHeld t now ids in
    elim (Bool-cases (is_due t now i)) [
      | inr later ↦ rw (later, due_ids) (ss, h)
      | inl due ↦ let (s, held) = is_due-held t now i due in rw (due, due_ids) (s ∷ ss, (held, h))
    ]

abbrev due_by : Instant → Instant → Bool
due_by now d = leb d now

module _ {t : SessionTable} (v : IsValid t) (now : Instant) where
  abbrev popped : SessionTable
  popped = record t { deadlines = (pop_due t.deadlines now).1 }

  abbrev expired : List SessionId
  expired = due_ids popped now (pop_due t.deadlines now).0

  popped-IsValidBut : IsValidBut (due_by now) popped
  popped-IsValidBut = record {
    nat_valid = v.nat_valid;
    sessions_map = v.sessions_map;
    deadlines_sorted = pop_due-IsSorted t.deadlines now v.deadlines_sorted;
    buckets = pop_due-AreBuckets t.deadlines now v.deadlines_sorted v.buckets;
    same_id = v.same_id;
    worker = v.worker;
    indexed = v.indexed;
    leased = v.leased;
    scheduled = λ j c h later. ground (
      arith,
      v.scheduled j c h refl,
      due_at-pop_due t.deadlines now c.expires_at j v.deadlines_sorted,
    );
    keyed = v.keyed;
    timed = λ d j h.
        v.timed d j (ground (arith, due_at-pop_due t.deadlines now d j v.deadlines_sorted));
  }

  -- The identifiers that are popped and due are those of the idle sessions.
  expired-idle :
      (j : SessionId) (s : Session)
      → HashMap.get j t.sessions ≡ some s
      → mem j expired ≡ leb s.expires_at now
  unfolding is_due
  expired-idle j s held = ground (
    arith,
    mem-due_ids popped now j (pop_due t.deadlines now).0,
    mem-pop_due t.deadlines now s.expires_at j v.deadlines_sorted (v.scheduled j s held refl),
  )

  -- What `expire_idle` returns and leaves, told without the deadline index.
  pub record IsScan (ids : List SessionId) (ss : List Session)
      (r : SessionTable × Result SessionError (List Session)) : Type 0 where
    pub returns : r.1 ≡ ok ss
    pub sessions : AreHeld t ids ss
    pub once : Distinct ids
    pub idle :
        (j : SessionId) (s : Session)
        → HashMap.get j t.sessions ≡ some s
        → mem j ids ≡ leb s.expires_at now
    pub left :
        (j : SessionId)
        → HashMap.get j r.0.sessions ≡ (if mem j ids then none else HashMap.get j t.sessions)
    pub valid : IsValid r.0

  -- In a well-formed table whose owner calls, `expire_idle` returns exactly the sessions whose
  -- deadline is at or before `now`, each once, leaves all others as they are, and keeps the table
  -- well formed: the deadline index serves as well as a scan of all sessions.
  pub expire_idle-IsScan :
      (caller : ℕ) (clock : SessionId → Instant)
      → caller ≡ t.owner_worker_id
      → (ids : List SessionId) × (ss : List Session) × IsScan ids ss
          (expire_idle t caller now clock)
  unfolding expire_idle
  expire_idle-IsScan caller clock owner =
      let (ss, held) = due_ids-AreHeld popped now (pop_due t.deadlines now).0 in
      let distinct =
        due_ids-Distinct popped now (pop_due t.deadlines now).0
          (pop_due-Distinct t.deadlines now v.deadlines_sorted v.buckets (due_at_once v)) in
      let (done, r) =
        remove_all-AllRemoved expired ss popped-IsValidBut caller clock owner distinct held in
      (
        expired,
        ss,
        rw (owner_test, expire_idle)
            (record {
              returns = done;
              sessions = held;
              once = distinct;
              idle = expired-idle;
              left = r.others;
              valid = settled _ r;
            }),
      )
    where
      owner_test : nat_beq caller t.owner_worker_id ≡ true
      owner_test = ground arith

      settled : (t' : SessionTable) → AllRemoved (due_by now) popped expired t' → IsValid t'
      settled t' r = record {
        nat_valid = r.valid.nat_valid;
        sessions_map = r.valid.sessions_map;
        deadlines_sorted = r.valid.deadlines_sorted;
        buckets = r.valid.buckets;
        same_id = r.valid.same_id;
        worker = r.valid.worker;
        indexed = r.valid.indexed;
        leased = r.valid.leased;
        scheduled =
            λ j c h _. r.valid.scheduled j c h (ground (arith, r.others j, expired-idle j c));
        keyed = r.valid.keyed;
        timed = r.valid.timed;
      }
