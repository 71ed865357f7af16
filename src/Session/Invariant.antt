-- ===== src/Session/Invariant.antt =====
-- src/flow_plane/session.rs: the well-formedness of a `SessionTable` with its four indexes.
use new_proxy.Prelude.{Bool, true, false, ◌≡◌, refl, arith, nat_eq, nat_beq, some}
use new_proxy.HashMap
use new_proxy.HashMap.{IsMap}
use new_proxy.BTreeMap.{IsSorted}
use new_proxy.Net.{SessionId, Instant}
use new_proxy.Nat
use new_proxy.Session.Table.{SessionKey, key_eq, Session, key_of, SessionTable}
use new_proxy.Session.Expiry.{due_at, AreBuckets}

-- While `expire_idle` is at work, the sessions whose deadlines it has popped are no longer in the
-- deadline index: their deadlines are exempt.
pub record IsValidBut (exempt : Instant → Bool) (t : SessionTable) : Type 0 where
  pub nat_valid : Nat.Invariant.IsValid t.owner_worker_id t.nat
  pub sessions_map : IsMap t.sessions
  pub deadlines_sorted : IsSorted t.deadlines
  pub buckets : AreBuckets t.deadlines
  pub same_id : (i : SessionId) (s : Session) → HashMap.get i t.sessions ≡ some s → s.id ≡ i
  pub worker :
      (i : SessionId) (s : Session)
      → HashMap.get i t.sessions ≡ some s
      → s.flow_worker_id ≡ t.owner_worker_id
  pub indexed :
      (i : SessionId) (s : Session)
      → HashMap.get i t.sessions ≡ some s
      → HashMap.get (key_of s) t.by_key ≡ some i
  pub leased :
      (i : SessionId) (s : Session)
      → HashMap.get i t.sessions ≡ some s
      → HashMap.get i t.nat.forward ≡ some s.nat
  pub scheduled :
      (i : SessionId) (s : Session)
      → HashMap.get i t.sessions ≡ some s
      → exempt s.expires_at ≡ false
      → due_at t.deadlines s.expires_at i ≡ true
  pub keyed :
      (k : SessionKey) (i : SessionId)
      → HashMap.get k t.by_key ≡ some i
      → (s : Session) × (HashMap.get i t.sessions ≡ some s) × (key_of s ≡ k)
  pub timed :
      (d : Instant) (i : SessionId)
      → due_at t.deadlines d i ≡ true
      → (s : Session) × (HashMap.get i t.sessions ≡ some s) × (s.expires_at ≡ d)

abbrev pub none_exempt : Instant → Bool
none_exempt d = false

abbrev pub IsValid : SessionTable → Type 0
IsValid = IsValidBut none_exempt

-- A session stands at its own deadline and at no other.
pub due_at-expires_at :
    {t : SessionTable} (v : IsValid t) (i : SessionId) (s : Session)
    → HashMap.get i t.sessions ≡ some s
    → (d : Instant) → due_at t.deadlines d i ≡ nat_beq s.expires_at d
due_at-expires_at v i s h d = ground (arith, v.scheduled i s h refl, v.timed d i)

-- A session is scheduled once.
pub due_at_once :
    {exempt : Instant → Bool} {t : SessionTable} (v : IsValidBut exempt t) (d e : Instant)
    (i : SessionId)
    → due_at t.deadlines d i ≡ true
    → due_at t.deadlines e i ≡ true
    → d ≡ e
due_at_once v d e i p q = ground (arith, v.timed d i p, v.timed e i q)
