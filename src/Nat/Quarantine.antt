-- ===== src/Nat/Quarantine.antt =====
-- src/flow_plane/nat.rs: the quarantine of a released reverse key, over any allocations and
-- removals.
use new_proxy.Prelude.{
  ℕ, ◌+◌, ◌<◌, ◌≡◌, ◌≢◌, arith, nat_eq, some, ok, Option-cases, inl, inr, ltb, lt→ltb, sym, ◌∙◌,
}
use new_proxy.HashMap
use new_proxy.HashMap.Laws.{get-insert, get-retain}
use new_proxy.Net.{SessionId, FlowKey, flow_eq, flow_beq_iff, Instant}
use new_proxy.Nat.Directory.{ReverseNatKey, NatBinding}
use new_proxy.Nat.Table.{NatTable, bind, purge, release, allocate_at, remove_at, reuse_quarantine}
use new_proxy.Nat.Invariant.{IsValid, key_of, locator_of}
use new_proxy.Nat.Outcome.{Outcome, duplicate, mismatch, exhausted, bound, outcome}
use new_proxy.Nat.Leases.{allocate-IsValid, allocate_ok}
use new_proxy.Nat.Removal.{remove-IsValid, remove_ok}

-- What a worker does to its table before the instant `until`: calls of `allocate_at` and
-- `remove_at`, in any order, the failing ones included.
pub data Run (owner : ℕ) (until : Instant) (t : NatTable) : NatTable → Type 0 where
  here : Run owner until t t
  allocate :
      {u : NatTable} (i : SessionId) (f : FlowKey) (now : Instant)
      → now < until
      → Run owner until t u
      → Run owner until t (allocate_at u i f (locator_of owner i) now).0
  remove :
      {u : NatTable} (i : SessionId) (now : Instant)
      → Run owner until t u
      → Run owner until t (remove_at u i now).0

module _ (owner : ℕ) (k : ReverseNatKey) (until : Instant) where
  -- The table is well formed, and the key stays in quarantine until then.
  pub record IsBlocked (u : NatTable) : Type 0 where
    pub valid : IsValid owner u
    pub waiting : HashMap.get k u.quarantined ≡ some until

  purge_waiting :
      (u : NatTable) (now : Instant)
      → IsBlocked u
      → now < until
      → HashMap.get k (purge u now).quarantined ≡ some until
  unfolding purge
  purge_waiting u now h lt =
      let kept =
        get-retain (λ _ expires_at. ltb now expires_at) k until u.quarantined
          h.valid.quarantined_map h.waiting in
      rw (lt→ltb now until lt) at kept

  allocate_waiting :
      (u : NatTable) (i : SessionId) (f : FlowKey) (now : Instant)
      → IsBlocked u
      → now < until
      → Outcome u i f (locator_of owner i) now (allocate_at u i f (locator_of owner i) now)
      → HashMap.get k (allocate_at u i f (locator_of owner i) now).0.quarantined ≡ some until
  unfolding bind
  allocate_waiting u i f now h lt (duplicate c held e) = rw e h.waiting
  allocate_waiting u i f now h lt (mismatch absent other e) = rw e h.waiting
  allocate_waiting u i f now h lt (exhausted ip absent family busy e) =
      rw e (purge_waiting u now h lt)
  allocate_waiting u i f now h lt (bound ip p tr key absent family found e) =
      rw e (purge_waiting u now h lt)

  remove_waiting :
      (u : NatTable) (i : SessionId) (now : Instant)
      → IsBlocked u
      → HashMap.get k (remove_at u i now).0.quarantined ≡ some until
  unfolding remove_at release
  remove_waiting u i now h = elim (Option-cases (HashMap.get i u.forward)) [
    | inl absent ↦ rw (absent, remove_at) h.waiting
    | inr (b, held) ↦
        rw (held, remove_at)
          (ground (
            arith,
            get-insert k (key_of b) (now + reuse_quarantine b.translated.protocol) u.quarantined,
            flow_beq_iff (key_of b) k,
            h.waiting,
            h.valid.published i b,
            h.valid.apart (key_of b) (locator_of owner i),
          ))
  ]

  pub Run-IsBlocked : {t u : NatTable} → IsBlocked t → Run owner until t u → IsBlocked u
  Run-IsBlocked h here = h
  Run-IsBlocked h (allocate {u = u} i f now lt r) =
      let b = Run-IsBlocked h r in
      record {
        valid = allocate-IsValid b.valid i f now;
        waiting = allocate_waiting u i f now b lt (outcome u i f (locator_of owner i) now);
      }
  Run-IsBlocked h (remove {u = u} i now r) =
      let b = Run-IsBlocked h r in
      record { valid = remove-IsValid b.valid i now; waiting = remove_waiting u i now b }

  blocked :
      {u : NatTable}
      → IsBlocked u
      → (i : SessionId) (f : FlowKey) (now : Instant) (b : NatBinding) → now < until
      → (allocate_at u i f (locator_of owner i) now).1 ≡ ok b
      → key_of b ≢ k
  blocked {u} h i f now b lt e same =
      let cool = (allocate_ok h.valid i f now b e).lease.cool in
      cc (sym (rw same at cool) ∙ purge_waiting u now h lt)

-- From a successful removal of a binding in a well-formed table, through any allocations before
-- the end of its quarantine and any removals, no allocation before that end hands out a binding
-- with the same reverse key.
pub reuse-Run :
    {owner : ℕ} {t u : NatTable} (i : SessionId) (released : Instant) (b : NatBinding)
    → IsValid owner t
    → (remove_at t i released).1 ≡ ok b
    → Run owner (released + reuse_quarantine b.translated.protocol) (remove_at t i released).0 u
    → (j : SessionId) (f : FlowKey) (now : Instant) (c : NatBinding)
    → now < released + reuse_quarantine b.translated.protocol
    → (allocate_at u j f (locator_of owner j) now).1 ≡ ok c
    → key_of c ≢ key_of b
unfolding release
reuse-Run {owner} {t} i released b v h r j f now c lt e =
    let until = released + reuse_quarantine b.translated.protocol in
    let start : IsBlocked owner (key_of b) until (remove_at t i released).0 = record {
      valid = remove-IsValid v i released;
      waiting = rw (remove_ok v i released b h).1 (
          ground (
            arith,
            get-insert (key_of b) (key_of b) until t.quarantined,
            flow_beq_iff (key_of b) (key_of b),
          ));
    } in
    blocked owner (key_of b) until (Run-IsBlocked owner (key_of b) until start r) j f now c lt e
