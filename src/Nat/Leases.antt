-- ===== src/Nat/Leases.antt =====
-- src/flow_plane/nat.rs: what `allocate_at` does to a table, on every branch.
use new_proxy.Prelude.{
  ℕ, ◌+◌, ◌<◌, true, false, ◌≡◌, ◌≢◌, ◌↔◌, refl, arith, ◌==◌, nat_eq, none, some, ok, err, Result,
  length, if◌then◌else◌, subst,
}
use new_proxy.HashMap
use new_proxy.HashMap.Laws.{get-insert, length-remove, length-insert_new}
use new_proxy.BTreeMap
use new_proxy.BTreeMap.Laws
use new_proxy.Net.{SessionId, FlowKey, flow_eq, flow_beq_iff, Instant, IpAddr}
use new_proxy.Nat.Directory.{
  ReverseNatKey, from_translated_flow, from_return_flow, NatBinding, NatError, port_range_exhausted,
}
use new_proxy.Nat.Table.{
  NatTable, bind, purge, translate, find_port, is_free, snat_for, allocate_at, lookup_reverse,
}
use new_proxy.Nat.Keys.{IsReply, reply_key}
use new_proxy.Nat.Invariant.{IsValid, key_of, port, locator_of, bind-IsValid, purge-IsValid}
use new_proxy.Nat.Outcome.{
  candidate, find_port-some, find_port-none, Outcome, duplicate, mismatch, exhausted, bound,
  outcome,
}

is_free_parts :
    (t : NatTable) (k : ReverseNatKey)
    → is_free t k ≡ true
    → (HashMap.get k t.reverse ≡ none) × (HashMap.get k t.quarantined ≡ none)
unfolding is_free
is_free_parts t k h = ground arith

-- A binding that `allocate_at` returns, against the table before the call.
pub record IsLease (t : NatTable) (i : SessionId) (f : FlowKey) (now : Instant) (b : NatBinding)
    : Type 0 where
  pub fresh : HashMap.get i t.forward ≡ none
  pub of_flow : b.original ≡ f
  pub family : snat_for t f.source ≡ some b.translated.source
  pub rewritten : b.translated ≡ translate f b.translated.source (port b)
  pub available : BTreeMap.get (port b) t.available_ports ≡ some tt
  pub unused : HashMap.get (key_of b) t.reverse ≡ none
  pub cool : HashMap.get (key_of b) (purge t now).quarantined ≡ none
  pub least :
      (q : ℕ)
      → q < port b
      → BTreeMap.get q t.available_ports ≡ some tt
      → is_free (purge t now) (candidate f b.translated.source q) ≡ false

module _ {owner : ℕ} {t : NatTable} (v : IsValid owner t) (i : SessionId) (f : FlowKey)
    (now : Instant) where
  bound-IsLease :
      (ip : IpAddr) (p : ℕ) (tr : FlowKey) (key : ReverseNatKey)
      → HashMap.get i t.forward ≡ none
      → snat_for t f.source ≡ some ip
      → find_port (is_free (purge t now)) f ip t.available_ports ≡ some (p, tr, key)
      → IsLease t i f now (record { original = f; translated = tr })
        × (p ≡ tr.source_port)
        × (key ≡ from_translated_flow tr)
  unfolding purge
  bound-IsLease ip p tr key absent family found =
      let (there, e, k, free, least) =
        find_port-some (is_free (purge t now)) f ip t.available_ports p tr key v.ports_sorted
          found in
      let (unused, cool) = is_free_parts (purge t now) (candidate f ip p) free in
      (
        record {
          fresh = absent;
          of_flow = refl;
          family = ground arith;
          rewritten = ground arith;
          available = ground arith;
          unused = ground arith;
          cool = ground arith;
          least = λ q lt g. ground (arith, least q);
        },
        ground arith,
        ground arith,
      )

  -- An allocation that succeeds.
  pub record Succeeds (b : NatBinding) (r : NatTable × Result NatError NatBinding) : Type 0 where
    pub returns : r.1 ≡ ok b
    pub lease : IsLease t i f now b
    pub state : r.0 ≡ bind (purge t now) i (locator_of owner i) (port b) (key_of b) b

  bound-Succeeds :
      (b : NatBinding)
      → Outcome t i f (locator_of owner i) now (allocate_at t i f (locator_of owner i) now)
      → (allocate_at t i f (locator_of owner i) now).1 ≡ ok b
      → Succeeds b (allocate_at t i f (locator_of owner i) now)
  bound-Succeeds b (duplicate c held e) h = absurd (ground arith)
  bound-Succeeds b (mismatch absent other e) h = absurd (ground arith)
  bound-Succeeds b (exhausted ip absent family busy e) h = absurd (ground arith)
  bound-Succeeds b (bound ip p tr key absent family found e) h =
      let (l, same_port, same_key) = bound-IsLease ip p tr key absent family found in
      let same : record { original = f; translated = tr } ≡ b = ground arith in
      record { returns = h; lease = subst (λ c. IsLease t i f now c) same l; state = ground arith }

  -- In a well-formed table, a successful allocation is of a new session and takes, on the address
  -- of the family, the least free port whose reverse key is neither leased nor in quarantine; it
  -- rewrites the source of the flow, and writes that binding into the purged table.
  pub allocate_ok :
      (b : NatBinding)
      → (allocate_at t i f (locator_of owner i) now).1 ≡ ok b
      → Succeeds b (allocate_at t i f (locator_of owner i) now)
  allocate_ok b = bound-Succeeds b (outcome t i f (locator_of owner i) now)

  IsValid_of :
      Outcome t i f (locator_of owner i) now (allocate_at t i f (locator_of owner i) now)
      → IsValid owner (allocate_at t i f (locator_of owner i) now).0
  unfolding purge
  IsValid_of (duplicate c held e) = rw e v
  IsValid_of (mismatch absent other e) = rw e v
  IsValid_of (exhausted ip absent family busy e) = rw e (purge-IsValid v now)
  IsValid_of (bound ip p tr key absent family found e) =
      let (l, same_port, same_key) = bound-IsLease ip p tr key absent family found in
      rw (e, same_port, same_key)
        (bind-IsValid (purge-IsValid v now) i (record { original = f; translated = tr }) l.fresh
          l.unused l.cool l.available)

  -- Every allocation, a failed one included, keeps a well-formed NAT table well formed.
  pub allocate-IsValid : IsValid owner (allocate_at t i f (locator_of owner i) now).0
  allocate-IsValid = IsValid_of (outcome t i f (locator_of owner i) now)

  -- In a well-formed table, a successful allocation routes every reply of its translated flow to
  -- its session, and packets with another reverse key as before.
  pub allocate-lookup_reverse :
      (b : NatBinding)
      → (allocate_at t i f (locator_of owner i) now).1 ≡ ok b
      → (r : FlowKey)
      → (IsReply b.translated r
          → lookup_reverse (allocate_at t i f (locator_of owner i) now).0 r
            ≡ some (locator_of owner i))
        × (from_return_flow r ≢ key_of b
            → lookup_reverse (allocate_at t i f (locator_of owner i) now).0 r ≡ lookup_reverse t r)
  unfolding lookup_reverse bind purge
  allocate-lookup_reverse b h r =
      let s = allocate_ok b h in
      let written = get-insert (from_return_flow r) (key_of b) (locator_of owner i) t.reverse in
      (
        λ reply. ground (
          arith,
          s.state,
          written,
          flow_beq_iff (key_of b) (from_return_flow r),
          reply_key b.translated r,
        ),
        λ other. ground (arith, s.state, written, flow_beq_iff (key_of b) (from_return_flow r)),
      )

  -- A lease adds its session to the forward index, and a failure leaves the index alone.
  pub allocate-forward :
      ((b : NatBinding)
        → (allocate_at t i f (locator_of owner i) now).1 ≡ ok b
        → (HashMap.get i t.forward ≡ none)
          × ((j : SessionId)
              → HashMap.get j (allocate_at t i f (locator_of owner i) now).0.forward
                ≡ (if i == j then some b else HashMap.get j t.forward)))
      × ((e : NatError)
          → (allocate_at t i f (locator_of owner i) now).1 ≡ err e
          → (allocate_at t i f (locator_of owner i) now).0.forward ≡ t.forward)
  unfolding bind purge
  allocate-forward = (
    λ b h. let s = allocate_ok b h in (s.lease.fresh, λ j. rw s.state (get-insert j i b t.forward)),
    λ e h. unchanged e (outcome t i f (locator_of owner i) now) h,
  )
    where
      unchanged :
          (e : NatError)
          → Outcome t i f (locator_of owner i) now (allocate_at t i f (locator_of owner i) now)
          → (allocate_at t i f (locator_of owner i) now).1 ≡ err e
          → (allocate_at t i f (locator_of owner i) now).0.forward ≡ t.forward
      unchanged e (duplicate c held same) h = rw same
      unchanged e (mismatch absent other same) h = rw same
      unchanged e (exhausted ip absent family busy same) h = rw same
      unchanged e (bound ip p tr key absent family found same) h = absurd (ground arith)

  -- The ports that the table holds, leased ones included.
  conserved :
      Outcome t i f (locator_of owner i) now (allocate_at t i f (locator_of owner i) now)
      → length (allocate_at t i f (locator_of owner i) now).0.available_ports
          + length (allocate_at t i f (locator_of owner i) now).0.forward
        ≡ length t.available_ports + length t.forward
  unfolding bind purge
  conserved (duplicate c held e) = rw e
  conserved (mismatch absent other e) = rw e
  conserved (exhausted ip absent family busy e) = rw e
  conserved (bound ip p tr key absent family found e) =
      let (l, same_port, same_key) = bound-IsLease ip p tr key absent family found in
      rw e (
        omega (
          arith,
          length-insert_new i (record { original = f; translated = tr }) t.forward absent,
          length-remove p tt t.available_ports
              (BTreeMap.Laws.IsSorted-IsMap t.available_ports v.ports_sorted)
              (rw same_port l.available),
        ))

  -- In a well-formed table, on every branch of an allocation, the numbers of free ports and of
  -- leases add up as before.
  pub allocate_conserves :
      length (allocate_at t i f (locator_of owner i) now).0.available_ports
        + length (allocate_at t i f (locator_of owner i) now).0.forward
      ≡ length t.available_ports + length t.forward
  allocate_conserves = conserved (outcome t i f (locator_of owner i) now)

  -- Why the range can be exhausted: every port that is left is busy towards this destination.
  abbrev pub IsExhausted : Type 0
  IsExhausted =
      (HashMap.get i t.forward ≡ none)
      × (ip : IpAddr) × (snat_for t f.source ≡ some ip)
      × ((q : ℕ)
          → BTreeMap.get q t.available_ports ≡ some tt
          → is_free (purge t now) (candidate f ip q) ≡ false)

  exhausted_why :
      Outcome t i f (locator_of owner i) now (allocate_at t i f (locator_of owner i) now)
      → (allocate_at t i f (locator_of owner i) now).1 ≡ err port_range_exhausted
      → IsExhausted
  exhausted_why (duplicate c held e) h = absurd (ground arith)
  exhausted_why (mismatch absent other e) h = absurd (ground arith)
  exhausted_why (exhausted ip absent family busy e) h =
      (absent, ip, family, find_port-none (is_free (purge t now)) f ip t.available_ports busy)
  exhausted_why (bound ip p tr key absent family found e) h = absurd (ground arith)

  exhausted_when :
      Outcome t i f (locator_of owner i) now (allocate_at t i f (locator_of owner i) now)
      → IsExhausted
      → (allocate_at t i f (locator_of owner i) now).1 ≡ err port_range_exhausted
  exhausted_when (duplicate c held e) h = absurd (ground (arith, h.0))
  exhausted_when (mismatch absent other e) h = absurd (ground (arith, h.2))
  exhausted_when (exhausted ip absent family busy e) h = rw e
  exhausted_when (bound ip p tr key absent family found e) h =
      let (there, same, k, free, least) =
        find_port-some (is_free (purge t now)) f ip t.available_ports p tr key v.ports_sorted
          found in
      absurd (ground (arith, h.2, h.3 p there))

  -- In a well-formed table, an allocation reports an exhausted range exactly if the session is
  -- new, the family has an address, and the reverse key of every port that is left is leased or in
  -- quarantine.
  pub allocate-exhausted_iff :
      ((allocate_at t i f (locator_of owner i) now).1 ≡ err port_range_exhausted) ↔ IsExhausted
  allocate-exhausted_iff = (
    exhausted_why (outcome t i f (locator_of owner i) now),
    exhausted_when (outcome t i f (locator_of owner i) now),
  )
