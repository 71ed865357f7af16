-- ===== src/Nat/Invariant.antt =====
-- src/flow_plane/nat.rs: the well-formedness of a `NatTable`, and the writes of an allocation and
-- of a removal.
use new_proxy.Prelude.{◌+◌, ℕ, Bool-cases, inl, inr, ==_eq, ◌≡◌, arith, ◌==◌, nat_eq, none, some}
use new_proxy.HashMap
use new_proxy.HashMap.Laws.{
  get-insert, get-remove, insert-IsMap, remove-IsMap, get-retain-eq-none, retain-IsMap,
}
use new_proxy.HashMap.{IsMap}
use new_proxy.BTreeMap
use new_proxy.BTreeMap.Laws
use new_proxy.BTreeMap.{IsSorted}
use new_proxy.Net.{SessionId, flow_eq, flow_beq_iff, Instant}
use new_proxy.Nat.Directory.{SessionLocator, ReverseNatKey, from_translated_flow, NatBinding}
use new_proxy.Nat.Keys.{port_of-from_translated_flow}
use new_proxy.Nat.Table.{NatTable, bind, release, purge, reuse_quarantine}

abbrev pub key_of : NatBinding → ReverseNatKey
key_of b = from_translated_flow b.translated

abbrev pub port : NatBinding → ℕ
port b = b.translated.source_port

abbrev pub locator_of : ℕ → SessionId → SessionLocator
locator_of owner i = record { flow_worker_id = owner; session_id = i }

-- The table of worker `owner`: the two indexes agree, and a leased port belongs to one session.
pub record IsValid (owner : ℕ) (t : NatTable) : Type 0 where
  pub ports_sorted : IsSorted t.available_ports
  pub forward_map : IsMap t.forward
  pub reverse_map : IsMap t.reverse
  pub quarantined_map : IsMap t.quarantined
  pub leased :
      (i : SessionId) (b : NatBinding)
      → HashMap.get i t.forward ≡ some b
      → BTreeMap.get (port b) t.available_ports ≡ none
  pub distinct :
      (i j : SessionId) (b c : NatBinding)
      → HashMap.get i t.forward ≡ some b
      → HashMap.get j t.forward ≡ some c
      → port b ≡ port c
      → i ≡ j
  pub published :
      (i : SessionId) (b : NatBinding)
      → HashMap.get i t.forward ≡ some b
      → HashMap.get (key_of b) t.reverse ≡ some (locator_of owner i)
  pub backed :
      (k : ReverseNatKey) (l : SessionLocator)
      → HashMap.get k t.reverse ≡ some l
      → (b : NatBinding) × (HashMap.get l.session_id t.forward ≡ some b) × (key_of b ≡ k)
  pub apart :
      (k : ReverseNatKey) (l : SessionLocator)
      → HashMap.get k t.reverse ≡ some l
      → HashMap.get k t.quarantined ≡ none

module _ {owner : ℕ} {t : NatTable} (v : IsValid owner t) where
  module _ (i : SessionId) (b : NatBinding) (absent : HashMap.get i t.forward ≡ none)
      (free : HashMap.get (key_of b) t.reverse ≡ none)
      (cool : HashMap.get (key_of b) t.quarantined ≡ none)
      (available : BTreeMap.get (port b) t.available_ports ≡ some tt) where
    bind-backed :
        (k : ReverseNatKey) (l : SessionLocator)
        → HashMap.get k (bind t i (locator_of owner i) (port b) (key_of b) b).reverse ≡ some l
        → (c : NatBinding) × (HashMap.get l.session_id
              (bind t i (locator_of owner i) (port b) (key_of b) b).forward
            ≡ some c)
          × (key_of c ≡ k)
    unfolding bind
    bind-backed k l h = elim (Bool-cases (key_of b == k)) [
      | inl same ↦ (
        b,
        ground (
          arith,
          get-insert k (key_of b) (locator_of owner i) t.reverse,
          get-insert l.session_id i b t.forward,
        ),
        ==_eq (key_of b) k same,
      )
      | inr other ↦
          let (c, held, key) =
            v.backed k l (ground (arith, get-insert k (key_of b) (locator_of owner i) t.reverse)) in
          (c, ground (arith, get-insert l.session_id i b t.forward), key)
    ]

    pub bind-IsValid : IsValid owner (bind t i (locator_of owner i) (port b) (key_of b) b)
    unfolding bind
    bind-IsValid = record {
      ports_sorted = BTreeMap.Laws.remove-IsSorted (port b) t.available_ports v.ports_sorted;
      forward_map = insert-IsMap i b t.forward v.forward_map;
      reverse_map = insert-IsMap (key_of b) (locator_of owner i) t.reverse v.reverse_map;
      quarantined_map = v.quarantined_map;
      leased = λ j c h. ground (
        arith,
        get-insert j i b t.forward,
        get-remove (port c) (port b) t.available_ports,
        v.leased j c,
      );
      distinct = λ j k c d h g e. ground (
        arith,
        get-insert j i b t.forward,
        get-insert k i b t.forward,
        v.distinct j k c d,
        v.leased j c,
        v.leased k d,
      );
      published = λ j c h. ground (
        arith,
        get-insert j i b t.forward,
        get-insert (key_of c) (key_of b) (locator_of owner i) t.reverse,
        flow_beq_iff (key_of b) (key_of c),
        v.published j c,
      );
      backed = bind-backed;
      apart = λ k l h. ground (
        arith,
        get-insert k (key_of b) (locator_of owner i) t.reverse,
        flow_beq_iff (key_of b) k,
        v.apart k l,
      );
    }

  module _ (i : SessionId) (b : NatBinding) (now : Instant)
      (held : HashMap.get i t.forward ≡ some b) where
    release-backed :
        (k : ReverseNatKey) (l : SessionLocator)
        → HashMap.get k (release t i b now).reverse ≡ some l
        → (c : NatBinding) × (HashMap.get l.session_id (release t i b now).forward ≡ some c)
          × (key_of c ≡ k)
    unfolding release
    release-backed k l h =
        let (c, found, key) = v.backed k l (ground (arith, get-remove k (key_of b) t.reverse)) in
        (
          c,
          ground (
            arith,
            get-remove k (key_of b) t.reverse,
            get-remove l.session_id i t.forward,
            flow_beq_iff (key_of b) k,
          ),
          key,
        )

    pub release-IsValid : IsValid owner (release t i b now)
    unfolding release
    release-IsValid = record {
      ports_sorted = BTreeMap.Laws.insert-IsSorted (port b) tt t.available_ports v.ports_sorted;
      forward_map = remove-IsMap i t.forward v.forward_map;
      reverse_map = remove-IsMap (key_of b) t.reverse v.reverse_map;
      quarantined_map = insert-IsMap (key_of b) _ t.quarantined v.quarantined_map;
      leased = λ j c h. ground (
        arith,
        get-remove j i t.forward,
        BTreeMap.Laws.get-insert (port c) (port b) tt t.available_ports,
        v.leased j c,
        v.distinct i j b c held,
      );
      distinct = λ j k c d h g e.
          ground (arith, get-remove j i t.forward, get-remove k i t.forward, v.distinct j k c d);
      published = λ j c h. ground (
        arith,
        get-remove j i t.forward,
        get-remove (key_of c) (key_of b) t.reverse,
        flow_beq_iff (key_of b) (key_of c),
        v.published j c,
        v.distinct i j b c held,
        port_of-from_translated_flow b.translated,
        port_of-from_translated_flow c.translated,
      );
      backed = release-backed;
      apart = λ k l h. ground (
        arith,
        get-remove k (key_of b) t.reverse,
        get-insert k (key_of b) (now + reuse_quarantine b.translated.protocol) t.quarantined,
        v.apart k l,
      );
    }

  pub purge-IsValid : (now : Instant) → IsValid owner (purge t now)
  unfolding purge
  purge-IsValid now = record {
    ports_sorted = v.ports_sorted;
    forward_map = v.forward_map;
    reverse_map = v.reverse_map;
    quarantined_map = retain-IsMap _ t.quarantined v.quarantined_map;
    leased = v.leased;
    distinct = v.distinct;
    published = v.published;
    backed = v.backed;
    apart = λ k l h. get-retain-eq-none _ k t.quarantined (v.apart k l h);
  }
