-- ===== src/Tests/Nat.antt =====
-- src/flow_plane/nat.rs: its unit tests' flows, and the theorems about the NAT table at them.
use new_proxy.Prelude.{
  ℕ, ◌+◌, ◌<◌, ◌≡◌, ◌≢◌, ◌↔◌, refl, arith, none, some, [], ◌∷◌, ok, err, if◌then◌else◌, nat_eq,
  ◌==◌,
}
use new_proxy.HashMap
use new_proxy.BTreeMap
use new_proxy.Net.{
  FlowKey, IpAddr, v4, tcp, reverse, flow_beq, ip_beq, list_beq, flow_eq, from_secs,
}
use new_proxy.Nat.Directory.{
  NatBinding, publish, lookup, retire, from_translated_flow, from_return_flow, locator_beq,
  port_range_exhausted, ReverseNatDirectory,
}
use new_proxy.Nat.Table.{
  NatTable, allocate_at, remove_at, lookup_reverse, find_port, is_free, snat_for, purge, bind,
  release, reuse_quarantine,
}
use new_proxy.Nat.Keys.{IsReply}
use new_proxy.Nat.Start.{start, start-IsValid}
use new_proxy.Nat.Invariant.{IsValid, locator_of, key_of}
use new_proxy.Nat.Leases.{
  allocate-IsValid, allocate-lookup_reverse, allocate-exhausted_iff, IsExhausted, allocate_ok,
  Succeeds,
}
use new_proxy.Nat.Removal.{remove-IsValid, remove-lookup_reverse}
use new_proxy.Nat.Quarantine.{here, reuse-Run}
use new_proxy.Nat.Sharing.{publish-Run}
use new_proxy.Nat.Sharing

-- Names what a run of the table computes with.
unfoldable pub program : Unit {0}
unfolding allocate_at remove_at lookup_reverse find_port is_free snat_for purge bind release
    reuse_quarantine from_translated_flow from_return_flow publish lookup retire flow_beq ip_beq
    list_beq locator_beq HashMap.get HashMap.insert HashMap.remove HashMap.retain BTreeMap.insert
    BTreeMap.range reverse
program = tt

abbrev pub flow : ℕ → FlowKey
flow source_port = record {
  source = v4 (10 ∷ 0 ∷ 0 ∷ 2 ∷ []);
  destination = v4 (203 ∷ 0 ∷ 113 ∷ 10 ∷ []);
  source_port = source_port;
  destination_port = 443;
  protocol = tcp;
}

abbrev pub snat : IpAddr
snat = v4 (192 ∷ 0 ∷ 2 ∷ 1 ∷ [])

abbrev pub binding : ℕ → ℕ → NatBinding
binding source_port nat_port = record {
  original = flow source_port;
  translated = record (flow source_port) { source = snat; source_port = nat_port };
}

-- `v1_unit_nat_quarantines_released_reverse_tuple_before_reuse`
abbrev empty : NatTable
empty = start (some (192 ∷ 0 ∷ 2 ∷ 1 ∷ [])) none 40000 40001

abbrev one : NatTable
one = (allocate_at empty 1 (flow 10001) (locator_of 2 1) 7).0

abbrev two : NatTable
two = (allocate_at one 2 (flow 10002) (locator_of 2 2) 7).0

abbrev freed : NatTable
freed = (remove_at two 1 7).0

empty-IsValid : IsValid 2 empty
empty-IsValid = start-IsValid (some (192 ∷ 0 ∷ 2 ∷ 1 ∷ [])) none 40000 40001 2

one-IsValid : IsValid 2 one
one-IsValid = allocate-IsValid empty-IsValid 1 (flow 10001) 7

two-IsValid : IsValid 2 two
two-IsValid = allocate-IsValid one-IsValid 2 (flow 10002) 7

first_lease : (allocate_at empty 1 (flow 10001) (locator_of 2 1) 7).1 ≡ ok (binding 10001 40000)
unfolding program
first_lease = refl

second_lease : (allocate_at one 2 (flow 10002) (locator_of 2 2) 7).1 ≡ ok (binding 10002 40001)
unfolding program
second_lease = refl

third_lease : (allocate_at two 3 (flow 10003) (locator_of 2 3) 7).1 ≡ err port_range_exhausted
unfolding program
third_lease = refl

released : (remove_at two 1 7).1 ≡ ok (binding 10001 40000)
unfolding program
released = refl

still_quarantined :
    (allocate_at freed 3 (flow 10003) (locator_of 2 3) 7).1 ≡ err port_range_exhausted
unfolding program
still_quarantined = refl

after_quarantine :
    (allocate_at freed 3 (flow 10003) (locator_of 2 3) (7 + from_secs 120)).1
    ≡ ok (binding 10003 40000)
unfolding program
after_quarantine = refl

-- Another destination is another reverse key, and may have the port at once.
reused :
    (allocate_at freed 3 (record (flow 10003) { destination_port = 80 }) (locator_of 2 3) 8).1
    ≡ ok (record {
      original = record (flow 10003) { destination_port = 80 };
      translated = record (flow 10003) {
        source = snat;
        source_port = 40000;
        destination_port = 80;
      };
    })
unfolding program
reused = refl

abbrev pub reply : FlowKey
reply = record {
  source = v4 (203 ∷ 0 ∷ 113 ∷ 10 ∷ []);
  destination = snat;
  source_port = 443;
  destination_port = 40000;
  protocol = tcp;
}

pub reply-IsReply : IsReply (binding 10001 40000).translated reply
reply-IsReply = record {
  from_destination = refl;
  to_source = refl;
  same_protocol = refl;
  same_identifier = λ h. cc;
  from_port = λ _. refl;
  to_port = λ _. refl;
}

allocate-IsValid_example : IsValid 2 (allocate_at one 2 (flow 10002) (locator_of 2 2) 7).0
allocate-IsValid_example = allocate-IsValid one-IsValid 2 (flow 10002) 7

remove-IsValid_example : IsValid 2 (remove_at two 1 7).0
remove-IsValid_example = remove-IsValid two-IsValid 1 7

allocate_ok_example :
    Succeeds one-IsValid 2
      (flow 10002)
      7
      (binding 10002 40001)
      (allocate_at one 2 (flow 10002) (locator_of 2 2) 7)
allocate_ok_example = allocate_ok one-IsValid 2 (flow 10002) 7 (binding 10002 40001) second_lease

allocate-lookup_reverse_example :
    (IsReply (binding 10001 40000).translated reply
      → lookup_reverse one reply ≡ some (locator_of 2 1))
    × (from_return_flow reply ≢ key_of (binding 10001 40000)
        → lookup_reverse one reply ≡ lookup_reverse empty reply)
allocate-lookup_reverse_example =
    allocate-lookup_reverse empty-IsValid 1 (flow 10001) 7 (binding 10001 40000) first_lease reply

allocate-exhausted_iff_example :
    ((allocate_at two 3 (flow 10003) (locator_of 2 3) 7).1 ≡ err port_range_exhausted)
    ↔ IsExhausted two-IsValid 3 (flow 10003) 7
allocate-exhausted_iff_example = allocate-exhausted_iff two-IsValid 3 (flow 10003) 7

reuse-Run_example :
    from_translated_flow
      (record (flow 10003) { source = snat; source_port = 40000; destination_port = 80 })
    ≢ key_of (binding 10001 40000)
reuse-Run_example =
    reuse-Run 1 7 (binding 10001 40000) two-IsValid released here 3
      (record (flow 10003) { destination_port = 80 }) 8
      (record {
        original = record (flow 10003) { destination_port = 80 };
        translated = record (flow 10003) {
          source = snat;
          source_port = 40000;
          destination_port = 80;
        };
      })
      early reused
  where
    early : 8 < 7 + reuse_quarantine tcp
    early = unfold reuse_quarantine in omega arith

remove-lookup_reverse_example :
    (HashMap.get 1 two.forward ≡ some (binding 10001 40000))
    × (BTreeMap.get 40000 (remove_at two 1 7).0.available_ports ≡ some tt)
    × ((j : ℕ)
        → HashMap.get j (remove_at two 1 7).0.forward
          ≡ (if 1 == j then none else HashMap.get j two.forward))
    × ((r : FlowKey)
        → lookup_reverse (remove_at two 1 7).0 r ≡ (
            if key_of (binding 10001 40000) == from_return_flow r
            then none
            else lookup_reverse two r))
remove-lookup_reverse_example = remove-lookup_reverse two-IsValid 1 7 (binding 10001 40000) released

-- `v1_unit_reverse_directory_retire_is_locator_compare_and_swap`
abbrev directory : ReverseNatDirectory
directory = (publish [] (binding 10001 40000) (locator_of 2 1)).0

published : (publish [] (binding 10001 40000) (locator_of 2 1)).1 ≡ ok tt
unfolding program
published = refl

-- Another worker publishes the same key, which is refused, and retires it, which does nothing.
publish-Run_example :
    lookup
      (retire
        (publish directory (binding 10001 40000) (locator_of 2 2)).0
        (binding 10001 40000)
        (locator_of 2 2)).0
      reply
    ≡ some (locator_of 2 1)
publish-Run_example =
    publish-Run [] _ (binding 10001 40000) (locator_of 2 1) reply published
      (Sharing.retirement (binding 10001 40000) (locator_of 2 2) (λ same. ground (arith, same))
        (Sharing.publication (binding 10001 40000) (locator_of 2 2) Sharing.here))
      reply-IsReply

retire_other : retire directory (binding 10001 40000) (locator_of 2 2) ≡ (directory, none)
unfolding program
retire_other = refl
