-- ===== src/Nat/Start.antt =====
-- src/flow_plane/nat.rs: the table that `NatTable::new_dual` makes.
use new_proxy.Prelude.{ℕ, ◌+◌, ◌-◌, ◌≡◌, arith, nat_eq, Option, List, [], ok}
use new_proxy.HashMap
use new_proxy.BTreeMap.{range}
use new_proxy.BTreeMap.Laws.{range-IsSorted}
use new_proxy.Nat.Table.{NatTable, new_dual}
use new_proxy.Nat.Invariant.{IsValid}

-- The table over the ports `first..=last`, none of them leased.
abbrev pub start : Option (List ℕ) → Option (List ℕ) → ℕ → ℕ → NatTable
start a b first last = record {
  snat_ipv4 = a;
  snat_ipv6 = b;
  available_ports = range first (last + 1 - first);
  forward = [];
  reverse = [];
  quarantined = [];
}

pub start-IsValid :
    (a b : Option (List ℕ)) (first last owner : ℕ) → IsValid owner (start a b first last)
unfolding HashMap.get
start-IsValid a b first last owner = record {
  ports_sorted = range-IsSorted first (last + 1 - first);
  forward_map = tt;
  reverse_map = tt;
  quarantined_map = tt;
  leased = λ i c h. absurd (ground arith);
  distinct = λ i j c d h g e. absurd (ground arith);
  published = λ i c h. absurd (ground arith);
  backed = λ k l h. absurd (ground arith);
  apart = λ k l h. absurd (ground arith);
}

pub new_dual-ok :
    (a b : Option (List ℕ)) (first last owner : ℕ) (t : NatTable)
    → new_dual a b first last ≡ ok t
    → IsValid owner t
unfolding new_dual
new_dual-ok a b first last owner t h =
    let made : t ≡ start a b first last = ground arith in
    rw made (start-IsValid a b first last owner)
