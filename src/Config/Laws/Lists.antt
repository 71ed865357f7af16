-- ===== src/Config/Laws/Lists.antt =====
-- src/v1_config.rs: the lists that the configuration reads from files: domains and prefixes.
use new_proxy.Prelude.{
  ◌+◌, ◌<◌, ◌≤◌, ◌≡◌, refl, true, false, ◌⊎◌, ◌||◌, List, [], ◌∷◌, ◌++◌, map, length, length-append,
  nat_eq, ok, arith, Result-cases, Option-cases, inl, inr, ◌==◌,
}
use new_proxy.Net.{list_eq, list_beq_iff}
use new_proxy.Dns.Name.{to_ascii_lowercase}
use new_proxy.Config.Text.{Text, trim, before}
use new_proxy.Config.Types.{Family, ipv4, ipv6, IpNet, Host}
use new_proxy.Config.Ini.{mem_text}
use new_proxy.Config.Domains.{
  is_domain, without_dot, normalize_domain, add_domains, parse_remote_domain_lines,
}
use new_proxy.Config.Prefixes.{
  count_family, add_prefix, add_prefixes, normalize_prefix, parse_cidr_terms,
  lpm_prefix_capacity_per_family,
}

-- Every text is a domain without an upper-case letter.
abbrev pub AreDomains : List Text → Type 0
AreDomains [] = Unit {0}
AreDomains (d ∷ ds) = (is_domain d ≡ true) × (map to_ascii_lowercase d ≡ d) × AreDomains ds

-- No text stands twice.
abbrev pub AreUnrepeated : List Text → Type 0
AreUnrepeated [] = Unit {0}
AreUnrepeated (d ∷ ds) = (mem_text d ds ≡ false) × AreUnrepeated ds

append-AreDomains :
    (ds : List Text) (d : Text)
    → AreDomains ds
    → (is_domain d ≡ true) × (map to_ascii_lowercase d ≡ d)
    → AreDomains (ds ++ d ∷ [])
append-AreDomains [] d h g = (g.0, g.1, tt)
append-AreDomains (e ∷ ds) d h g = (h.0, h.1, append-AreDomains ds d h.2 g)

lowercase_once :
    (t : Text) → map to_ascii_lowercase (map to_ascii_lowercase t) ≡ map to_ascii_lowercase t
unfolding to_ascii_lowercase
lowercase_once [] = refl
lowercase_once (c ∷ t) = ground (arith, lowercase_once t)

mem_text-append :
    (t : Text) (ds : List Text) (d : Text) → mem_text t (ds ++ d ∷ []) ≡ (mem_text t ds || d == t)
unfolding mem_text
mem_text-append t [] d = ground arith
mem_text-append t (e ∷ ds) d = ground (arith, mem_text-append t ds d)

append-AreUnrepeated :
    (ds : List Text) (d : Text)
    → AreUnrepeated ds
    → mem_text d ds ≡ false
    → AreUnrepeated (ds ++ d ∷ [])
unfolding mem_text
append-AreUnrepeated [] d h new = (refl, tt)
append-AreUnrepeated (e ∷ ds) d h new = (
  ground (arith, mem_text-append e ds d, h.0, list_beq_iff e d, list_beq_iff d e),
  append-AreUnrepeated ds d h.1 (ground arith),
)

normalize_domain-ok :
    (value d : Text)
    → normalize_domain value ≡ ok d
    → (is_domain d ≡ true) × (map to_ascii_lowercase d ≡ d)
unfolding normalize_domain
normalize_domain-ok value d h = ground (arith, lowercase_once (without_dot (trim value)))

-- What the loop over the lines keeps of the domains that have been seen.
record IsDomainList (ds : List Text) : Type 0 where
  few : length ds ≤ 65536
  domains : AreDomains ds
  unrepeated : AreUnrepeated ds

List-cases : {A : Type 0} (xs : List A) → (xs ≡ []) ⊎ ((y : A) × (ys : List A) × (xs ≡ y ∷ ys))
List-cases [] = inl refl
List-cases (y ∷ ys) = inr (y, ys, refl)

add_domains-IsDomainList :
    (ds ts out : List Text) → IsDomainList ds → add_domains ds ts ≡ ok out → IsDomainList out
unfolding add_domains
add_domains-IsDomainList ds [] out v h = let same : ds ≡ out = ground arith in rw (← same) v
add_domains-IsDomainList ds (line ∷ ts) out v h = elim (List-cases (trim (before 35 line))) [
  | inl blank ↦ add_domains-IsDomainList ds ts out v (ground arith)
  | inr (c, cs, full) ↦ elim (Result-cases (normalize_domain (c ∷ cs))) [
    | inr (e, failed) ↦ absurd (ground arith)
    | inl (d, read) ↦
        let new : mem_text d ds ≡ false = ground arith in
        let room : length ds + 1 ≤ 65536 = ground arith in
        add_domains-IsDomainList (ds ++ d ∷ []) ts out
          (record {
            few = omega (arith, room, length-append ds (d ∷ []));
            domains = append-AreDomains ds d v.domains (normalize_domain-ok (c ∷ cs) d read);
            unrepeated = append-AreUnrepeated ds d v.unrepeated new;
          })
          (ground arith)
  ]
]

-- The domains that `parse_remote_domain_lines` accepts are at least one and at most 65536, each a
-- valid domain without an upper-case letter, and none stands twice.
pub parse_remote_domain_lines-ok :
    (ts ds : List Text)
    → parse_remote_domain_lines ts ≡ ok ds
    → (0 < length ds) × (length ds ≤ 65536) × AreDomains ds × AreUnrepeated ds
unfolding parse_remote_domain_lines
parse_remote_domain_lines-ok ts ds h = elim (Result-cases (add_domains [] ts)) [
  | inr (e, failed) ↦ absurd (ground arith)
  | inl ([], read) ↦ absurd (ground arith)
  | inl (d ∷ out, read) ↦
      let same : d ∷ out ≡ ds = ground arith in
      let v =
        add_domains-IsDomainList [] ts (d ∷ out)
          (record { few = omega arith; domains = tt; unrepeated = tt }) read in
      rw (← same) (omega arith, v.few, v.domains, v.unrepeated)
]

count_family-append :
    (f : Family) (ns : List IpNet) (n : IpNet)
    → count_family f (ns ++ n ∷ []) ≡ count_family f ns + count_family f (n ∷ [])
unfolding count_family
count_family-append f [] n = omega arith
count_family-append f (m ∷ ns) n = ground (arith, count_family-append f ns n)

add_prefix-count :
    (f : Family) (ns out : List IpNet) (n : IpNet)
    → count_family f ns ≤ lpm_prefix_capacity_per_family
    → add_prefix ns n ≡ ok out
    → count_family f out ≤ lpm_prefix_capacity_per_family
unfolding add_prefix count_family
add_prefix-count ipv4 ns out n few h = ground (arith, count_family-append ipv4 ns n)
add_prefix-count ipv6 ns out n few h = ground (arith, count_family-append ipv6 ns n)

add_prefixes-count :
    (host : Host) (f : Family) (ts : List Text) (ns out : List IpNet)
    → count_family f ns ≤ lpm_prefix_capacity_per_family
    → add_prefixes host ns ts ≡ ok out
    → count_family f out ≤ lpm_prefix_capacity_per_family
unfolding add_prefixes
add_prefixes-count host f [] ns out few h = ground arith
add_prefixes-count host f (t ∷ ts) ns out few h = elim (Option-cases (host.parse_ip_net t)) [
  | inl no_net ↦ absurd (ground arith)
  | inr (n, parsed) ↦ elim (Result-cases (add_prefix ns (normalize_prefix host n))) [
    | inr (e, failed) ↦ absurd (ground arith)
    | inl (next, added) ↦
        add_prefixes-count host f ts next out
          (add_prefix-count f ns next (normalize_prefix host n) few added) (ground arith)
  ]
]

-- The prefixes that `parse_cidr_terms` accepts are at least one, and of each family at most as
-- many as the LPM map has room for.
pub parse_cidr_terms-count :
    (host : Host) (ts : List Text) (ns : List IpNet)
    → parse_cidr_terms host ts ≡ ok ns
    → (0 < length ns) × ((f : Family) → count_family f ns ≤ lpm_prefix_capacity_per_family)
unfolding parse_cidr_terms count_family
parse_cidr_terms-count host ts ns h = elim (Result-cases (add_prefixes host [] ts)) [
  | inr (e, failed) ↦ absurd (ground arith)
  | inl ([], read) ↦ absurd (ground arith)
  | inl (n ∷ out, read) ↦
      let same : n ∷ out ≡ ns = ground arith in
      rw (← same) (omega arith, λ f. add_prefixes-count host f ts [] (n ∷ out) (omega arith) read)
]
