-- ===== src/Dns/Laws/Domains.antt =====
-- src/flow_plane/dns.rs: `RemoteDomainRules::matches` against `domain_matches`, rule by rule.
use new_proxy.Prelude.{
  ℕ, Bool, false, ◌&&◌, ◌||◌, List, [], ◌∷◌, ◌≡◌, arith, ◌==◌, nat_beq, nat_eq, refl, Bool-cases,
  Option-cases, inl, inr, ap, length, ◌≤◌, ==_symm, if◌then◌else◌,
}
use new_proxy.Net.{list_eq, list_beq_iff}
use new_proxy.Dns.Route.{
  RemoteDomainRules, contains, any_suffix, matches, strip_suffix, ends_with_dot, is_dotted,
  domain_matches,
}

-- Some rule matches by `domain_matches`.
unfoldable pub any_domain_matches : RemoteDomainRules → List ℕ → Bool
any_domain_matches [] qname = false
any_domain_matches (rule ∷ rules) qname =
    domain_matches rule qname || any_domain_matches rules qname

-- One rule in the set.
suffix_of : List ℕ → List ℕ → Bool
suffix_of rule [] = false
suffix_of rule (c ∷ qname) = (nat_beq c b'.' && (rule == qname)) || suffix_of rule qname

any_suffix-cons :
    (rule : List ℕ) (rules : RemoteDomainRules) (qname : List ℕ)
    → any_suffix (rule ∷ rules) qname ≡ (suffix_of rule qname || any_suffix rules qname)
unfolding any_suffix suffix_of contains
any_suffix-cons rule rules [] = refl
any_suffix-cons rule rules (c ∷ qname) = ground (arith, any_suffix-cons rule rules qname)

any_suffix-nil : (qname : List ℕ) → any_suffix [] qname ≡ false
unfolding any_suffix contains
any_suffix-nil [] = refl
any_suffix-nil (c ∷ qname) = ground (arith, any_suffix-nil qname)

suffix_of-long : (rule qname : List ℕ) → length qname ≤ length rule → suffix_of rule qname ≡ false
unfolding suffix_of
suffix_of-long rule [] h = refl
suffix_of-long rule (c ∷ qname) h =
    ground
      (arith, list_beq_iff rule qname, λ (e : rule ≡ qname). ap length e, suffix_of-long rule qname)

-- A byte in front of what is stripped: it is the dot if nothing else is left.
dotted_cons :
    (c : ℕ) (qname rule : List ℕ)
    → (c ∷ qname == rule) ≡ false
    → is_dotted (strip_suffix (c ∷ qname) rule)
      ≡ (if qname == rule then nat_beq c b'.' else is_dotted (strip_suffix qname rule))
unfolding strip_suffix ends_with_dot
dotted_cons c [] rule h = elim (Bool-cases ([] == rule)) [
  | inl same ↦ rw (h, same)
  | inr other ↦ rw (h, other)
]
dotted_cons c (d ∷ qname) rule h = elim (Bool-cases (d ∷ qname == rule)) [
  | inl same ↦ rw (h, same)
  | inr other ↦ elim (Option-cases (strip_suffix qname rule)) [
    | inl none_left ↦ rw (h, other, none_left)
    | inr (prefix, left) ↦ rw (h, other, left)
  ]
]

domain_matches-nil : (rule : List ℕ) → domain_matches rule [] ≡ (([] == rule) || false)
unfolding domain_matches strip_suffix ends_with_dot
domain_matches-nil rule = elim (Bool-cases ([] == rule)) [
  | inl same ↦ rw same
  | inr other ↦ rw other
]

domain_matches-suffix_of :
    (rule qname : List ℕ) → domain_matches rule qname ≡ ((qname == rule) || suffix_of rule qname)
unfolding domain_matches suffix_of
domain_matches-suffix_of rule [] = domain_matches-nil rule
domain_matches-suffix_of rule (c ∷ qname) = elim (Bool-cases (c ∷ qname == rule)) [
  | inl same ↦ rw same
  | inr other ↦ ground (
    arith,
    dotted_cons c qname rule other,
    domain_matches-suffix_of rule qname,
    list_beq_iff qname rule,
    list_beq_iff rule qname,
    λ (e : rule ≡ qname). suffix_of-long rule qname (omega (arith, ap length e)),
  )
]

-- The lookup of all suffixes of a name in the set of rules gives the same as asking
-- `domain_matches` of every rule.
pub matches-any_domain_matches :
    (rules : RemoteDomainRules) (qname : List ℕ)
    → matches rules qname ≡ any_domain_matches rules qname
unfolding matches any_domain_matches contains
matches-any_domain_matches [] qname = any_suffix-nil qname
matches-any_domain_matches (rule ∷ rules) qname = ground (
  arith,
  any_suffix-cons rule rules qname,
  domain_matches-suffix_of rule qname,
  matches-any_domain_matches rules qname,
  ==_symm rule qname,
)
