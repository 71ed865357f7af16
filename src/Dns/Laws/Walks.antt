-- ===== src/Dns/Laws/Walks.antt =====
-- src/flow_plane/dns.rs: where the walks over a message end.
use new_proxy.Prelude.{
  ℕ, zero, suc, ◌+◌, ◌≤◌, ◌<◌, ◌≡◌, some, List, [], ◌∷◌, length, get_elem?, arith, ok, Result-cases,
  Option-cases, inl, inr,
}
use new_proxy.Dns.Name.{validate_name_pointer, skip_name_from, skip_name}
use new_proxy.Dns.Message.{skip_resource_record}

get_elem?-lt : (p : List ℕ) (i b : ℕ) → get_elem? p i ≡ some b → i < length p
get_elem?-lt [] i b h = absurd (ground arith)
get_elem?-lt (x ∷ p) zero b h = omega arith
get_elem?-lt (x ∷ p) (suc i) b h = omega (arith, get_elem?-lt p i b h)

pointer-lt :
    (p : List ℕ) (offset start : ℕ)
    → validate_name_pointer p offset start ≡ ok tt
    → offset + 1 < length p
unfolding validate_name_pointer
pointer-lt p offset start h = elim (Option-cases (get_elem? p (offset + 1))) [
  | inl absent ↦ absurd (ground arith)
  | inr (b, there) ↦ get_elem?-lt p (offset + 1) b there
]

skip_name_from-le :
    (rounds : ℕ) (p : List ℕ) (start offset e : ℕ)
    → skip_name_from rounds p start offset ≡ ok e
    → (offset < e) × (e ≤ length p)
unfolding skip_name_from
skip_name_from-le zero p start offset e h = ground arith
skip_name_from-le (suc rounds) p start offset e h = elim (Option-cases (get_elem? p offset)) [
  | inl absent ↦ absurd (ground arith)
  | inr (b, there) ↦ ground (
    arith,
    get_elem?-lt p offset b there,
    pointer-lt p offset start,
    skip_name_from-le rounds p start (offset + 1 + b) e,
  )
]

skip_name-le :
    (p : List ℕ) (offset e : ℕ) → skip_name p offset ≡ ok e → (offset < e) × (e ≤ length p)
unfolding skip_name
skip_name-le p offset e h = skip_name_from-le 128 p offset offset e h

-- Where `skip_resource_record` succeeds, it goes forward by 11 bytes or more and ends within the
-- message.
pub skip_resource_record-le :
    (p : List ℕ) (offset e : ℕ)
    → skip_resource_record p offset ≡ ok e
    → (offset + 11 ≤ e) × (e ≤ length p)
unfolding skip_resource_record
skip_resource_record-le p offset e h = elim (Result-cases (skip_name p offset)) [
  | inr (x, failed) ↦ absurd (ground arith)
  | inl (n, skipped) ↦ ground (arith, skip_name-le p offset n skipped)
]
