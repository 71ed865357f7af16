-- ===== src/PortReservation/Laws.antt =====
-- src/xdp_datapath/port_reservation.rs: the ports of ranges, through normalisation and the check.
use new_proxy.Prelude.{
  Bool-cases, ℕ, ◌≤◌, ◌≡◌, ◌∙◌, refl, arith, max, Bool, Result-cases, inl, inr, ok, true, false,
  ◌&&◌, ◌||◌, List, [], ◌∷◌, leb,
}
use new_proxy.PortReservation.{
  PortRange, insert_range, sort_by_start, merge_ranges, normalize_ranges, range_contains,
  read_terms, parse_reserved_ranges, ensure_nat_ports_reserved, new,
}

-- Some range has the port.
unfoldable pub has_port : List PortRange → ℕ → Bool
has_port [] port = false
has_port (r ∷ ranges) port = (leb r.start port && leb port r.end) || has_port ranges port

-- Every range starts at or behind a place, and is not empty.
abbrev pub AreFrom : ℕ → List PortRange → Type 0
AreFrom low [] = Unit {0}
AreFrom low (r ∷ ranges) = (low ≤ r.start) × (r.start ≤ r.end) × AreFrom low ranges

-- Every range is followed by ranges that start no earlier.
abbrev pub IsSorted : List PortRange → Type 0
IsSorted [] = Unit {0}
IsSorted (r ∷ ranges) = (r.start ≤ r.end) × AreFrom r.start ranges × IsSorted ranges

AreFrom-le : (a b : ℕ) (rs : List PortRange) → a ≤ b → AreFrom b rs → AreFrom a rs
AreFrom-le a b [] h k = tt
AreFrom-le a b (r ∷ rs) h k = (omega (arith, k.0), k.1, AreFrom-le a b rs h k.2)

insert_range-has_port :
    (r : PortRange) (rs : List PortRange) (port : ℕ)
    → has_port (insert_range r rs) port ≡ has_port (r ∷ rs) port
unfolding insert_range has_port
insert_range-has_port r [] port = refl
insert_range-has_port r (s ∷ rs) port = ground (arith, insert_range-has_port r rs port)

sort_by_start-has_port :
    (rs : List PortRange) (port : ℕ) → has_port (sort_by_start rs) port ≡ has_port rs port
unfolding sort_by_start has_port
sort_by_start-has_port [] port = refl
sort_by_start-has_port (r ∷ rs) port =
    ground (arith, insert_range-has_port r (sort_by_start rs) port, sort_by_start-has_port rs port)

insert_range-AreFrom :
    (low : ℕ) (r : PortRange) (rs : List PortRange)
    → low ≤ r.start
    → r.start ≤ r.end
    → AreFrom low rs
    → AreFrom low (insert_range r rs)
unfolding insert_range
insert_range-AreFrom low r [] h k f = (h, k, tt)
insert_range-AreFrom low r (s ∷ rs) h k f = ground (arith, insert_range-AreFrom low r rs h k f.2)

merge_ranges-has_port :
    (last : PortRange) (rs : List PortRange) (port : ℕ)
    → last.start ≤ last.end
    → AreFrom last.start rs
    → IsSorted rs
    → has_port (merge_ranges last rs) port ≡ has_port (last ∷ rs) port
unfolding merge_ranges has_port
merge_ranges-has_port last [] port h f s = refl
merge_ranges-has_port last (r ∷ rs) port h f s =
    let joined : PortRange = record last { end = max last.end r.end } in
    ground (
      arith,
      merge_ranges-has_port joined rs port (omega arith) f.2 s.2,
      merge_ranges-has_port r rs port s.0 s.1 s.2,
    )

insert_range-IsSorted :
    (r : PortRange) (rs : List PortRange)
    → r.start ≤ r.end
    → IsSorted rs
    → IsSorted (insert_range r rs)
unfolding insert_range
insert_range-IsSorted r [] h s = (h, tt, tt)
insert_range-IsSorted r (t ∷ rs) h s = elim (Bool-cases (leb r.start t.start)) [
  | inl before ↦
      rw (before, insert_range)
        (h, (ground arith, s.0, AreFrom-le r.start t.start rs (ground arith) s.1), s)
  | inr after ↦
      rw (after, insert_range)
        (
          s.0,
          insert_range-AreFrom t.start r rs (ground arith) h s.1,
          insert_range-IsSorted r rs h s.2,
        )
]

sort_by_start-IsSorted : (rs : List PortRange) → AreFrom 0 rs → IsSorted (sort_by_start rs)
unfolding sort_by_start
sort_by_start-IsSorted [] h = tt
sort_by_start-IsSorted (r ∷ rs) h =
    insert_range-IsSorted r (sort_by_start rs) h.1 (sort_by_start-IsSorted rs h.2)

-- Normalisation of ranges that are not empty keeps exactly the ports that they have.
pub normalize_ranges-has_port :
    (rs : List PortRange) (port : ℕ)
    → AreFrom 0 rs
    → has_port (normalize_ranges rs) port ≡ has_port rs port
unfolding normalize_ranges
normalize_ranges-has_port rs port h =
    merged (sort_by_start rs) (sort_by_start-IsSorted rs h) ∙ sort_by_start-has_port rs port
  where
    merged :
        (sorted : List PortRange)
        → IsSorted sorted
        → has_port (elim sorted [ [] ↦ [] | range ∷ rest ↦ merge_ranges range rest ]) port
          ≡ has_port sorted port
    merged [] s = refl
    merged (r ∷ rest) s = merge_ranges-has_port r rest port s.0 s.1 s.2

range_contains-has_port :
    (rs : List PortRange) (required : PortRange) (port : ℕ)
    → range_contains rs required ≡ true
    → required.start ≤ port
    → port ≤ required.end
    → has_port rs port ≡ true
unfolding range_contains has_port
range_contains-has_port [] required port h a b = absurd (ground arith)
range_contains-has_port (r ∷ rs) required port h a b = ground (
  arith,
  λ (k : range_contains rs required ≡ true). range_contains-has_port rs required port k a b,
)

-- Some term of the setting has the port.
unfoldable pub is_reserved : List (ℕ × ℕ) → ℕ → Bool
is_reserved [] port = false
is_reserved ((start, end) ∷ terms) port = (leb start port && leb port end) || is_reserved terms port

read_terms-has_port :
    (terms : List (ℕ × ℕ)) (rs : List PortRange)
    → read_terms terms ≡ ok rs
    → AreFrom 0 rs × ((port : ℕ) → has_port rs port ≡ is_reserved terms port)
unfolding read_terms new has_port is_reserved
read_terms-has_port [] rs h = ground arith
read_terms-has_port ((a, b) ∷ terms) rs h = elim (Result-cases (read_terms terms)) [
  | inr (e, failed) ↦ absurd (ground arith)
  | inl (rest, read) ↦
      let range : PortRange = record { start = a; end = b } in
      let same : (rs ≡ range ∷ rest) × (a ≤ b) = ground arith in
      let (valid, ports) = read_terms-has_port terms rest read in
      rw same.0 ((omega arith, same.1, valid), λ port. rw (ports port))
]

-- Where `ensure_nat_ports_reserved` succeeds, every port of the NAT range stands in a term of the
-- kernel's setting.
pub ensure_nat_ports_reserved-ok :
    (start end : ℕ) (terms : List (ℕ × ℕ))
    → ensure_nat_ports_reserved start end terms ≡ ok tt
    → (port : ℕ) → start ≤ port
    → port ≤ end
    → is_reserved terms port ≡ true
unfolding ensure_nat_ports_reserved parse_reserved_ranges new
ensure_nat_ports_reserved-ok start end terms h port low high =
    elim (Result-cases (read_terms terms)) [
      | inr (e, failed) ↦ absurd (ground arith)
      | inl (rs, read) ↦
          let required : PortRange = record { start = start; end = end } in
          let (valid, ports) = read_terms-has_port terms rs read in
          let held : range_contains (normalize_ranges rs) required ≡ true = ground arith in
          cc (
            ports port,
            normalize_ranges-has_port rs port valid,
            range_contains-has_port (normalize_ranges rs) required port held low high,
          )
    ]
