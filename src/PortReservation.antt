-- ===== src/PortReservation.antt =====
-- src/xdp_datapath/port_reservation.rs: the port ranges that the kernel reserves, and whether the NAT
-- range is among them. The text of the kernel's setting is read as its terms, each a pair of ports
-- that `parse_port` has accepted.
use new_proxy.Prelude.{
  ℕ, suc, ◌+◌, ◌≤◌, max, Bool, true, false, not, ◌&&◌, ◌||◌, List, [], ◌∷◌, ltb, leb, nat_beq,
  Result, ok, err, ◌>>=◌, if◌then◌else◌,
}
pub mod Laws

pub record PortRange : Type 0 where
  pub start : ℕ
  pub end : ℕ

pub data PortReservationError : Type 0 where
  invalid_reserved_ports missing_reservation : ℕ → ℕ → PortReservationError

unfoldable pub new : ℕ → ℕ → Result PortReservationError PortRange
new start end =
    if nat_beq start 0 || ltb end start
    then err (invalid_reserved_ports start end)
    else ok (record { start = start; end = end })

-- `ranges.sort_by_key(|range| range.start)`, a stable sort.
unfoldable pub insert_range : PortRange → List PortRange → List PortRange
insert_range r [] = r ∷ []
insert_range r (s ∷ ranges) =
    let rest = insert_range r ranges in if leb r.start s.start then r ∷ s ∷ ranges else s ∷ rest

unfoldable pub sort_by_start : List PortRange → List PortRange
sort_by_start [] = []
sort_by_start (r ∷ ranges) = insert_range r (sort_by_start ranges)

-- The loop of `normalize_ranges`; `last` is the last range of `merged`.
unfoldable pub merge_ranges : PortRange → List PortRange → List PortRange
merge_ranges last [] = last ∷ []
merge_ranges last (range ∷ ranges) =
    let joined = merge_ranges (record last { end = max last.end range.end }) ranges in
    let apart = merge_ranges range ranges in
    if leb range.start (last.end + 1) then joined else last ∷ apart

unfoldable pub normalize_ranges : List PortRange → List PortRange
normalize_ranges ranges = elim (sort_by_start ranges) [
  | [] ↦ []
  | range ∷ rest ↦ merge_ranges range rest
]

unfoldable pub range_contains : List PortRange → PortRange → Bool
range_contains [] required = false
range_contains (range ∷ ranges) required =
    (leb range.start required.start && leb required.end range.end) || range_contains ranges required

-- The loop of `parse_reserved_ranges` over the terms that are not empty.
unfoldable pub read_terms : List (ℕ × ℕ) → Result PortReservationError (List PortRange)
read_terms [] = ok []
read_terms ((start, end) ∷ terms) =
    new start end >>= λ range. read_terms terms >>= λ ranges. ok (range ∷ ranges)

unfoldable pub parse_reserved_ranges : List (ℕ × ℕ) → Result PortReservationError (List PortRange)
parse_reserved_ranges terms = read_terms terms >>= λ ranges. ok (normalize_ranges ranges)

unfoldable pub ensure_nat_ports_reserved :
    ℕ → ℕ → List (ℕ × ℕ) → Result PortReservationError (Unit {0})
ensure_nat_ports_reserved start end terms = new start end >>= λ required.
    parse_reserved_ranges terms >>= λ current.
    if range_contains current required then ok tt else err (missing_reservation start end)
