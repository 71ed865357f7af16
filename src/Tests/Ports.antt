-- ===== src/Tests/Ports.antt =====
-- src/xdp_datapath/port_reservation.rs: a setting with three terms.
use new_proxy.Prelude.{ℕ, ◌≡◌, refl, arith, List, [], ◌∷◌, ok, true}
use new_proxy.PortReservation.{
  PortRange, new, insert_range, sort_by_start, merge_ranges, normalize_ranges, range_contains,
  read_terms, parse_reserved_ranges, ensure_nat_ports_reserved,
}
use new_proxy.PortReservation.Laws.{
  has_port, is_reserved, normalize_ranges-has_port, ensure_nat_ports_reserved-ok,
}

abbrev terms : List (ℕ × ℕ)
terms = (30, 39) ∷ (10, 19) ∷ (20, 29) ∷ []

abbrev range : ℕ → ℕ → PortRange
range a b = record { start = a; end = b }

-- The terms merge to one range.
reserved : ensure_nat_ports_reserved 12 35 terms ≡ ok tt
unfolding new insert_range sort_by_start merge_ranges normalize_ranges range_contains read_terms
    parse_reserved_ranges ensure_nat_ports_reserved
reserved = refl

ensure_nat_ports_reserved-ok_example : is_reserved terms 25 ≡ true
ensure_nat_ports_reserved-ok_example =
    ensure_nat_ports_reserved-ok 12 35 terms reserved 25 (omega arith) (omega arith)

normalize_ranges-has_port_example :
    has_port (normalize_ranges (range 30 39 ∷ range 10 19 ∷ [])) 15
    ≡ has_port (range 30 39 ∷ range 10 19 ∷ []) 15
normalize_ranges-has_port_example =
    normalize_ranges-has_port (range 30 39 ∷ range 10 19 ∷ []) 15
      (omega arith, omega arith, (omega arith, omega arith, tt))
