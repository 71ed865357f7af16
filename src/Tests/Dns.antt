-- ===== src/Tests/Dns.antt =====
-- src/flow_plane/dns.rs: names, rules and records, and the theorems at them.
use new_proxy.Prelude.{
  ℕ, ◌+◌, ◌≤◌, ◌≡◌, refl, arith, List, [], ◌∷◌, ◌++◌, length, ok, map, true, ap,
}
use new_proxy.Packet.Bytes.{get_range, write}
use new_proxy.Dns.Name.{
  is_label, all_label_bytes, is_alphanumeric, starts_with_dash, ends_with_dash, to_ascii_lowercase,
  join, parse_name, skip_name, skip_name_from,
}
use new_proxy.Dns.Message.{
  skip_resource_record, skip_resource_records, skip_questions, header_of, additional_offset,
  clamp_record, clamp_records, clamp_edns_udp_payload,
}
use new_proxy.Dns.Route.{RemoteDomainRules, matches}
use new_proxy.Dns.Laws.Domains.{any_domain_matches, matches-any_domain_matches}
use new_proxy.Dns.Laws.Names.{encode, AreLabels, parse_name-encode}
use new_proxy.Dns.Laws.Places.{oversized, is_oversized, name_end, with_sizes, has_any}
use new_proxy.Dns.Laws.Clamp.{clamp_edns_udp_payload-oversized}
use new_proxy.Dns.Laws.Walks.{skip_resource_record-le}

-- "a.b"
abbrev a_b : List ℕ
a_b = 97 ∷ 46 ∷ 98 ∷ []

abbrev rules : RemoteDomainRules
rules = (98 ∷ []) ∷ (99 ∷ []) ∷ []

matches-any_domain_matches_example : matches rules a_b ≡ any_domain_matches rules a_b
matches-any_domain_matches_example = matches-any_domain_matches rules a_b

-- "a" and "B-2"
abbrev two_labels : List (List ℕ)
two_labels = (97 ∷ []) ∷ (66 ∷ 45 ∷ 50 ∷ []) ∷ []

two_labels-AreLabels : AreLabels two_labels
unfolding is_label all_label_bytes is_alphanumeric starts_with_dash ends_with_dash
two_labels-AreLabels = (omega arith, refl, (omega arith, refl, tt))

parse_name-encode_example :
    parse_name ((7 ∷ []) ++ (encode two_labels ++ 1 ∷ [])) 1
    ≡ ok (join (map (map to_ascii_lowercase) two_labels), 1 + length (encode two_labels))
parse_name-encode_example =
    parse_name-encode two_labels (7 ∷ []) (1 ∷ []) (omega arith) (omega arith) two_labels-AreLabels

-- The name "a", ten bytes of a record, and its two bytes of data.
abbrev resource : List ℕ
resource = 1 ∷ 97 ∷ 0 ∷ 0 ∷ 1 ∷ 0 ∷ 1 ∷ 0 ∷ 0 ∷ 0 ∷ 0 ∷ 0 ∷ 2 ∷ 9 ∷ 9 ∷ []

resource_end : skip_resource_record resource 0 ≡ ok 15
unfolding skip_resource_record skip_name skip_name_from get_range
resource_end = refl

skip_resource_record-le_example : (0 + 11 ≤ 15) × (15 ≤ length resource)
skip_resource_record-le_example = skip_resource_record-le resource 0 15 resource_end

-- A query for the addresses of "a" with one additional record: an OPT record that advertises a size.
abbrev advertising : ℕ → List ℕ
advertising high =
    0 ∷ 7 ∷ 1 ∷ 0 ∷ 0 ∷ 1 ∷ 0 ∷ 0 ∷ 0 ∷ 0 ∷ 0 ∷ 1 ∷ 1 ∷ 97 ∷ 0 ∷ 0 ∷ 1 ∷ 0 ∷ 1 ∷ 0 ∷ 0 ∷ 41 ∷ high
    ∷ 208 ∷ 0 ∷ 0 ∷ 0 ∷ 0 ∷ 0 ∷ 0 ∷ []

abbrev advertised_header : List ℕ
advertised_header = 0 ∷ 7 ∷ 1 ∷ 0 ∷ 0 ∷ 1 ∷ 0 ∷ 0 ∷ 0 ∷ 0 ∷ 0 ∷ 1 ∷ []

header_read : header_of (advertising 16) ≡ ok advertised_header
unfolding header_of get_range
header_read = refl

walked : additional_offset advertised_header (advertising 16) ≡ ok 19
unfolding additional_offset skip_questions skip_resource_records skip_name skip_name_from
walked = refl

clamped_edns : clamp_edns_udp_payload (advertising 16) ≡ (advertising 4, ok true)
unfolding clamp_edns_udp_payload additional_offset skip_questions skip_resource_records skip_name
    skip_name_from header_of get_range clamp_records clamp_record write
clamped_edns = refl

one_oversized : oversized 1 (advertising 16) 19 ≡ 20 ∷ []
unfolding oversized is_oversized name_end
one_oversized = refl

clamp_edns_udp_payload-oversized_example :
    ((clamp_edns_udp_payload (advertising 16)).0
      ≡ with_sizes (oversized 1 (advertising 16) 19) (advertising 16))
    × (true ≡ has_any (oversized 1 (advertising 16) 19))
clamp_edns_udp_payload-oversized_example =
    clamp_edns_udp_payload-oversized (advertising 16) advertised_header 19 true header_read walked
      (ap (λ r. r.1) clamped_edns)
