-- ===== src/Dns/Message.antt =====
-- src/flow_plane/dns.rs: the walks over a DNS message.
use new_proxy.Prelude.{
  ℕ, zero, suc, ◌+◌, ◌/◌, ◌%◌, min, Bool, true, false, not, ◌&&◌, ◌||◌, Option, none, some, List,
  length, ltb, leb, nat_beq, if◌then◌else◌, Result, ok, err, ◌>>=◌, ok_or, ◌==◌, nat_eq,
}
use new_proxy.Net.{list_eq}
use new_proxy.Packet.Bytes.{from_be_bytes, to_be_bytes, get_range, write}
use new_proxy.Dns.Name.{
  DnsError, truncated, non_standard_opcode, question_count, response_mismatch, not_query,
  parse_name, skip_name,
}

abbrev pub dns_payload_max : ℕ
dns_payload_max = 1232

pub record DnsQuestion : Type 0 where
  pub qname : List ℕ
  pub qtype : ℕ
  pub qclass : ℕ

unfoldable pub question_beq : DnsQuestion → DnsQuestion → Bool
question_beq a b = a.qname == b.qname && nat_beq a.qtype b.qtype && nat_beq a.qclass b.qclass

-- `payload.get(..12).ok_or(Truncated)?`
unfoldable pub header_of : List ℕ → Result DnsError (List ℕ)
header_of payload = ok_or (get_range payload 0 12) truncated

-- `a.saturating_add(b)` of two `u16`
abbrev pub saturating_add : ℕ → ℕ → ℕ
saturating_add a b = min 65535 (a + b)

-- `flags & 0x8000 != 0`
abbrev pub is_response : ℕ → Bool
is_response flags = nat_beq (flags / 0x8000 % 2) 1

-- `flags & 0x7800 != 0`
abbrev pub is_non_standard : ℕ → Bool
is_non_standard flags = not (nat_beq (flags / 0x800 % 16) 0)

unfoldable pub parse_question_fields : List ℕ → Result DnsError DnsQuestion
unfolding header_of
parse_question_fields payload = header_of payload >>= λ header.
    if not (nat_beq (from_be_bytes header 4) 1)
    then err question_count
    else (parse_name payload 12 >>= λ name.
        ok_or (get_range payload name.1 (name.1 + 4)) truncated >>= λ fields. ok (record {
          qname = name.0;
          qtype = from_be_bytes fields 0;
          qclass = from_be_bytes fields 2;
        }))

unfoldable pub parse_question : List ℕ → Result DnsError DnsQuestion
unfolding header_of
parse_question payload = header_of payload >>= λ header.
    let flags = from_be_bytes header 2 in
    if is_response flags
    then err not_query
    else if is_non_standard flags
    then err non_standard_opcode
    else parse_question_fields payload

unfoldable pub skip_resource_record : List ℕ → ℕ → Result DnsError ℕ
skip_resource_record payload start = skip_name payload start >>= λ offset.
    ok_or (get_range payload offset (offset + 10)) truncated >>= λ rr.
    let end = offset + 10 + from_be_bytes rr 8 in
    if leb end (length payload) then ok end else err truncated

-- A loop over so many records.
unfoldable pub skip_resource_records : ℕ → List ℕ → ℕ → Result DnsError ℕ
skip_resource_records zero payload offset = ok offset
skip_resource_records (suc n) payload offset =
    skip_resource_record payload offset >>= λ next. skip_resource_records n payload next

unfoldable pub validate_message : List ℕ → Bool → Result DnsError DnsQuestion
unfolding header_of
validate_message payload response = header_of payload >>= λ header.
    let flags = from_be_bytes header 2 in
    let records =
      saturating_add (saturating_add (from_be_bytes header 6) (from_be_bytes header 8))
        (from_be_bytes header 10) in
    if not (is_response flags) && response
    then err response_mismatch
    else if is_response flags && not response
    then err not_query
    else if is_non_standard flags
    then err non_standard_opcode
    else (parse_question_fields payload >>= λ question. skip_name payload 12 >>= λ name.
        skip_resource_records records payload (name + 4) >>= λ offset.
        if nat_beq offset (length payload) then ok question else err truncated)

abbrev pub validate_query : List ℕ → Result DnsError DnsQuestion
validate_query payload = validate_message payload false

unfoldable pub dns_id : List ℕ → Option ℕ
dns_id payload = elim (get_range payload 0 2) [
  | none ↦ none
  | some header ↦ some (from_be_bytes header 0)
]

-- `.map_err(|_| DnsError::ResponseMismatch)`
abbrev pub or_mismatch : Result DnsError DnsQuestion → Result DnsError DnsQuestion
or_mismatch (ok question) = ok question
or_mismatch (err _) = err response_mismatch

unfoldable pub response_matches_query : List ℕ → List ℕ → Result DnsError (Unit {0})
unfolding header_of question_beq
response_matches_query query response = ok_or (dns_id query) truncated >>= λ query_id.
    ok_or (dns_id response) truncated >>= λ response_id.
    if not (nat_beq response_id query_id)
    then err response_mismatch
    else (header_of response >>= λ header.
        let flags = from_be_bytes header 2 in
        if not (is_response flags) || is_non_standard flags
        then err response_mismatch
        else (or_mismatch (parse_question query) >>= λ query_question.
            or_mismatch (validate_message response true) >>= λ response_question.
            if question_beq response_question query_question then ok tt else err response_mismatch))

-- The loop over the questions in `clamp_edns_udp_payload`.
unfoldable pub skip_questions : ℕ → List ℕ → ℕ → Result DnsError ℕ
skip_questions zero payload offset = ok offset
skip_questions (suc n) payload offset = skip_name payload offset >>= λ name.
    if leb (name + 4) (length payload) then skip_questions n payload (name + 4) else err truncated

-- The EDNS record at an offset: whether it advertises too much, and the payload after the write.
unfoldable pub clamp_record : List ℕ → ℕ → List ℕ × Bool
clamp_record payload offset =
    if nat_beq (from_be_bytes payload offset) 41
      && ltb dns_payload_max (from_be_bytes payload (offset + 2))
    then (write payload (offset + 2) (to_be_bytes dns_payload_max), true)
    else (payload, false)

-- The loop over the additional records, which writes them: the payload, and where the loop ends
-- with whether it has clamped.
unfoldable pub clamp_records : ℕ → List ℕ → ℕ → Bool → List ℕ × Result DnsError (ℕ × Bool)
unfolding clamp_record
clamp_records zero payload offset clamped = (payload, ok (offset, clamped))
clamp_records (suc n) payload start clamped = elim (skip_name payload start) [
  | err e ↦ (payload, err e)
  | ok offset ↦ elim (get_range payload offset (offset + 10)) [
    | none ↦ (payload, err truncated)
    | some rr ↦
        let written = clamp_record payload offset in
        let end = offset + 10 + from_be_bytes rr 8 in
        elim (leb end (length written.0)) [
          | true ↦ clamp_records n written.0 end (clamped || written.1)
          | false ↦ (written.0, err truncated)
        ]
  ]
]

-- The walk to the additional records.
unfoldable pub additional_offset : List ℕ → List ℕ → Result DnsError ℕ
additional_offset header payload = skip_questions (from_be_bytes header 4) payload 12 >>= λ offset.
    skip_resource_records (saturating_add (from_be_bytes header 6) (from_be_bytes header 8)) payload
      offset

unfoldable pub clamp_edns_udp_payload : List ℕ → List ℕ × Result DnsError Bool
unfolding header_of additional_offset
clamp_edns_udp_payload payload = elim (header_of payload) [
  | err e ↦ (payload, err e)
  | ok header ↦ elim (additional_offset header payload) [
    | err e ↦ (payload, err e)
    | ok offset ↦
        let (written, outcome) = clamp_records (from_be_bytes header 10) payload offset false in
        elim outcome [
          | err e ↦ (written, err e)
          | ok (end, clamped) ↦
              if nat_beq end (length written)
              then (written, ok clamped)
              else (written, err truncated)
        ]
  ]
]
