-- ===== src/Dns/Name.antt =====
-- src/flow_plane/dns.rs: domain names in DNS messages. A text is the list of its bytes.
use new_proxy.Prelude.{
  ℕ, zero, suc, ◌+◌, ◌*◌, ◌/◌, ◌%◌, Bool, true, false, not, ◌&&◌, ◌||◌, Option, none, some, List,
  [], ◌∷◌, ◌++◌, map, length, get_elem?, mem, ltb, leb, nat_beq, if◌then◌else◌, Result, ok, err,
  ◌>>=◌, ok_or, nat_eq,
}
use new_proxy.Net.{list_eq}
use new_proxy.Packet.Bytes.{byte, get_range}

pub data DnsError : Type 0 where
  truncated non_standard_opcode question_count malformed_name : DnsError
  capacity_exhausted nat_port_exhausted invalid_port_range : DnsError
  response_mismatch not_query : DnsError

-- `byte.is_ascii_alphanumeric()`
unfoldable pub is_alphanumeric : ℕ → Bool
is_alphanumeric b =
    (leb b'0' b && leb b b'9') || (leb b'a' b && leb b b'z') || (leb b'A' b && leb b b'Z')

unfoldable pub all_label_bytes : List ℕ → Bool
unfolding is_alphanumeric
all_label_bytes [] = true
all_label_bytes (b ∷ label) = (is_alphanumeric b || nat_beq b b'-') && all_label_bytes label

unfoldable pub ends_with_dash : List ℕ → Bool
ends_with_dash [] = false
ends_with_dash (b ∷ []) = nat_beq b b'-'
ends_with_dash (b ∷ c ∷ label) = ends_with_dash (c ∷ label)

unfoldable pub starts_with_dash : List ℕ → Bool
starts_with_dash [] = false
starts_with_dash (b ∷ label) = nat_beq b b'-'

unfoldable pub is_label : List ℕ → Bool
unfolding all_label_bytes ends_with_dash starts_with_dash
is_label label =
    not (nat_beq (length label) 0)
    && not (starts_with_dash label)
    && not (ends_with_dash label)
    && all_label_bytes label

unfoldable pub to_ascii_lowercase : ℕ → ℕ
to_ascii_lowercase b = if leb b'A' b && leb b b'Z' then b + 32 else b

-- The bytes of a label are ASCII, so that `from_utf8` does not fail.
unfoldable pub normalize_label : List ℕ → Result DnsError (List ℕ)
unfolding is_label to_ascii_lowercase
normalize_label label =
    if is_label label then ok (map to_ascii_lowercase label) else err malformed_name

-- `labels.join(".")`
unfoldable pub join : List (List ℕ) → List ℕ
join [] = []
join (label ∷ []) = label
join (label ∷ next ∷ labels) = label ++ b'.' ∷ join (next ∷ labels)

-- The two top bits of a length byte, which tell a pointer (3) from a label (0).
abbrev pub tag : ℕ → ℕ
tag b = b / 64

-- `(usize::from(first & 0x3f) << 8) | usize::from(next)`
abbrev pub pointer_of : ℕ → ℕ → ℕ
pointer_of first next = first % 64 * 256 + next

abbrev pub unwrap_or : Option ℕ → ℕ → ℕ
unwrap_or none d = d
unwrap_or (some n) d = n

-- `parse_name`; the first argument counts the rounds of its `for` loop.
unfoldable pub parse_name_from :
    ℕ → List ℕ → List (List ℕ) → Option ℕ → List ℕ → ℕ → Result DnsError (List ℕ × ℕ)
parse_name_from zero payload labels next_offset seen offset = err malformed_name
parse_name_from (suc rounds) payload labels next_offset seen offset =
    if mem offset seen
    then err malformed_name
    else (ok_or (get_elem? payload offset) truncated >>= λ len.
        let start = offset + 1 in
        if nat_beq (tag len) 3
        then (ok_or (get_elem? payload start) truncated >>= λ next.
            let pointer = pointer_of len next in
            if leb (length payload) pointer
            then err malformed_name
            else parse_name_from rounds payload labels (some (unwrap_or next_offset (offset + 2)))
                (offset ∷ seen) pointer)
        else if not (nat_beq (tag len) 0)
        then err malformed_name
        else if nat_beq len 0
        then (if nat_beq (length labels) 0
            then err malformed_name
            else ok (join labels, unwrap_or next_offset start))
        else if ltb 63 len
        then err malformed_name
        else (ok_or (get_range payload start (start + len)) truncated >>= λ bytes.
            normalize_label bytes >>= λ label.
            parse_name_from rounds payload (labels ++ label ∷ []) next_offset (offset ∷ seen)
              (start + len)))

-- The `for _ in 0..128` of both walks.
abbrev pub name_rounds : ℕ
name_rounds = 128

unfoldable pub parse_name : List ℕ → ℕ → Result DnsError (List ℕ × ℕ)
parse_name payload offset = parse_name_from name_rounds payload [] none [] offset

unfoldable pub validate_name_pointer : List ℕ → ℕ → ℕ → Result DnsError (Unit {0})
validate_name_pointer payload offset owner_start =
    ok_or (get_elem? payload (offset + 1)) truncated >>= λ next.
    let pointer = pointer_of (byte payload offset) next in
    if leb owner_start pointer
    then err malformed_name
    else (parse_name payload pointer >>= λ _. ok tt)

-- `skip_name`; the first argument counts the rounds of its `for` loop.
unfoldable pub skip_name_from : ℕ → List ℕ → ℕ → ℕ → Result DnsError ℕ
skip_name_from zero payload start offset = err malformed_name
skip_name_from (suc rounds) payload start offset =
    ok_or (get_elem? payload offset) truncated >>= λ len.
    if nat_beq (tag len) 3
    then (validate_name_pointer payload offset start >>= λ _. ok (offset + 2))
    else if not (nat_beq (tag len) 0)
    then err malformed_name
    else if nat_beq len 0
    then ok (offset + 1)
    else if leb (offset + 1 + len) (length payload)
    then skip_name_from rounds payload start (offset + 1 + len)
    else err truncated

unfoldable pub skip_name : List ℕ → ℕ → Result DnsError ℕ
skip_name payload offset = skip_name_from name_rounds payload offset offset
