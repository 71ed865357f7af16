-- ===== src/Config/Domains.antt =====
-- src/v1_config.rs: the file of remote domains.
use new_proxy.Prelude.{
  ℕ, ◌+◌, ◌*◌, Bool, true, not, ◌&&◌, ◌||◌, none, some, List, [], ◌∷◌, ◌++◌, length, map, nat_beq,
  nat_eq, ltb, if◌then◌else◌, Result, ok, err, ok_or, ◌>>=◌,
}
use new_proxy.Dns.Name.{is_label, to_ascii_lowercase}
use new_proxy.Config.Text.{Text, codes, trim, before, contains_char, split, last_char, init, lines}
use new_proxy.Config.Types.{
  ConfigError, invalid_remote_domain, duplicate_remote_domain, remote_domain_capacity,
  remote_domain_file_too_large, invalid_dns, Host,
}
use new_proxy.Config.Ini.{mem_text}

abbrev pub remote_domain_rule_capacity : ℕ
remote_domain_rule_capacity = 65536

abbrev pub remote_domain_file_max_bytes : ℕ
remote_domain_file_max_bytes = 4 * 1024 * 1024

-- `value.strip_suffix('.').unwrap_or(value)`
unfoldable pub without_dot : Text → Text
without_dot t = elim (last_char t) [ none ↦ t | some c ↦ if nat_beq c b'.' then init t else t ]

-- Every label is not too long, and is one of a DNS name.
unfoldable pub all_labels : List Text → Bool
all_labels [] = true
all_labels (label ∷ labels) = not (ltb 63 (length label)) && is_label label && all_labels labels

unfoldable pub is_domain : Text → Bool
unfolding all_labels
is_domain value =
    not (nat_beq (length value) 0 || ltb 253 (length value) || contains_char 42 value)
    && all_labels (split b'.' value)

unfoldable pub normalize_domain : Text → Result ConfigError Text
unfolding is_domain without_dot
normalize_domain value =
    let domain = map to_ascii_lowercase (without_dot (trim value)) in
    if is_domain domain then ok domain else err (invalid_remote_domain domain)

-- The rest of the loop of `parse_remote_domain_lines`; `domains` are those that have been seen.
unfoldable pub add_domains : List Text → List Text → Result ConfigError (List Text)
unfolding normalize_domain mem_text
add_domains domains [] = ok domains
add_domains domains (line ∷ rest) =
    let value = trim (before 35 line) in
    elim value [
      | [] ↦ add_domains domains rest
      | c ∷ cs ↦ elim (normalize_domain (c ∷ cs)) [
        | err e ↦ err e
        | ok domain ↦
            let added = add_domains (domains ++ domain ∷ []) rest in
            if mem_text domain domains
            then err (duplicate_remote_domain domain)
            else if ltb remote_domain_rule_capacity (length domains + 1)
            then err (remote_domain_capacity remote_domain_rule_capacity)
            else added
      ]
    ]

unfoldable pub parse_remote_domain_lines : List Text → Result ConfigError (List Text)
unfolding add_domains
parse_remote_domain_lines ts = elim (add_domains [] ts) [
  | err e ↦ err e
  | ok [] ↦ err (invalid_remote_domain (codes "RemoteDomainsFile must not be empty"))
  | ok (domain ∷ domains) ↦ ok (domain ∷ domains)
]

unfoldable pub load_remote_domains : Host → Text → Result ConfigError (List Text)
unfolding parse_remote_domain_lines lines
load_remote_domains host path =
    let unreadable = invalid_dns (codes "failed to read RemoteDomainsFile") in
    ok_or (host.file_size path) unreadable >>= λ size.
    if ltb remote_domain_file_max_bytes size
    then err (remote_domain_file_too_large remote_domain_file_max_bytes)
    else ok_or (host.read_to_string path) unreadable >>= λ text.
        parse_remote_domain_lines (lines text)
