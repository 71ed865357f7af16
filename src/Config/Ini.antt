-- ===== src/Config/Ini.antt =====
-- src/v1_config.rs: `parse_ini` and the names of the sections.
use new_proxy.Prelude.{
  ℕ, ◌+◌, Bool, true, false, not, ◌&&◌, ◌||◌, Option, none, some, List, [], ◌∷◌, length, nat_beq,
  nat_eq, leb, if◌then◌else◌, Result, ok, err, ◌==◌, ◌>>=◌,
}
use new_proxy.HashMap
use new_proxy.HashMap.{HashMap}
use new_proxy.Net.{list_eq}
use new_proxy.Config.Text.{
  Text, codes, trim, lines, before, split_once, strip_prefix, last_char, init,
}
use new_proxy.Config.Types.{ConfigError, syntax, unknown_section, unsupported_legacy_field}

abbrev pub Fields : Type 0
Fields = HashMap Text Text

abbrev pub Sections : Type 0
Sections = HashMap Text Fields

-- `line[1..line.len() - 1]` if the line has square brackets around it; a single bracket has not.
unfoldable pub bracketed : Text → Option Text
bracketed [] = none
bracketed (c ∷ line) =
    if nat_beq c 91 && elim (last_char line) [ none ↦ false | some d ↦ nat_beq d 93 ]
    then some (init line)
    else none

-- A line without its comment, trimmed.
abbrev pub content : Text → Text
content line = trim (before 35 (before 59 line))

-- `fields.insert(key, value)` in the current section, if the key is new.
unfoldable pub add_field : ℕ → Sections → Text → Fields → Text → Text → Result ConfigError Sections
add_field number sections name fields key value =
    if nat_beq (length key) 0 || HashMap.contains_key key fields
    then err (syntax number)
    else ok (HashMap.insert name (HashMap.insert key value fields) sections)

-- One line of the loop of `parse_ini`. The current section is in the map, as the source expects.
unfoldable pub parse_line :
    ℕ → Text → Sections → Option Text → Result ConfigError (Sections × Option Text)
unfolding bracketed add_field
parse_line number line sections current = elim (bracketed line) [
  | some inner ↦
      let name = trim inner in
      if nat_beq (length name) 0 || HashMap.contains_key name sections
      then err (syntax number)
      else ok (HashMap.insert name [] sections, some name)
  | none ↦ elim (split_once 61 line) [
    | none ↦ err (syntax number)
    | some (key, value) ↦ elim current [
      | none ↦ err (syntax number)
      | some name ↦ elim (HashMap.get name sections) [
        | none ↦ err (syntax number)
        | some fields ↦
            add_field number sections name fields (trim key) (trim value) >>= λ sections'.
            ok (sections', some name)
      ]
    ]
  ]
]

-- The loop of `parse_ini`; lines are counted from one.
unfoldable pub parse_lines : ℕ → List Text → Sections → Option Text → Result ConfigError Sections
unfolding parse_line
parse_lines number [] sections current = ok sections
parse_lines number (raw_line ∷ rest) sections current =
    let line = content raw_line in
    elim line [
      | [] ↦ parse_lines (number + 1) rest sections current
      | c ∷ cs ↦
          parse_line number (c ∷ cs) sections current >>= λ r. parse_lines (number + 1) rest r.0 r.1
    ]

unfoldable pub parse_ini : Text → Result ConfigError Sections
unfolding parse_lines
parse_ini text = parse_lines 1 (lines text) [] none

unfoldable pub all_digits : Text → Bool
all_digits [] = true
all_digits (c ∷ t) = leb 48 c && leb c 57 && all_digits t

-- The index behind `Intercept.`
unfoldable pub is_index : Text → Bool
unfolding all_digits
is_index [] = false
is_index (c ∷ t) = not (nat_beq c 48) && all_digits (c ∷ t)

unfoldable pub is_intercept_section : Text → Bool
unfolding is_index
is_intercept_section name =
    name == codes "Intercept"
    || elim (strip_prefix (codes "Intercept.") name) [ none ↦ false | some index ↦ is_index index ]

unfoldable pub mem_text : Text → List Text → Bool
mem_text t [] = false
mem_text t (u ∷ us) = u == t || mem_text t us

abbrev pub legacy_sections : List Text
legacy_sections = codes "Interface" ∷ codes "Peer" ∷ codes "QUICPool" ∷ []

abbrev pub known_sections : List Text
known_sections =
    codes "Appliance"
    ∷ codes "Tunnel"
    ∷ codes "NAT"
    ∷ codes "AllowedIPs"
    ∷ codes "DNS"
    ∷ codes "XDP"
    ∷ []

unfoldable pub reject_unknown_sections : Sections → Result ConfigError (Unit {0})
unfolding mem_text is_intercept_section
reject_unknown_sections [] = ok tt
reject_unknown_sections ((name, fields) ∷ sections) =
    let rest = reject_unknown_sections sections in
    if mem_text name legacy_sections
    then err (unsupported_legacy_field name (codes "*"))
    else if not (mem_text name known_sections) && not (is_intercept_section name)
    then err (unknown_section name)
    else rest
