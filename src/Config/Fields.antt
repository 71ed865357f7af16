-- ===== src/Config/Fields.antt =====
-- src/v1_config.rs: the fields of a section, and the values that need no file.
use new_proxy.Prelude.{
  ℕ, ◌^◌, ◌%◌, ◌/◌, Bool, true, false, not, ◌&&◌, ◌||◌, Option, none, some, List, [], ◌∷◌, length,
  nat_beq, nat_eq, ltb, if◌then◌else◌, Result, ok, err, ok_or, ◌==◌, ◌>>=◌,
}
use new_proxy.HashMap
use new_proxy.HashMap.{HashMap}
use new_proxy.Net.{list_eq, IpAddr, v4, v6}
use new_proxy.Config.Text.{Text, codes, trim, any_whitespace, split, split_first, from_str_radix}
use new_proxy.Config.Types.{
  ConfigError, missing_field, unknown_field, unsupported_legacy_field, invalid_interface,
  invalid_mac_address, invalid_integer, invalid_auto_reserve_ports, AutoReservePorts, no,
  MacAddress,
}
use new_proxy.Config.Ini.{Fields, Sections, mem_text}

unfoldable pub section : Sections → Text → Result ConfigError Fields
section sections name = ok_or (HashMap.get name sections) (missing_field name)

-- `matches!(field, "PrivateKey" | "PublicKey" | "WgListenPort" | "Mode" if section != "XDP")`
abbrev pub legacy_fields : List Text
legacy_fields = codes "PrivateKey" ∷ codes "PublicKey" ∷ codes "WgListenPort" ∷ codes "Mode" ∷ []

unfoldable pub validate_fields : Text → Fields → List Text → Result ConfigError (Unit {0})
unfolding mem_text
validate_fields name [] allowed = ok tt
validate_fields name ((field, value) ∷ fields) allowed =
    let rest = validate_fields name fields allowed in
    if mem_text field legacy_fields && not (name == codes "XDP")
    then err (unsupported_legacy_field name field)
    else if not (mem_text field allowed)
    then err (unknown_field name field)
    else rest

-- A value that is only whitespace is no value.
unfoldable pub optional : Fields → Text → Option Text
optional fields field = elim (HashMap.get field fields) [
  | none ↦ none
  | some value ↦ if nat_beq (length (trim value)) 0 then none else some value
]

unfoldable pub required : Fields → Text → Result ConfigError Text
unfolding optional
required fields field = ok_or (optional fields field) (missing_field field)

-- `parse_usize` and `parse_u16`, by the bound of the integer.
unfoldable pub parse_integer : ℕ → Fields → Text → Result ConfigError ℕ
unfolding required
parse_integer limit fields field =
    required fields field >>= λ value. ok_or (from_str_radix 10 limit value) (invalid_integer field)

-- `parse_optional_usize` and `parse_optional_u64`
unfoldable pub parse_optional_integer : Fields → Text → ℕ → Result ConfigError ℕ
unfolding optional
parse_optional_integer fields field default = elim (optional fields field) [
  | none ↦ ok default
  | some value ↦ ok_or (from_str_radix 10 (2 ^ 64) value) (invalid_integer field)
]

unfoldable pub parse_interface : Text → Result ConfigError Text
unfolding any_whitespace
parse_interface value =
    let name = trim value in
    if nat_beq (length name) 0 || ltb 15 (length name) || any_whitespace name
    then err (invalid_interface name)
    else ok name

-- The octets of a list of texts, if each is one.
unfoldable pub parse_octets : List Text → Option (List ℕ)
unfolding from_str_radix
parse_octets [] = some []
parse_octets (t ∷ ts) = elim (from_str_radix 16 256 t) [
  | none ↦ none
  | some octet ↦ elim (parse_octets ts) [ none ↦ none | some octets ↦ some (octet ∷ octets) ]
]

unfoldable pub all_zero : List ℕ → Bool
all_zero [] = true
all_zero (b ∷ bs) = nat_beq b 0 && all_zero bs

-- `octets[0] & 1 != 0`
abbrev pub is_group : List ℕ → Bool
is_group [] = false
is_group (b ∷ bs) = nat_beq (b % 2) 1

unfoldable pub parse_mac : Text → Result ConfigError MacAddress
unfolding parse_octets all_zero split_first
parse_mac value = elim (parse_octets (split 58 value)) [
  | none ↦ err (invalid_mac_address value)
  | some octets ↦
      if not (nat_beq (length octets) 6) || all_zero octets || is_group octets
      then err (invalid_mac_address value)
      else ok octets
]

unfoldable pub parse_auto_reserve_ports : Option Text → Result ConfigError AutoReservePorts
parse_auto_reserve_ports none = ok no
parse_auto_reserve_ports (some value) =
    if trim value == codes "no" then ok no else err invalid_auto_reserve_ports

-- The text in pairs, `value[index * 2..index * 2 + 2]`.
unfoldable pub pairs : Text → List Text
pairs [] = []
pairs (c ∷ []) = (c ∷ []) ∷ []
pairs (c ∷ d ∷ t) = (c ∷ d ∷ []) ∷ pairs t

unfoldable pub parse_hex_key : Text → Result ConfigError (List ℕ)
unfolding pairs parse_octets
parse_hex_key value =
    if not (nat_beq (length value) 64)
    then err (invalid_integer (codes "Appliance.SharedKey"))
    else ok_or (parse_octets (pairs value)) (invalid_integer (codes "Appliance.SharedKey"))

abbrev pub is_unspecified : IpAddr → Bool
is_unspecified (v4 octets) = all_zero octets
is_unspecified (v6 octets) = all_zero octets

-- `is_multicast` by the first octet
abbrev pub first_octet : List ℕ → ℕ
first_octet [] = 0
first_octet (b ∷ bs) = b

unfoldable pub all_ones : List ℕ → Bool
all_ones [] = true
all_ones (b ∷ bs) = nat_beq b 255 && all_ones bs

unfoldable pub is_usable_host_address : IpAddr → Bool
unfolding all_zero all_ones
is_usable_host_address (v4 octets) =
    not (all_zero octets) && not (nat_beq (first_octet octets / 16) 14) && not (all_ones octets)
is_usable_host_address (v6 octets) = not (all_zero octets) && not (nat_beq (first_octet octets) 255)
