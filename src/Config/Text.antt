-- ===== src/Config/Text.antt =====
-- src/v1_config.rs: the operations of `str` that the configuration uses, on ASCII texts.
use Prim.Native.Char.{code}
use Prim.Native.String.{String}
use new_proxy.Prelude.{
  ℕ, ◌+◌, ◌-◌, ◌*◌, Bool, true, false, ◌&&◌, ◌||◌, Option, none, some, List, [], ◌∷◌, leb, ltb,
  nat_beq, if◌then◌else◌,
}

abbrev pub Text : Type 0
Text = List ℕ

abbrev pub codes : String → Text
codes String.[] = []
codes (String.◌∷◌ c s) = code c ∷ codes s

-- `char::is_whitespace`
unfoldable pub is_whitespace : ℕ → Bool
is_whitespace c = (leb 9 c && leb c 13) || nat_beq c 32

unfoldable pub trim_start : Text → Text
unfolding is_whitespace
trim_start [] = []
trim_start (c ∷ t) = let rest = trim_start t in if is_whitespace c then rest else c ∷ t

-- What stands before the whitespace at the end.
unfoldable pub trim_end : Text → Text
trim_end [] = []
trim_end (c ∷ t) = elim (trim_end t) [
  | [] ↦ if is_whitespace c then [] else c ∷ []
  | d ∷ rest ↦ c ∷ d ∷ rest
]

unfoldable pub trim : Text → Text
trim t = trim_start (trim_end t)

-- `contains(char::is_whitespace)`
unfoldable pub any_whitespace : Text → Bool
any_whitespace [] = false
any_whitespace (c ∷ t) = is_whitespace c || any_whitespace t

unfoldable pub contains_char : ℕ → Text → Bool
contains_char c [] = false
contains_char c (d ∷ t) = nat_beq c d || contains_char c t

-- `split(c)`: never empty.
unfoldable pub split_first : ℕ → Text → Text × List Text
split_first c [] = ([], [])
split_first c (d ∷ t) =
    let (first, rest) = split_first c t in
    if nat_beq c d then ([], first ∷ rest) else (d ∷ first, rest)

abbrev pub split : ℕ → Text → List Text
split c t = let (first, rest) = split_first c t in first ∷ rest

-- `text.lines()`: a line feed ends a line. The carriage return before it and the empty text behind
-- the last one stay; both users trim a line and pass over an empty one.
unfoldable pub lines : Text → List Text
unfolding split_first
lines t = split 10 t

-- `line.split(c).next().unwrap_or("")`
abbrev pub before : ℕ → Text → Text
before c t = (split_first c t).0

-- `split_once(c)`
unfoldable pub split_once : ℕ → Text → Option (Text × Text)
split_once c [] = none
split_once c (d ∷ t) =
    let rest : Option (Text × Text) = elim (split_once c t) [
      | none ↦ none
      | some (key, value) ↦ some (d ∷ key, value)
    ] in
    if nat_beq c d then some ([], t) else rest

unfoldable pub strip_prefix : Text → Text → Option Text
strip_prefix [] t = some t
strip_prefix (p ∷ prefix) [] = none
strip_prefix (p ∷ prefix) (c ∷ t) =
    let rest = strip_prefix prefix t in if nat_beq p c then rest else none

unfoldable pub starts_with : Text → Text → Bool
unfolding strip_prefix
starts_with prefix t = elim (strip_prefix prefix t) [ none ↦ false | some _ ↦ true ]

unfoldable pub last_char : Text → Option ℕ
last_char [] = none
last_char (c ∷ []) = some c
last_char (c ∷ d ∷ t) = last_char (d ∷ t)

-- The text without its last character.
unfoldable pub init : Text → Text
init [] = []
init (c ∷ []) = []
init (c ∷ d ∷ t) = c ∷ init (d ∷ t)

-- The value of a digit in the radix.
unfoldable pub digit : ℕ → ℕ → Option ℕ
digit radix c =
    if leb 48 c && leb c 57
    then below (c - 48)
    else if leb 97 c && leb c 122
    then below (c - 87)
    else if leb 65 c && leb c 90
    then below (c - 55)
    else none
  where
    below : ℕ → Option ℕ
    below d = if ltb d radix then some d else none

unfoldable pub digits_from : ℕ → ℕ → ℕ → Text → Option ℕ
unfolding digit
digits_from radix limit n [] = some n
digits_from radix limit n (c ∷ t) = elim (digit radix c) [
  | none ↦ none
  | some d ↦
      let m = n * radix + d in
      let rest = digits_from radix limit m t in if ltb m limit then rest else none
]

-- `from_str_radix` of an unsigned integer below `limit`: one plus sign may stand in front.
unfoldable pub from_str_radix : ℕ → ℕ → Text → Option ℕ
unfolding digits_from
from_str_radix radix limit [] = none
from_str_radix radix limit (c ∷ []) = digits_from radix limit 0 (c ∷ [])
from_str_radix radix limit (c ∷ d ∷ t) =
    if nat_beq c b'+'
    then digits_from radix limit 0 (d ∷ t)
    else digits_from radix limit 0 (c ∷ d ∷ t)
