-- ===== src/Dns/Laws/Places.antt =====
-- src/flow_plane/dns.rs: where the records of a message lie, read off it without any check.
use new_proxy.Prelude.{
  ℕ, zero, suc, ◌+◌, ◌/◌, ◌≤◌, ◌≡◌, Bool, true, false, ◌&&◌, List, [], ◌∷◌, get_elem?, arith, refl,
  nat_beq, ltb, if◌then◌else◌, ok, Result-cases, Option-cases, inl, inr,
}
use new_proxy.Packet.Bytes.{byte, from_be_bytes, write}
use new_proxy.Packet.Laws.Reads.{get_elem?-byte}
use new_proxy.Dns.Name.{skip_name_from, skip_name, name_rounds, validate_name_pointer}

-- Where a name ends, read off its length bytes without any check.
unfoldable pub name_end : ℕ → List ℕ → ℕ → ℕ
name_end zero p offset = offset
name_end (suc rounds) p offset =
    let rest = name_end rounds p (offset + 1 + byte p offset) in
    if nat_beq (byte p offset / 64) 3
    then offset + 2
    else if nat_beq (byte p offset) 0
    then offset + 1
    else rest

-- The record at a place, behind its name, is an OPT record with a size above 1232.
unfoldable pub is_oversized : List ℕ → ℕ → Bool
is_oversized p i = nat_beq (from_be_bytes p i) 41 && ltb 1232 (from_be_bytes p (i + 2))

-- The places of such records among so many, read off the message as it came without any check.
unfoldable pub oversized : ℕ → List ℕ → ℕ → List ℕ
oversized zero p start = []
oversized (suc n) p start =
    let i = name_end name_rounds p start in
    let rest = oversized n p (i + 10 + from_be_bytes p (i + 8)) in
    if is_oversized p i then i ∷ rest else rest

-- The message with the size 1232 at each place.
unfoldable pub with_sizes : List ℕ → List ℕ → List ℕ
with_sizes [] p = p
with_sizes (i ∷ is) p = with_sizes is (write p (i + 2) (4 ∷ 208 ∷ []))

abbrev pub has_any : List ℕ → Bool
has_any [] = false
has_any (i ∷ is) = true

-- Two messages are the same from a place on.
abbrev pub SameFrom : ℕ → List ℕ → List ℕ → Type 0
SameFrom start p q = (i : ℕ) → start ≤ i → byte p i ≡ byte q i

name_end-le : (rounds : ℕ) (p : List ℕ) (offset : ℕ) → offset ≤ name_end rounds p offset
unfolding name_end
name_end-le zero p offset = omega arith
name_end-le (suc rounds) p offset =
    ground (arith, name_end-le rounds p (offset + 1 + byte p offset))

name_end-same :
    (rounds : ℕ) (p q : List ℕ) (start offset : ℕ)
    → SameFrom start p q
    → start ≤ offset
    → name_end rounds p offset ≡ name_end rounds q offset
unfolding name_end
name_end-same zero p q start offset same h = refl
name_end-same (suc rounds) p q start offset same h =
    let here = same offset h in
    rw (here, name_end)
      (ground
        (arith, name_end-same rounds p q start (offset + 1 + byte q offset) same (omega arith)))

pub oversized-same :
    (n : ℕ) (p q : List ℕ) (start offset : ℕ)
    → SameFrom start p q
    → start ≤ offset
    → oversized n p offset ≡ oversized n q offset
unfolding oversized is_oversized
oversized-same zero p q start offset same h = refl
oversized-same (suc n) p q start offset same h =
    let i = name_end name_rounds q offset in
    let le = name_end-le name_rounds q offset in
    let name = name_end-same name_rounds p q start offset same h in
    let b0 = same i (omega arith) in
    let b1 = same (i + 1) (omega arith) in
    let b2 = same (i + 2) (omega arith) in
    let b3 = same (i + 2 + 1) (omega arith) in
    let b8 = same (i + 8) (omega arith) in
    let b9 = same (i + 8 + 1) (omega arith) in
    let rest = oversized-same n p q start (i + 10 + from_be_bytes q (i + 8)) same (omega arith) in
    rw (name, b0, b1, b2, b3, b8, b9, rest) refl

-- Where the checked walk over a name succeeds, it ends where the other does.
skip_name_from-name_end :
    (rounds : ℕ) (p : List ℕ) (start offset e : ℕ)
    → skip_name_from rounds p start offset ≡ ok e
    → name_end rounds p offset ≡ e
unfolding skip_name_from name_end
skip_name_from-name_end zero p start offset e h = absurd (ground arith)
skip_name_from-name_end (suc rounds) p start offset e h = elim (Option-cases (get_elem? p offset)) [
  | inl absent ↦ absurd (ground arith)
  | inr (b, there) ↦
      let read : byte p offset ≡ b = get_elem?-byte p offset b there in
      elim (Result-cases (validate_name_pointer p offset start)) [
        | inl (u, good) ↦ ground (arith, skip_name_from-name_end rounds p start (offset + 1 + b) e)
        | inr (x, bad) ↦ ground (arith, skip_name_from-name_end rounds p start (offset + 1 + b) e)
      ]
]

pub skip_name-name_end :
    (p : List ℕ) (start e : ℕ) → skip_name p start ≡ ok e → name_end name_rounds p start ≡ e
unfolding skip_name
skip_name-name_end p start e h = skip_name_from-name_end name_rounds p start start e h
