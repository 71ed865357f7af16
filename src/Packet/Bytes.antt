-- ===== src/Packet/Bytes.antt =====
-- src/flow_plane/packet.rs: how the functions read and write a packet, the list of its bytes. The
-- source indexes after a check of the length, so that what a read gives out of range is not used.
use new_proxy.Prelude.{
  ℕ, zero, suc, ◌+◌, ◌-◌, ◌*◌, ◌/◌, ◌%◌, ◌&&◌, Option, none, some, List, [], ◌∷◌, get_or, take,
  drop, length, leb, if◌then◌else◌,
}

-- `packet[i]`
abbrev pub byte : List ℕ → ℕ → ℕ
byte p i = get_or p i 0

-- `u16::from_be_bytes([packet[i], packet[i + 1]])`
abbrev pub from_be_bytes : List ℕ → ℕ → ℕ
from_be_bytes p i = byte p i * 256 + byte p (i + 1)

-- `value.to_be_bytes()` of a `u16`
abbrev pub to_be_bytes : ℕ → List ℕ
to_be_bytes value = value / 256 ∷ value % 256 ∷ []

-- `packet[start..end]`
abbrev pub slice : List ℕ → ℕ → ℕ → List ℕ
slice p start end = take (end - start) (drop start p)

-- `packet.get(start..end)`
unfoldable pub get_range : List ℕ → ℕ → ℕ → Option (List ℕ)
get_range p start end =
    if leb start end && leb end (length p) then some (slice p start end) else none

-- `packet[start..start + bytes.len()].copy_from_slice(bytes)`
unfoldable pub write : List ℕ → ℕ → List ℕ → List ℕ
write [] start bytes = []
write (x ∷ p) (suc start) bytes = x ∷ write p start bytes
write (x ∷ p) zero [] = x ∷ p
write (x ∷ p) zero (b ∷ bytes) = b ∷ write p zero bytes
