-- ===== src/Packet/Laws/Hop.antt =====
-- src/flow_plane/packet.rs: `prepare_forwarded_packet`.
use new_proxy.Prelude.{
  ℕ, ◌+◌, ◌-◌, ◌*◌, ◌/◌, ◌%◌, ◌≤◌, ◌<◌, ◌≡◌, sym, ap, ◌∙◌, arith, List, [], ◌∷◌, length, take, set,
  ok, err, inl, inr, Result-cases, length-take, length-set,
}
use new_proxy.Packet.Bytes.{byte, to_be_bytes, write}
use new_proxy.Packet.Header.{PacketError, version_of}
use new_proxy.Packet.Checksum.{checksum_add, checksum_finish, internet_checksum}
use new_proxy.Packet.Rewrite.{write_header_checksum}
use new_proxy.Packet.Forward.{take_hop, check_forwarded, prepare_forwarded_packet}
use new_proxy.Packet.Laws.Sum.{AreBytes, finish_lem, checksum_add-le, checksum_add-write}
use new_proxy.Packet.Laws.Writes.{
  length-write, take-write, write-write, byte-write, byte-set, AreBytes-write, AreBytes-take,
  AreBytes-set, AreBytes-byte,
}

-- Bytes in which the checksum field is clear get a checksum that is right.
clear_checksum :
    (bytes : List ℕ)
    → AreBytes bytes
    → 12 ≤ length bytes
    → length bytes ≤ 60
    → write bytes 10 (0 ∷ 0 ∷ []) ≡ bytes
    → internet_checksum (write bytes 10 (to_be_bytes (internet_checksum bytes))) ≡ 0
unfolding internet_checksum
clear_checksum bytes all long short clear =
    rw (checksum_add-write 5 bytes (checksum_finish (checksum_add 0 bytes)) long, clear)
      (finish_lem (checksum_add 0 bytes) (omega (arith, checksum_add-le bytes all)))

-- The header that `write_header_checksum` leaves sums to zero.
pub write_header_checksum_lem :
    (p : List ℕ) (header_len : ℕ)
    → AreBytes p
    → 12 ≤ header_len
    → header_len ≤ 60
    → header_len ≤ length p
    → internet_checksum (take header_len (write_header_checksum p header_len)) ≡ 0
unfolding write_header_checksum
write_header_checksum_lem p n all long short fits =
    let cleared = write p 10 (0 ∷ 0 ∷ []) in
    let same : write (take n cleared) 10 (0 ∷ 0 ∷ []) ≡ take n cleared =
      sym (take-write n cleared 10 (0 ∷ 0 ∷ [])) ∙ ap (take n) (write-write p 10 0 0 0 0) in
    let len : length (take n cleared) ≡ n =
      omega (arith, length-take n cleared, length-write p 10 (0 ∷ 0 ∷ [])) in
    rw (take-write n cleared 10 (to_be_bytes (internet_checksum (take n cleared)))) (
      clear_checksum (take n cleared)
        (AreBytes-take n cleared
          (AreBytes-write p 10 (0 ∷ 0 ∷ []) all (omega arith, (omega arith, tt))))
        (omega (arith, len)) (omega (arith, len)) same)

check_forwarded-version_of : (p : List ℕ) (v : ℕ) → check_forwarded p ≡ ok v → version_of p ≡ ok v
unfolding check_forwarded
check_forwarded-version_of p v h = ground arith

-- What is known where an IPv4 packet passes.
passed_ipv4 :
    (p : List ℕ)
    → (take_hop p 4).1 ≡ ok tt
    → (20 ≤ byte p 0 % 16 * 4)
      × (byte p 0 % 16 * 4 ≤ length p)
      × (1 < byte p 8)
      × ((take_hop p 4).0 ≡ write_header_checksum (set p 8 (byte p 8 - 1)) (byte p 0 % 16 * 4))
unfolding take_hop
passed_ipv4 p h = ground arith

byte-write_header_checksum : (p : List ℕ) (n : ℕ) → byte (write_header_checksum p n) 8 ≡ byte p 8
unfolding write_header_checksum
byte-write_header_checksum p n =
    byte-write (write p 10 (0 ∷ 0 ∷ [])) 10 8 _ (omega arith)
    ∙ byte-write p 10 8 (0 ∷ 0 ∷ []) (omega arith)

length-write_header_checksum : (p : List ℕ) (n : ℕ) → length (write_header_checksum p n) ≡ length p
unfolding write_header_checksum
length-write_header_checksum p n =
    length-write (write p 10 (0 ∷ 0 ∷ [])) 10 _ ∙ length-write p 10 (0 ∷ 0 ∷ [])

take_hop-ipv4 :
    (p : List ℕ)
    → AreBytes p
    → (take_hop p 4).1 ≡ ok tt
    → (internet_checksum (take (byte p 0 % 16 * 4) (take_hop p 4).0) ≡ 0)
      × (byte (take_hop p 4).0 8 + 1 ≡ byte p 8)
      × (1 ≤ byte (take_hop p 4).0 8)
      × (length (take_hop p 4).0 ≡ length p)
take_hop-ipv4 p all h =
    let n = byte p 0 % 16 * 4 in
    let (long, fits, hops, state) = passed_ipv4 p h in
    let q = set p 8 (byte p 8 - 1) in
    let len : length q ≡ length p = length-set p 8 (byte p 8 - 1) in
    let left : byte (write_header_checksum q n) 8 ≡ byte p 8 - 1 =
      byte-write_header_checksum q n ∙ byte-set p 8 (byte p 8 - 1) (omega (arith, long, fits)) in
    rw state (
      write_header_checksum_lem q n
          (AreBytes-set p 8 (byte p 8 - 1) all (omega (arith, AreBytes-byte p 8 all)))
          (omega (arith, long)) (omega arith) (omega (arith, fits, len)),
      omega (arith, left, hops),
      omega (arith, left, hops),
      length-write_header_checksum q n ∙ len,
    )

prepared :
    (p : List ℕ)
    → (prepare_forwarded_packet p).1 ≡ ok tt
    → byte p 0 / 16 ≡ 4
    → prepare_forwarded_packet p ≡ take_hop p 4
unfolding prepare_forwarded_packet version_of
prepared p h four = elim (Result-cases (check_forwarded p)) [
  | inr (e, failed) ↦ absurd (ground arith)
  | inl (v, passed) ↦ ground (arith, check_forwarded-version_of p v passed)
]

-- An IPv4 packet of bytes that passes `prepare_forwarded_packet` leaves it with a header that sums
-- to zero, a time to live that is one less and not zero, and its length.
pub prepare_forwarded_packet-ipv4 :
    (p : List ℕ)
    → AreBytes p
    → byte p 0 / 16 ≡ 4
    → (prepare_forwarded_packet p).1 ≡ ok tt
    → (internet_checksum (take (byte p 0 % 16 * 4) (prepare_forwarded_packet p).0) ≡ 0)
      × (byte (prepare_forwarded_packet p).0 8 + 1 ≡ byte p 8)
      × (1 ≤ byte (prepare_forwarded_packet p).0 8)
      × (length (prepare_forwarded_packet p).0 ≡ length p)
prepare_forwarded_packet-ipv4 p all four h =
    let same = prepared p h four in rw same (take_hop-ipv4 p all (rw same at h))

-- A packet that `prepare_forwarded_packet` refuses, for whatever reason, is left as it was.
pub prepare_forwarded_packet-err :
    (p : List ℕ) (e : PacketError)
    → (prepare_forwarded_packet p).1 ≡ err e
    → (prepare_forwarded_packet p).0 ≡ p
unfolding prepare_forwarded_packet take_hop
prepare_forwarded_packet-err p e h = ground arith
