-- ===== src/Packet/Laws/Sum.antt =====
-- src/flow_plane/packet.rs: the Internet checksum of bytes into which it is written.
use new_proxy.Prelude.{
  ℕ, zero, suc, ◌+◌, ◌*◌, ◌/◌, ◌%◌, ◌^◌, ◌≤◌, ◌<◌, ◌≡◌, arith, List, [], ◌∷◌, length, nat_beq,
  Bool-cases, inl, inr,
}
use new_proxy.Packet.Bytes.{to_be_bytes, write}
use new_proxy.Packet.Checksum.{checksum_add, checksum_fold, checksum_finish}

-- A folded `u32` fits in 16 bits, differs from the sum by a multiple of 65535, and is zero for
-- zero alone.
pub fold_lem :
    (sum : ℕ)
    → sum < 2 ^ 32
    → (checksum_fold 2 sum < 65536)
      × (k : ℕ) × (sum ≡ checksum_fold 2 sum + k * 65535)
      × (0 < sum → 0 < checksum_fold 2 sum)
unfolding checksum_fold
fold_lem sum h = elim (Bool-cases (nat_beq (sum / 65536) 0)) [
  | inl small ↦ rw (small, checksum_fold) (ground arith, 0, ground arith, λ p. p)
  | inr large ↦
      let once = sum % 65536 + sum / 65536 in
      elim (Bool-cases (nat_beq (once / 65536) 0)) [
        | inl small ↦
            rw (large, checksum_fold, small)
              (ground arith, sum / 65536, omega arith, λ p. omega arith)
        | inr again ↦
            rw (large, checksum_fold, again)
              (ground arith, sum / 65536 + once / 65536, omega arith, λ p. omega arith)
      ]
]

-- A sum and its own checksum add up to a sum whose checksum is zero.
pub finish_lem : (sum : ℕ) → sum + 65535 < 2 ^ 32 → checksum_finish (sum + checksum_finish sum) ≡ 0
unfolding checksum_finish
finish_lem sum h =
    let (small, k, e, z) = fold_lem sum (omega arith) in
    let (small', k', e', z') = fold_lem (sum + checksum_finish sum) (omega arith) in
    omega (arith, small, e, small', e', z' (omega (arith, small, e)))

pub checksum_finish-le : (sum : ℕ) → checksum_finish sum ≤ 65535
unfolding checksum_finish
checksum_finish-le sum = omega arith

-- What a sum starts from is added to it.
pub checksum_add_lem :
    (sum : ℕ) (bytes : List ℕ) → checksum_add sum bytes ≡ sum + checksum_add 0 bytes
unfolding checksum_add
checksum_add_lem sum [] = omega arith
checksum_add_lem sum (b ∷ []) = omega arith
checksum_add_lem sum (a ∷ b ∷ bytes) =
    let whole : checksum_add sum (a ∷ b ∷ bytes) ≡ sum + (a * 256 + b) + checksum_add 0 bytes =
      checksum_add_lem (sum + (a * 256 + b)) bytes in
    let from_zero : checksum_add 0 (a ∷ b ∷ bytes) ≡ 0 + (a * 256 + b) + checksum_add 0 bytes =
      checksum_add_lem (0 + (a * 256 + b)) bytes in
    omega (arith, whole, from_zero)

pub checksum_add-pair :
    (a b : ℕ) (bytes : List ℕ) → checksum_add 0 (a ∷ b ∷ bytes) ≡ a * 256 + b + checksum_add 0 bytes
unfolding checksum_add
checksum_add-pair a b bytes =
    let from_zero : checksum_add 0 (a ∷ b ∷ bytes) ≡ 0 + (a * 256 + b) + checksum_add 0 bytes =
      checksum_add_lem (0 + (a * 256 + b)) bytes in
    omega (arith, from_zero)

-- The even places of a packet.
abbrev pub twice : ℕ → ℕ
twice zero = zero
twice (suc n) = suc (suc (twice n))

-- A `u16` written over two bytes at an even place is added to the sum.
pub checksum_add-write :
    (n : ℕ) (bytes : List ℕ) (value : ℕ)
    → twice n + 2 ≤ length bytes
    → checksum_add 0 (write bytes (twice n) (to_be_bytes value))
      ≡ checksum_add 0 (write bytes (twice n) (0 ∷ 0 ∷ [])) + value
unfolding write
checksum_add-write n [] value h = absurd (omega arith)
checksum_add-write n (a ∷ []) value h = absurd (omega arith)
checksum_add-write zero (a ∷ b ∷ []) value h =
    omega (arith, checksum_add-pair (value / 256) (value % 256) [], checksum_add-pair 0 0 [])
checksum_add-write zero (a ∷ b ∷ c ∷ bytes) value h = omega (
  arith,
  checksum_add-pair (value / 256) (value % 256) (c ∷ bytes),
  checksum_add-pair 0 0 (c ∷ bytes),
)
checksum_add-write (suc n) (a ∷ b ∷ bytes) value h = omega (
  arith,
  checksum_add-pair a b (write bytes (twice n) (to_be_bytes value)),
  checksum_add-pair a b (write bytes (twice n) (0 ∷ 0 ∷ [])),
  checksum_add-write n bytes value (omega arith),
)

-- The bytes of a packet.
abbrev pub AreBytes : List ℕ → Type 0
AreBytes [] = Unit {0}
AreBytes (b ∷ bytes) = (b < 256) × AreBytes bytes

-- A sum of bytes is far from the wrap-around of a `u32`.
pub checksum_add-le :
    (bytes : List ℕ) → AreBytes bytes → checksum_add 0 bytes ≤ 65535 * length bytes
unfolding checksum_add
checksum_add-le [] h = omega arith
checksum_add-le (b ∷ []) h = omega (arith, h.0)
checksum_add-le (a ∷ b ∷ bytes) h =
    omega (arith, h.0, h.1.0, checksum_add-pair a b bytes, checksum_add-le bytes h.1.1)
