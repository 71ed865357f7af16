-- ===== src/Packet/Laws/Writes.antt =====
-- src/flow_plane/packet.rs: how writes into a packet meet reads of it.
use new_proxy.Prelude.{ℕ, zero, suc, ◌<◌, ◌≡◌, refl, ap, arith, List, [], ◌∷◌, length, take, set}
use new_proxy.Packet.Bytes.{byte, write}
use new_proxy.Packet.Laws.Sum.{AreBytes}

pub length-write : (p : List ℕ) (i : ℕ) (bytes : List ℕ) → length (write p i bytes) ≡ length p
unfolding write
length-write [] i bytes = refl
length-write (x ∷ p) (suc i) bytes = ap suc (length-write p i bytes)
length-write (x ∷ p) zero [] = refl
length-write (x ∷ p) zero (b ∷ bytes) = ap suc (length-write p zero bytes)

pub take-write :
    (n : ℕ) (p : List ℕ) (i : ℕ) (bytes : List ℕ)
    → take n (write p i bytes) ≡ write (take n p) i bytes
unfolding write
take-write zero p i bytes = refl
take-write (suc n) [] i bytes = refl
take-write (suc n) (x ∷ p) (suc i) bytes = ap (λ q. x ∷ q) (take-write n p i bytes)
take-write (suc n) (x ∷ p) zero [] = refl
take-write (suc n) (x ∷ p) zero (b ∷ bytes) = ap (λ q. b ∷ q) (take-write n p zero bytes)

-- The later of two writes of two bytes stays.
pub write-write :
    (p : List ℕ) (i a b c d : ℕ)
    → write (write p i (a ∷ b ∷ [])) i (c ∷ d ∷ []) ≡ write p i (c ∷ d ∷ [])
unfolding write
write-write [] i a b c d = refl
write-write (x ∷ p) (suc i) a b c d = ap (λ q. x ∷ q) (write-write p i a b c d)
write-write (x ∷ []) zero a b c d = refl
write-write (x ∷ y ∷ []) zero a b c d = refl
write-write (x ∷ y ∷ z ∷ p) zero a b c d = refl

-- A read below the place of a write.
pub byte-write :
    (p : List ℕ) (i j : ℕ) (bytes : List ℕ) → j < i → byte (write p i bytes) j ≡ byte p j
unfolding write
byte-write [] i j bytes h = refl
byte-write (x ∷ p) zero j bytes h = absurd (omega arith)
byte-write (x ∷ p) (suc i) zero bytes h = refl
byte-write (x ∷ p) (suc i) (suc j) bytes h = byte-write p i j bytes (omega arith)

pub byte-set : (p : List ℕ) (i v : ℕ) → i < length p → byte (set p i v) i ≡ v
byte-set [] i v h = absurd (omega arith)
byte-set (x ∷ p) zero v h = refl
byte-set (x ∷ p) (suc i) v h = byte-set p i v (omega arith)

pub AreBytes-write :
    (p : List ℕ) (i : ℕ) (bytes : List ℕ) → AreBytes p → AreBytes bytes → AreBytes (write p i bytes)
unfolding write
AreBytes-write [] i bytes h k = h
AreBytes-write (x ∷ p) (suc i) bytes h k = (h.0, AreBytes-write p i bytes h.1 k)
AreBytes-write (x ∷ p) zero [] h k = h
AreBytes-write (x ∷ p) zero (b ∷ bytes) h k = (k.0, AreBytes-write p zero bytes h.1 k.1)

pub AreBytes-take : (n : ℕ) (p : List ℕ) → AreBytes p → AreBytes (take n p)
AreBytes-take zero p h = tt
AreBytes-take (suc n) [] h = tt
AreBytes-take (suc n) (x ∷ p) h = (h.0, AreBytes-take n p h.1)

pub AreBytes-set : (p : List ℕ) (i v : ℕ) → AreBytes p → v < 256 → AreBytes (set p i v)
AreBytes-set [] i v h k = h
AreBytes-set (x ∷ p) zero v h k = (k, h.1)
AreBytes-set (x ∷ p) (suc i) v h k = (h.0, AreBytes-set p i v h.1 k)

pub AreBytes-byte : (p : List ℕ) (i : ℕ) → AreBytes p → byte p i < 256
AreBytes-byte [] i h = omega arith
AreBytes-byte (x ∷ p) zero h = h.0
AreBytes-byte (x ∷ p) (suc i) h = AreBytes-byte p i h.1
