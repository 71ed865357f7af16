-- ===== src/Packet/Laws/Reads.antt =====
-- src/flow_plane/packet.rs: reads of a message, of a part of it, and behind a write.
use new_proxy.Prelude.{
  ℕ, zero, suc, ◌+◌, ◌-◌, ◌≤◌, ◌<◌, ◌≡◌, some, List, [], ◌∷◌, take, drop, get_elem?, ◌∙◌, arith,
  refl, ap,
}
use new_proxy.Packet.Bytes.{byte, get_range, write}

pub get_elem?-byte : (p : List ℕ) (i b : ℕ) → get_elem? p i ≡ some b → byte p i ≡ b
get_elem?-byte [] i b h = absurd (ground arith)
get_elem?-byte (x ∷ p) zero b h = ground arith
get_elem?-byte (x ∷ p) (suc i) b h = get_elem?-byte p i b h

write-nothing : (p : List ℕ) → write p 0 [] ≡ p
unfolding write
write-nothing [] = refl
write-nothing (x ∷ p) = refl

pub byte-write-after :
    (p : List ℕ) (i j a b : ℕ) → i + 2 ≤ j → byte (write p i (a ∷ b ∷ [])) j ≡ byte p j
unfolding write
byte-write-after [] i j a b h = refl
byte-write-after (x ∷ p) (suc i) zero a b h = absurd (omega arith)
byte-write-after (x ∷ p) (suc i) (suc j) a b h = byte-write-after p i j a b (omega arith)
byte-write-after (x ∷ []) zero zero a b h = absurd (omega arith)
byte-write-after (x ∷ []) zero (suc j) a b h = refl
byte-write-after (x ∷ y ∷ p) zero zero a b h = absurd (omega arith)
byte-write-after (x ∷ y ∷ p) zero (suc zero) a b h = absurd (omega arith)
byte-write-after (x ∷ y ∷ p) zero (suc (suc j)) a b h = ap (λ t. byte t j) (write-nothing p)

byte-take : (n : ℕ) (p : List ℕ) (i : ℕ) → i < n → byte (take n p) i ≡ byte p i
byte-take zero p i h = absurd (omega arith)
byte-take (suc n) [] i h = refl
byte-take (suc n) (x ∷ p) zero h = refl
byte-take (suc n) (x ∷ p) (suc i) h = byte-take n p i (omega arith)

byte-drop : (n : ℕ) (p : List ℕ) (i j : ℕ) → n + i ≡ j → byte (drop n p) i ≡ byte p j
byte-drop zero p i j h = let same : i ≡ j = omega arith in ap (byte p) same
byte-drop (suc n) [] i j h = refl
byte-drop (suc n) (x ∷ p) i zero h = absurd (omega arith)
byte-drop (suc n) (x ∷ p) i (suc j) h = byte-drop n p i j (omega arith)

pub byte-get_range :
    (p r : List ℕ) (start end i j : ℕ)
    → get_range p start end ≡ some r
    → start + i ≡ j
    → j < end
    → byte r i ≡ byte p j
unfolding get_range
byte-get_range p r start end i j h at below =
    let cut : take (end - start) (drop start p) ≡ r = ground arith in
    rw (← cut) (byte-take (end - start) (drop start p) i (omega arith) ∙ byte-drop start p i j at)
