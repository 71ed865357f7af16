-- ===== src/Packet/Laws/Loops.antt =====
-- src/flow_plane/packet.rs: the rounds of the loops that fold a checksum and that walk TCP options.
use new_proxy.Prelude.{
  ℕ, zero, suc, ◌+◌, ◌-◌, ◌*◌, ◌≤◌, ◌<◌, ◌≡◌, ◌^◌, ◌/◌, ◌%◌, refl, arith, List, Bool, true, is_some,
}
use new_proxy.Packet.Bytes.{byte}
use new_proxy.Packet.Checksum.{checksum_fold}
use new_proxy.Packet.Tcp.{clamp_option, clamp_options, max_options}

checksum_fold-small : (n sum : ℕ) → sum < 65536 → checksum_fold n sum ≡ sum
unfolding checksum_fold
checksum_fold-small zero sum h = refl
checksum_fold-small (suc n) sum h = ground arith

-- Two rounds fold a `u32`: any larger number of rounds gives the same.
pub checksum_fold-enough :
    (n sum : ℕ) → sum < 2 ^ 32 → checksum_fold (suc (suc n)) sum ≡ checksum_fold 2 sum
unfolding checksum_fold
checksum_fold-enough n sum h =
    let once = sum % 65536 + sum / 65536 in
    ground (arith, checksum_fold-small n (once % 65536 + once / 65536) (omega arith))

-- The loop over TCP options ends within as many rounds as there are bytes left: with any two
-- numbers of rounds that are that large it ends, and with the same result.
pub clamp_options-enough :
    (n m max_mss opt_offset opt_end : ℕ) (state : List ℕ × Bool)
    → opt_end - opt_offset ≤ n
    → opt_end - opt_offset ≤ m
    → (is_some (clamp_options n max_mss opt_offset opt_end state) ≡ true)
      × (clamp_options n max_mss opt_offset opt_end state
          ≡ clamp_options m max_mss opt_offset opt_end state)
unfolding clamp_options
clamp_options-enough zero zero max_mss i end state h k = ground arith
clamp_options-enough zero (suc m) max_mss i end state h k = ground arith
clamp_options-enough (suc n) zero max_mss i end state h k = ground arith
clamp_options-enough (suc n) (suc m) max_mss i end state h k =
    let p = state.0 in
    let len = byte p (i + 1) in
    ground (
      arith,
      λ (le : end - (i + 1) ≤ n). clamp_options-enough n m max_mss (i + 1) end state le,
      λ (le : end - (i + len) ≤ n).
          clamp_options-enough n m max_mss (i + len) end (clamp_option max_mss p i len state) le,
    )

-- `clamp_tcp_mss` reads the length of the header off a byte, so that its rounds are enough.
pub options_end :
    (max_mss transport_offset b : ℕ) (state : List ℕ × Bool)
    → b < 256
    → is_some (
        clamp_options max_options max_mss
          (transport_offset + 20)
          (transport_offset + b / 16 * 4)
          state)
      ≡ true
options_end max_mss t b state h =
    (clamp_options-enough max_options max_options max_mss (t + 20) (t + b / 16 * 4) state
      (omega arith) (omega arith)).0
