-- ===== src/Dns/Laws/Clamp.antt =====
-- src/flow_plane/dns.rs: what `clamp_edns_udp_payload` writes, against a walk over the message as it came.
use new_proxy.Prelude.{
  ℕ, zero, suc, ◌+◌, ◌≡◌, Bool, true, false, ◌||◌, List, [], ◌∷◌, length, ◌∙◌, arith, refl, ap,
  nat_beq, leb, ok, Result-cases, Bool-cases, Option-cases, inl, inr,
}
use new_proxy.Packet.Bytes.{from_be_bytes, get_range, write}
use new_proxy.Packet.Laws.Reads.{byte-write-after, byte-get_range}
use new_proxy.Dns.Name.{skip_name, name_rounds}
use new_proxy.Dns.Message.{
  clamp_record, clamp_records, header_of, additional_offset, clamp_edns_udp_payload,
}
use new_proxy.Dns.Laws.Places.{
  name_end, is_oversized, oversized, oversized-same, with_sizes, has_any, skip_name-name_end,
}

clamp_record-oversized :
    (p : List ℕ) (i : ℕ)
    → (is_oversized p i ≡ true → clamp_record p i ≡ (write p (i + 2) (4 ∷ 208 ∷ []), true))
      × (is_oversized p i ≡ false → clamp_record p i ≡ (p, false))
unfolding clamp_record is_oversized
clamp_record-oversized p i = (λ h. rw h refl, λ h. rw h refl)

or_assoc : (a b c : Bool) → ((a || b) || c) ≡ (a || (b || c))
or_assoc a b c = ground arith

-- One round: the rest of the walk over the message as it came is that over the message written.
oversized_round :
    (n : ℕ) (p : List ℕ) (start i end : ℕ)
    → name_end name_rounds p start ≡ i
    → end ≡ i + 10 + from_be_bytes p (i + 8)
    → (with_sizes (oversized n (clamp_record p i).0 end) (clamp_record p i).0
        ≡ with_sizes (oversized (suc n) p start) p)
      × (((clamp_record p i).1 || has_any (oversized n (clamp_record p i).0 end))
          ≡ has_any (oversized (suc n) p start))
unfolding oversized with_sizes
oversized_round n p start i end name at = elim (Bool-cases (is_oversized p i)) [
  | inr small ↦ rw (name, oversized, small, (clamp_record-oversized p i).1 small, at) (refl, refl)
  | inl large ↦
      let q = write p (i + 2) (4 ∷ 208 ∷ []) in
      let same : oversized n q end ≡ oversized n p end =
        oversized-same n q p end end
          (λ j h. byte-write-after p (i + 2) j 4 208 (omega (arith, at, h))) (omega arith) in
      rw (name, oversized, large, (clamp_record-oversized p i).0 large, same, at) (refl, refl)
]

-- What the loop over the additional records leaves, where it succeeds.
clamp_records-oversized :
    (n : ℕ) (p : List ℕ) (start e : ℕ) (before after : Bool)
    → (clamp_records n p start before).1 ≡ ok (e, after)
    → ((clamp_records n p start before).0 ≡ with_sizes (oversized n p start) p)
      × (after ≡ (before || has_any (oversized n p start)))
unfolding clamp_records oversized with_sizes
clamp_records-oversized zero p start e before after = λ h. (refl, ground arith)
clamp_records-oversized (suc n) p start e before after = elim (Result-cases (skip_name p start)) [
  | inr (x, failed) ↦ rw (failed, clamp_records) (λ h. absurd (ground arith))
  | inl (i, skipped) ↦ elim (Option-cases (get_range p i (i + 10))) [
    | inl short ↦ rw (skipped, clamp_records, short) (λ h. absurd (ground arith))
    | inr (rr, there) ↦
        let q = clamp_record p i in
        let end = i + 10 + from_be_bytes rr 8 in
        elim (Bool-cases (leb end (length q.0))) [
          | inr past ↦ rw (skipped, clamp_records, there, past) (λ h. absurd (ground arith))
          | inl fits ↦
              let name = skip_name-name_end p start i skipped in
              let b8 = byte-get_range p rr i (i + 10) 8 (i + 8) there refl (omega arith) in
              let b9 =
                byte-get_range p rr i (i + 10) 9 (i + 8 + 1) there (omega arith) (omega arith) in
              let round = oversized_round n p start i end name (rw (b8, b9) refl) in
              rw (skipped, clamp_records, there, fits)
                (λ h.
                  let ih = clamp_records-oversized n q.0 end e (before || q.1) after h in
                  (ih.0 ∙ round.0, ih.1 ∙ or_assoc before _ _ ∙ ap (λ b. before || b) round.1))
        ]
  ]
]

-- Where `clamp_edns_udp_payload` succeeds, the message is the one that came with the size 1232 in
-- exactly those additional records that are OPT records with a larger one, and the result tells
-- whether there is any. Which these are is read off the message as it came, from the place where
-- the additional records begin.
pub clamp_edns_udp_payload-oversized :
    (p header : List ℕ) (offset : ℕ) (clamped : Bool)
    → header_of p ≡ ok header
    → additional_offset header p ≡ ok offset
    → (clamp_edns_udp_payload p).1 ≡ ok clamped
    → ((clamp_edns_udp_payload p).0 ≡ with_sizes (oversized (from_be_bytes header 10) p offset) p)
      × (clamped ≡ has_any (oversized (from_be_bytes header 10) p offset))
unfolding clamp_edns_udp_payload
clamp_edns_udp_payload-oversized p header offset clamped read walked =
    let n = from_be_bytes header 10 in
    let m = clamp_records n p offset false in
    elim (Result-cases m.1) [
      | inr (x, failed) ↦
          rw (read, clamp_edns_udp_payload, walked, failed) (λ h. absurd (ground arith))
      | inl ((e, after), done) ↦ elim (Bool-cases (nat_beq e (length m.0))) [
        | inr more ↦
            rw (read, clamp_edns_udp_payload, walked, done, more) (λ h. absurd (ground arith))
        | inl whole ↦
            rw (read, clamp_edns_udp_payload, walked, done, whole)
              (λ h.
                let kept = clamp_records-oversized n p offset e false after done in
                let same : after ≡ clamped = ground arith in (kept.0, rw (← same) kept.1))
      ]
    ]
