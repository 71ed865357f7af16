-- ===== src/Dns/Laws/Names.antt =====
-- src/flow_plane/dns.rs: `parse_name` at a name that is written as its labels.
use new_proxy.Prelude.{
  ℕ, zero, suc, ◌+◌, ◌-◌, ◌/◌, ◌≤◌, ◌<◌, ◌≡◌, true, false, none, some, List, [], ◌∷◌, ◌++◌, map,
  length, get_elem?, take, drop, mem, leb, refl, sym, ap, subst, ◌∙◌, arith, ok, length-append,
}
use new_proxy.Packet.Bytes.{get_range}
use new_proxy.Dns.Name.{
  is_label, normalize_label, to_ascii_lowercase, join, parse_name_from, parse_name,
}

-- The labels as they stand in a message, each behind its length, with a zero at the end.
unfoldable pub encode : List (List ℕ) → List ℕ
encode [] = 0 ∷ []
encode (label ∷ labels) = (length label ∷ label) ++ encode labels

-- Every label has at most 63 bytes and is well formed.
abbrev pub AreLabels : List (List ℕ) → Type 0
AreLabels [] = Unit {0}
AreLabels (label ∷ labels) = (length label ≤ 63) × (is_label label ≡ true) × AreLabels labels

module _ {A : Type 0} where
  get_elem?-append : (xs ys : List A) (y : A) → get_elem? (xs ++ y ∷ ys) (length xs) ≡ some y
  get_elem?-append [] ys y = refl
  get_elem?-append (x ∷ xs) ys y = get_elem?-append xs ys y

  drop-append : (xs ys : List A) → drop (length xs) (xs ++ ys) ≡ ys
  drop-append [] ys = refl
  drop-append (x ∷ xs) ys = drop-append xs ys

  take-append : (xs ys : List A) → take (length xs) (xs ++ ys) ≡ xs
  take-append [] ys = refl
  take-append (x ∷ xs) ys = ap (λ zs. x ∷ zs) (take-append xs ys)

  append-nil : (xs : List A) → xs ++ [] ≡ xs
  append-nil [] = refl
  append-nil (x ∷ xs) = ap (λ zs. x ∷ zs) (append-nil xs)

  append_assoc : (xs ys zs : List A) → (xs ++ ys) ++ zs ≡ xs ++ (ys ++ zs)
  append_assoc [] ys zs = refl
  append_assoc (x ∷ xs) ys zs = ap (λ ws. x ∷ ws) (append_assoc xs ys zs)

-- The offsets that have been seen stand before the place that is read.
abbrev AreBelow : ℕ → List ℕ → Type 0
AreBelow n [] = Unit {0}
AreBelow n (x ∷ xs) = (x < n) × AreBelow n xs

AreBelow-le : (m n : ℕ) (xs : List ℕ) → m ≤ n → AreBelow m xs → AreBelow n xs
AreBelow-le m n [] h k = tt
AreBelow-le m n (x ∷ xs) h k = (omega (arith, k.0), AreBelow-le m n xs h k.1)

mem-AreBelow : (n : ℕ) (xs : List ℕ) → AreBelow n xs → mem n xs ≡ false
unfolding mem
mem-AreBelow n [] h = refl
mem-AreBelow n (x ∷ xs) h = ground (arith, h.0, mem-AreBelow n xs h.1)

-- A range in the middle.
get_range-append :
    (xs ys zs : List ℕ) → get_range (xs ++ (ys ++ zs)) (length xs) (length xs + length ys) ≡ some ys
unfolding get_range
get_range-append xs ys zs =
    let here : drop (length xs) (xs ++ (ys ++ zs)) ≡ ys ++ zs = drop-append xs (ys ++ zs) in
    let wide : length (xs ++ (ys ++ zs)) ≡ length xs + (length ys + length zs) =
      omega (arith, length-append xs (ys ++ zs), length-append ys zs) in
    let many : length xs + length ys - length xs ≡ length ys = omega arith in
    let low : leb (length xs) (length xs + length ys) ≡ true = ground arith in
    let high : leb (length xs + length ys) (length (xs ++ (ys ++ zs))) ≡ true = ground arith in
    rw (low, high, here, many) (ap some (take-append ys zs))

-- One label is read.
parse_label :
    (rounds : ℕ) (p : List ℕ) (acc : List (List ℕ)) (seen : List ℕ) (offset : ℕ) (label : List ℕ)
    → mem offset seen ≡ false
    → get_elem? p offset ≡ some (length label)
    → get_range p (offset + 1) (offset + 1 + length label) ≡ some label
    → length label ≤ 63
    → is_label label ≡ true
    → parse_name_from (suc rounds) p acc none seen offset
      ≡ parse_name_from rounds p
          (acc ++ map to_ascii_lowercase label ∷ [])
          none
          (offset ∷ seen)
          (offset + 1 + length label)
unfolding parse_name_from normalize_label
parse_label rounds p acc seen offset [] unseen here bytes short good = absurd (ground arith)
parse_label rounds p acc seen offset (b ∷ label) unseen here bytes short good =
    let tag : suc (length label) / 64 ≡ 0 = omega arith in
    rw (unseen, parse_name_from, here, bytes, good, tag) (ground arith)

-- The zero behind the last label is read.
parse_end :
    (rounds : ℕ) (p : List ℕ) (acc : List (List ℕ)) (seen : List ℕ) (offset : ℕ)
    → mem offset seen ≡ false
    → get_elem? p offset ≡ some 0
    → 0 < length acc
    → parse_name_from (suc rounds) p acc none seen offset ≡ ok (join acc, offset + 1)
unfolding parse_name_from
parse_end rounds p acc seen offset unseen here some_label =
    rw (unseen, parse_name_from, here) (ground arith)

parse_labels :
    (labels : List (List ℕ)) (rounds : ℕ) (pre rest p : List ℕ) (acc : List (List ℕ))
    (seen : List ℕ)
    → p ≡ pre ++ (encode labels ++ rest)
    → length labels < rounds
    → AreLabels labels
    → AreBelow (length pre) seen
    → 0 < length acc + length labels
    → parse_name_from rounds p acc none seen (length pre)
      ≡ ok (join (acc ++ map (map to_ascii_lowercase) labels), length pre + length (encode labels))
unfolding encode
parse_labels labels zero pre rest p acc seen e few good below some_label = absurd (omega arith)
parse_labels [] (suc rounds) pre rest p acc seen e few good below some_label =
    let here : get_elem? p (length pre) ≡ some 0 = rw e (get_elem?-append pre rest 0) in
    parse_end rounds p acc seen (length pre) (mem-AreBelow (length pre) seen below) here
      (omega arith)
    ∙ ap (λ ls. ok (join ls, length pre + 1)) (sym (append-nil acc))
parse_labels (label ∷ labels) (suc rounds) pre rest p acc seen e few good below some_label =
    let n = length pre in
    let pre' = pre ++ (length label ∷ label) in
    let len : length pre' ≡ n + 1 + length label =
      omega (arith, length-append pre (length label ∷ label)) in
    let e' : p ≡ pre' ++ (encode labels ++ rest) =
      e
      ∙ ap (λ ws. pre ++ ws) (append_assoc (length label ∷ label) (encode labels) rest)
      ∙ sym (append_assoc pre (length label ∷ label) (encode labels ++ rest)) in
    let here : get_elem? p n ≡ some (length label) =
      rw e (get_elem?-append pre ((label ++ encode labels) ++ rest) (length label)) in
    let start = pre ++ length label ∷ [] in
    let one : length start ≡ n + 1 = omega (arith, length-append pre (length label ∷ [])) in
    let split : p ≡ start ++ (label ++ (encode labels ++ rest)) =
      e'
      ∙ append_assoc pre (length label ∷ label) (encode labels ++ rest)
      ∙ sym (append_assoc pre (length label ∷ []) (label ++ (encode labels ++ rest))) in
    let bytes : get_range p (n + 1) (n + 1 + length label) ≡ some label =
      subst (λ m. get_range p m (m + length label) ≡ some label) one
        (rw split (get_range-append start label (encode labels ++ rest))) in
    parse_label rounds p acc seen n label (mem-AreBelow n seen below) here bytes good.0 good.1
    ∙ rw (← len) (
        parse_labels labels rounds pre' rest p (acc ++ map to_ascii_lowercase label ∷ []) (n ∷ seen)
          e' (omega (arith, few)) good.2
          (omega (arith, len), AreBelow-le n (length pre') seen (omega (arith, len)) below)
          (omega (arith, length-append acc (map to_ascii_lowercase label ∷ [])))
        ∙ ap (λ ls. ok (join ls, length pre' + length (encode labels)))
            (append_assoc acc (map to_ascii_lowercase label ∷ [])
              (map (map to_ascii_lowercase) labels))
        ∙ ap
            (λ m.
              ok (
                join (acc ++ map to_ascii_lowercase label ∷ map (map to_ascii_lowercase) labels),
                m,
              ))
            (omega (arith, len, length-append label (encode labels))))

-- A name of one to 127 labels, each at most 63 letters, digits and inner dashes, is parsed from
-- its encoding at any place of a message: the result is the labels in lower case joined by dots,
-- and the offset behind the encoding.
pub parse_name-encode :
    (labels : List (List ℕ)) (pre rest : List ℕ)
    → 0 < length labels
    → length labels < 128
    → AreLabels labels
    → parse_name (pre ++ (encode labels ++ rest)) (length pre)
      ≡ ok (join (map (map to_ascii_lowercase) labels), length pre + length (encode labels))
unfolding parse_name
parse_name-encode labels pre rest some_label few good =
    parse_labels labels 128 pre rest (pre ++ (encode labels ++ rest)) [] [] refl few good tt
      (omega (arith, some_label))
