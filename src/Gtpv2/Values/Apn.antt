-- ===== src/Gtpv2/Values/Apn.antt =====
-- internal/gtpv2/ie/ie.go: the access point name, as labels with a length before each.
use vectorcore_sgw.Common.{
  ℕ, zero, suc, ◌+◌, ◌%◌, ◌<◌, ◌≡◌, refl, ap, inl, inr, nat_beq_iff, sym, ◌∙◌, Bool, true, false,
  List, [], ◌∷◌, ◌++◌, length, take, drop, arith, ltb, nat_beq, if◌then◌else◌, length-append,
  take-append, drop-append, Bool-cases,
}

-- The loop of `encodeAPN`: `label` is `apn[start:i]`, and 46 is the dot.
unfoldable pub encode_labels : List ℕ → List ℕ → List ℕ
encode_labels label [] = length label % 256 ∷ label
encode_labels label (c ∷ s) =
    if nat_beq c 46
    then length label % 256 ∷ (label ++ encode_labels [] s)
    else encode_labels (label ++ c ∷ []) s

unfoldable pub encode_apn : List ℕ → List ℕ
unfolding encode_labels
encode_apn [] = 0 ∷ []
encode_apn (c ∷ s) = encode_labels [] (c ∷ s)

abbrev is_nil : List ℕ → Bool
is_nil [] = true
is_nil (x ∷ xs) = false

-- `out = append(out, '.')` before every label but the first
abbrev with_dot : List ℕ → List ℕ
with_dot out = if is_nil out then [] else out ++ 46 ∷ []

-- The loop of `decodeAPN`. Each round takes one byte at least.
unfoldable pub decode_labels : ℕ → List ℕ → List ℕ → List ℕ
decode_labels fuel out [] = out
decode_labels zero out (n ∷ rest) = out
decode_labels (suc fuel) out (n ∷ rest) =
    let more = decode_labels fuel (with_dot out ++ take n rest) (drop n rest) in
    if ltb (length rest) n then out else more

unfoldable pub decode_apn : List ℕ → List ℕ
unfolding decode_labels
decode_apn b = decode_labels (length b) [] b

abbrev pub starts_with_dot : List ℕ → Bool
starts_with_dot [] = false
starts_with_dot (c ∷ s) = nat_beq c 46

append_assoc : (xs ys zs : List ℕ) → (xs ++ ys) ++ zs ≡ xs ++ (ys ++ zs)
append_assoc [] ys zs = refl
append_assoc (x ∷ xs) ys zs = ap (λ t. x ∷ t) (append_assoc xs ys zs)

append_nil : (xs : List ℕ) → xs ++ [] ≡ xs
append_nil [] = refl
append_nil (x ∷ xs) = ap (λ t. x ∷ t) (append_nil xs)

-- One label with its length before it.
decode-label :
    (fuel : ℕ) (out label rest : List ℕ)
    → length label < 256
    → decode_labels (suc fuel) out (length label % 256 ∷ (label ++ rest))
      ≡ decode_labels fuel (with_dot out ++ label) rest
unfolding decode_labels
decode-label fuel out label rest h =
    let size : length label % 256 ≡ length label = omega arith in
    let fits : ltb (length (label ++ rest)) (length label) ≡ false =
      rw (length-append label rest) (ground arith) in
    rw (size, fits, take-append label rest, drop-append label rest) refl

decode-last :
    (fuel : ℕ) (out label : List ℕ)
    → length label < 256
    → decode_labels (suc fuel) out (length label % 256 ∷ label) ≡ with_dot out ++ label
unfolding decode_labels
decode-last fuel out label h =
    ap (λ t. decode_labels (suc fuel) out (length label % 256 ∷ t)) (sym (append_nil label))
    ∙ decode-label fuel out label [] h

with_dot_some : (out s : List ℕ) → is_nil out ≡ false → with_dot out ++ s ≡ out ++ 46 ∷ s
with_dot_some out s h = rw h (append_assoc out (46 ∷ []) s)

append_not_nil : (out s : List ℕ) (c : ℕ) → is_nil (out ++ c ∷ s) ≡ false
append_not_nil [] s c = refl
append_not_nil (x ∷ out) s c = refl

length-snoc : (label : List ℕ) (c : ℕ) → length (label ++ c ∷ []) ≡ length label + 1
length-snoc label c = length-append label (c ∷ [])

-- Labels behind one that has been read already.
decode-more :
    (fuel : ℕ) (out label s : List ℕ)
    → is_nil out ≡ false
    → length label + length s < 256
    → length label + length s < fuel
    → decode_labels fuel out (encode_labels label s) ≡ out ++ 46 ∷ (label ++ s)
unfolding encode_labels
decode-more zero out label s h small lt = absurd (omega arith)
decode-more (suc fuel) out label [] h small lt =
    decode-last fuel out label (omega arith)
    ∙ with_dot_some out label h
    ∙ ap (λ t. out ++ 46 ∷ t) (sym (append_nil label))
decode-more (suc fuel) out label (c ∷ s) h small lt = elim (Bool-cases (nat_beq c 46)) [
  | inl dot ↦
      let same : c ≡ 46 = (nat_beq_iff c 46).0 dot in
      let started : is_nil (with_dot out ++ label) ≡ false =
        rw (with_dot_some out label h) (append_not_nil out label 46) in
      rw dot (
        decode-label fuel out label (encode_labels [] s) (omega arith)
        ∙ decode-more fuel (with_dot out ++ label) [] s started (omega arith) (omega arith)
        ∙ rw (with_dot_some out label h, same) (append_assoc out (46 ∷ label) (46 ∷ s)))
  | inr other ↦ rw other (
      decode-more (suc fuel) out (label ++ c ∷ []) s h (omega (arith, length-snoc label c))
        (omega (arith, length-snoc label c))
      ∙ ap (λ t. out ++ 46 ∷ t) (append_assoc label (c ∷ []) s))
]

decode-first :
    (fuel : ℕ) (label s : List ℕ)
    → is_nil label ≡ false
    → length label + length s < 256
    → length label + length s < fuel
    → decode_labels fuel [] (encode_labels label s) ≡ label ++ s
unfolding encode_labels
decode-first zero label s h small lt = absurd (omega arith)
decode-first (suc fuel) label [] h small lt =
    decode-last fuel [] label (omega arith) ∙ sym (append_nil label)
decode-first (suc fuel) label (c ∷ s) h small lt = elim (Bool-cases (nat_beq c 46)) [
  | inl dot ↦
      let same : c ≡ 46 = (nat_beq_iff c 46).0 dot in
      rw dot (
        decode-label fuel [] label (encode_labels [] s) (omega arith)
        ∙ decode-more fuel label [] s h (omega arith) (omega arith)
        ∙ ap (λ t. label ++ t ∷ s) (sym same))
  | inr other ↦ rw other (
      decode-first (suc fuel) (label ++ c ∷ []) s (append_not_nil label [] c)
        (omega (arith, length-snoc label c)) (omega (arith, length-snoc label c))
      ∙ append_assoc label (c ∷ []) s)
]

length-encode_labels :
    (label s : List ℕ) → length (encode_labels label s) ≡ length label + length s + 1
unfolding encode_labels
length-encode_labels label [] = omega arith
length-encode_labels label (c ∷ s) = elim (Bool-cases (nat_beq c 46)) [
  | inl dot ↦
      rw (dot, length-append label (encode_labels [] s), length-encode_labels [] s) (omega arith)
  | inr other ↦
      rw (other, length-encode_labels (label ++ c ∷ []) s, length-snoc label c) (omega arith)
]

first_round :
    (c : ℕ) (s : List ℕ)
    → length (c ∷ s) < 256
    → starts_with_dot (c ∷ s) ≡ false
    → decode_labels (0 + length (c ∷ s) + 1) [] (encode_labels [] (c ∷ s)) ≡ c ∷ s
unfolding encode_labels
first_round c s small h =
    rw h (decode-first (0 + suc (length s) + 1) (c ∷ []) s refl (omega arith) (omega arith))

-- An access point name of fewer than 256 bytes that does not start with a dot is read back from its
-- encoding, empty labels inside it and the empty name included.
pub decode_apn-encode_apn :
    (s : List ℕ) → length s < 256 → starts_with_dot s ≡ false → decode_apn (encode_apn s) ≡ s
unfolding decode_apn encode_apn
decode_apn-encode_apn [] small h = refl
decode_apn-encode_apn (c ∷ s) small h =
    rw (length-encode_labels [] (c ∷ s)) (first_round c s small h)
