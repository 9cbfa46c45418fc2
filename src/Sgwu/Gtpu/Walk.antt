-- ===== src/Sgwu/Gtpu/Walk.antt =====
-- internal/sgwu/gtpu/header.go: the walk over the extension headers.
use vectorcore_sgw.Common.{
  ℕ, zero, suc, ◌+◌, ◌-◌, ◌*◌, ◌<◌, ◌≤◌, ◌≡◌, ◌≢◌, refl, sym, ap, ◌∙◌, Bool, true, false, List, [],
  ◌∷◌, ◌++◌, length, ltb, leb, nat_beq, nat_beq_iff, arith, inl, inr, Bool-cases, length-append,
}
use vectorcore_sgw.Common.Bytes.{byte_at}
use vectorcore_sgw.Common.Results.{Result, ok, err}
use vectorcore_sgw.Sgwu.Gtpu.{
  ParseError, stuck, chain_past_declared, extension_length_zero, extension_past_declared, walk,
}

-- A chain of extension headers, of the type in front of it: each has its length in units of four
-- octets first and the type of the next one last, and 0 is no type.
pub data Chain : ℕ → List ℕ → Type 0 where
  stop : Chain 0 []
  link :
      (typ units last : ℕ) (content rest : List ℕ)
      → typ ≢ 0
      → 0 < units
      → length content + 2 ≡ units * 4
      → Chain last rest
      → Chain typ (units ∷ (content ++ last ∷ rest))

byte_at-after :
    (before : List ℕ) (x : ℕ) (after : List ℕ) → byte_at (before ++ x ∷ after) (length before) ≡ x
byte_at-after [] x after = refl
byte_at-after (y ∷ before) x after = byte_at-after before x after

append_assoc : (xs ys zs : List ℕ) → (xs ++ ys) ++ zs ≡ xs ++ (ys ++ zs)
append_assoc [] ys zs = refl
append_assoc (x ∷ xs) ys zs = ap (λ t. x ∷ t) (append_assoc xs ys zs)

-- A round that goes on.
walk_round :
    (fuel : ℕ) (b : List ℕ) (consumed end typ units last : ℕ)
    → typ ≢ 0
    → 0 < units
    → byte_at b consumed ≡ units
    → byte_at b (consumed + units * 4 - 1) ≡ last
    → consumed + units * 4 ≤ end
    → walk (suc fuel) b consumed end typ ≡ walk fuel b (consumed + units * 4) end last
unfolding walk
walk_round fuel b consumed end typ units last some_type positive first after fits =
    rw
      (
        first,
        after,
        Bool-false (nat_beq typ 0) (λ e. some_type ((nat_beq_iff typ 0).0 e)),
        leb-false end consumed (omega arith),
        ltb-ge (units * 4) 4 (omega arith),
        ltb-ge end (consumed + units * 4) fits,
      )
      refl
  where
    Bool-false : (t : Bool) → (t ≡ true → ⊥) → t ≡ false
    Bool-false true h = absurd (h refl)
    Bool-false false h = refl

    leb-false : (a c : ℕ) → c < a → leb a c ≡ false
    leb-false a c h = ground arith

    ltb-ge : (a c : ℕ) → c ≤ a → ltb a c ≡ false
    ltb-ge a c h = ground arith

-- A packet around one extension header, cut before its last octet and behind it.
cut_before_last :
    (before content : List ℕ) (units last : ℕ) (more : List ℕ)
    → before ++ (units ∷ (content ++ last ∷ more)) ≡ (before ++ (units ∷ content)) ++ last ∷ more
cut_before_last before content units last more =
    sym (append_assoc before (units ∷ content) (last ∷ more))

cut_behind_last :
    (before content : List ℕ) (units last : ℕ) (more : List ℕ)
    → before ++ (units ∷ (content ++ last ∷ more))
      ≡ (before ++ (units ∷ (content ++ last ∷ []))) ++ more
cut_behind_last before content units last more =
    ap (λ t. before ++ (units ∷ t)) (sym (append_assoc content (last ∷ []) more))
    ∙ sym (append_assoc before (units ∷ (content ++ last ∷ [])) more)

-- The walk reads a chain to its end and no further, wherever it stands in the packet.
pub walk-Chain :
    (fuel : ℕ) (before chain after : List ℕ) (typ end : ℕ)
    → Chain typ chain
    → length chain < fuel
    → length before + length chain ≤ end
    → walk fuel (before ++ (chain ++ after)) (length before) end typ
      ≡ ok (length before + length chain)
unfolding walk
walk-Chain zero before chain after typ end c lt fits = absurd (omega arith)
walk-Chain (suc fuel) before _ after _ end stop lt fits = ap ok (omega arith)
walk-Chain (suc fuel) before _ after _ end
      (link typ units last content rest some_type positive size c) lt fits =
    let shape : (units ∷ (content ++ last ∷ rest)) ++ after
        ≡ units ∷ (content ++ last ∷ (rest ++ after)) =
      append_assoc (units ∷ content) (last ∷ rest) after in
    let body : length (content ++ last ∷ rest) ≡ length content + suc (length rest) =
      length-append content (last ∷ rest) in
    let head : length (before ++ (units ∷ (content ++ last ∷ []))) ≡ length before + units * 4 =
      omega (
        arith,
        length-append before (units ∷ (content ++ last ∷ [])),
        length-append content (last ∷ []),
        size,
      ) in
    let last_place : length (before ++ (units ∷ content)) ≡ length before + units * 4 - 1 =
      omega (arith, length-append before (units ∷ content), size) in
    let last_at : byte_at (before ++ (units ∷ (content ++ last ∷ (rest ++ after))))
          (length before + units * 4 - 1)
        ≡ last =
      rw (cut_before_last before content units last (rest ++ after), ← last_place)
        (byte_at-after (before ++ (units ∷ content)) last (rest ++ after)) in
    let rest_read =
      walk-Chain fuel (before ++ (units ∷ (content ++ last ∷ []))) rest after last end c
        (omega (arith, body, lt)) (omega (arith, body, head, fits, size)) in
    let total : length (before ++ (units ∷ (content ++ last ∷ []))) + length rest
        ≡ length before + length (units ∷ (content ++ last ∷ rest)) =
      omega (arith, body, head, size) in
    let rest_there : walk fuel (before ++ (units ∷ (content ++ last ∷ (rest ++ after))))
          (length before + units * 4) end last
        ≡ ok (length (before ++ (units ∷ (content ++ last ∷ []))) + length rest) =
      rw (cut_behind_last before content units last (rest ++ after), ← head) rest_read in
    rw shape (
      walk_round fuel (before ++ (units ∷ (content ++ last ∷ (rest ++ after)))) (length before) end
        typ units last some_type positive
        (byte_at-after before units (content ++ last ∷ (rest ++ after))) last_at
        (omega (arith, body, fits, size))
      ∙ rest_there
      ∙ ap ok total)

-- The cases of a round, with the guard of each.
data Round (fuel : ℕ) (b : List ℕ) (consumed end typ : ℕ) : Result ParseError ℕ → Type 0 where
  ended : Round fuel b consumed end typ (ok consumed)
  refused : (e : ParseError) → e ≢ stuck → Round fuel b consumed end typ (err e)
  goes_on :
      4 ≤ byte_at b consumed * 4
      → consumed + byte_at b consumed * 4 ≤ end
      → Round fuel b consumed end typ (
          walk fuel b
            (consumed + byte_at b consumed * 4)
            end
            (byte_at b (consumed + byte_at b consumed * 4 - 1)))

case_of :
    (fuel : ℕ) (b : List ℕ) (consumed end typ : ℕ)
    → Round fuel b consumed end typ (walk (suc fuel) b consumed end typ)
unfolding walk
case_of fuel b consumed end typ = elim (Bool-cases (nat_beq typ 0)) [
  | inl none_left ↦ rw none_left ended
  | inr typed ↦ elim (Bool-cases (leb end consumed)) [
    | inl past ↦ rw (typed, past) (refused chain_past_declared (λ e. cc))
    | inr inside ↦ elim (Bool-cases (ltb (byte_at b consumed * 4) 4)) [
      | inl empty ↦ rw (typed, inside, empty) (refused extension_length_zero (λ e. cc))
      | inr sized ↦ elim (Bool-cases (ltb end (consumed + byte_at b consumed * 4))) [
        | inl long ↦ rw (typed, inside, sized, long) (refused extension_past_declared (λ e. cc))
        | inr fits ↦
            rw (typed, inside, sized, fits) (goes_on (ground (arith, sized)) (ground (arith, fits)))
      ]
    ]
  ]
]

-- What the walk returns is not before its start and not past the declared length.
pub walk-bounds :
    (fuel : ℕ) (b : List ℕ) (consumed end typ result : ℕ)
    → consumed ≤ end
    → walk fuel b consumed end typ ≡ ok result
    → (consumed ≤ result) × (result ≤ end)
unfolding walk
walk-bounds zero b consumed end typ result le e = no_result e
  where
    no_result : err stuck ≡ ok result → (consumed ≤ result) × (result ≤ end)
    no_result e = absurd (cc e)
walk-bounds (suc fuel) b consumed end typ result le e =
    by_round (walk (suc fuel) b consumed end typ) (case_of fuel b consumed end typ) e
      (λ next t fits. walk-bounds fuel b next end t result fits)
  where
    by_round :
        (r : Result ParseError ℕ)
        → Round fuel b consumed end typ r
        → r ≡ ok result
        → ((next t : ℕ)
            → next ≤ end
            → walk fuel b next end t ≡ ok result
            → (next ≤ result) × (result ≤ end))
        → (consumed ≤ result) × (result ≤ end)
    by_round _ ended e ih =
        let same : consumed ≡ result = cc e in (omega (arith, same), omega (arith, same, le))
    by_round _ (refused x n) e ih = absurd (cc e)
    by_round _ (goes_on some_octets fits) e ih =
        let (low, high) =
          ih (consumed + byte_at b consumed * 4) (byte_at b (consumed + byte_at b consumed * 4 - 1))
            fits e in
        (omega (arith, low), high)

-- Fuel for every octet up to the declared length is enough.
pub walk-ne-stuck :
    (fuel : ℕ) (b : List ℕ) (consumed end typ : ℕ)
    → consumed ≤ end
    → end < fuel + consumed
    → walk fuel b consumed end typ ≢ err stuck
walk-ne-stuck zero b consumed end typ le lt e = absurd (omega arith)
walk-ne-stuck (suc fuel) b consumed end typ le lt e =
    by_round (walk (suc fuel) b consumed end typ) (case_of fuel b consumed end typ) e
      (λ next t fits more. walk-ne-stuck fuel b next end t fits more)
  where
    by_round :
        (r : Result ParseError ℕ)
        → Round fuel b consumed end typ r
        → r ≡ err stuck
        → ((next t : ℕ) → next ≤ end → end < fuel + next → walk fuel b next end t ≢ err stuck)
        → ⊥
    by_round _ ended e ih = absurd (cc e)
    by_round _ (refused x n) e ih = n (cc e)
    by_round _ (goes_on some_octets fits) e ih =
        ih (consumed + byte_at b consumed * 4) (byte_at b (consumed + byte_at b consumed * 4 - 1))
          fits (omega arith) e
