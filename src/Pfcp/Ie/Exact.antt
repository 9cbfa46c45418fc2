-- ===== src/Pfcp/Ie/Exact.antt =====
-- internal/pfcp/ie/ie.go: the input of `ParseIEs` against the encoding of what it returns.
use vectorcore_sgw.Common.{
  ℕ, zero, suc, ◌/◌, ◌%◌, ◌+◌, ◌≤◌, ◌≡◌, ◌↔◌, refl, ap, subst, false, List, [], ◌∷◌, ◌++◌, length,
  take, drop, All, ltb, arith, inl, inr, Bool-cases, length-append, length-take, take-append,
  drop-append, take-append-drop,
}
use vectorcore_sgw.Common.Bytes.{IsByte, u16_of, u16_of_put}
use vectorcore_sgw.Common.Results.{ok, ◌>>=◌, >>=-eq-ok}
use vectorcore_sgw.Pfcp.Ie.{Element, marshal, marshal_all, parse_loop, parse_ies, IsWire}

enough : (value rest : List ℕ) → ltb (length (value ++ rest)) (length value) ≡ false
enough value rest = ground (arith, length-append value rest)

-- One round of the loop on an encoded element.
parse_loop-marshal :
    (fuel : ℕ) (ie : Element) (rest : List ℕ)
    → IsWire ie
    → parse_loop (suc fuel) (marshal ie ++ rest) ≡ (parse_loop fuel rest >>= λ ies. ok (ie ∷ ies))
unfolding parse_loop marshal
parse_loop-marshal fuel ie rest w =
    rw
      (
        u16_of_put ie.typ w.typ_fits,
        u16_of_put (length ie.value) w.value_length,
        enough ie.value rest,
        take-append ie.value rest,
        drop-append ie.value rest,
      )
      refl

length-marshal : (ie : Element) → length (marshal ie) ≡ length ie.value + 4
unfolding marshal
length-marshal ie = omega arith

parse_loop-marshal_all :
    (fuel : ℕ) (ies : List Element)
    → All IsWire ies
    → length (marshal_all ies) ≤ fuel
    → parse_loop fuel (marshal_all ies) ≡ ok ies
unfolding marshal_all
parse_loop-marshal_all fuel [] w h = unfold parse_loop in refl
parse_loop-marshal_all zero (ie ∷ ies) w h =
    absurd (omega (arith, length-append (marshal ie) (marshal_all ies), length-marshal ie))
parse_loop-marshal_all (suc fuel) (ie ∷ ies) w h =
    let shorter : length (marshal_all ies) ≤ fuel =
      omega (arith, length-append (marshal ie) (marshal_all ies), length-marshal ie) in
    rw
      (
        parse_loop-marshal fuel ie (marshal_all ies) w.0,
        parse_loop-marshal_all fuel ies w.1 shorter,
      )
      refl

-- The elements fit the wire format, and their encoding is the input.
abbrev pub Encodes : List ℕ → List Element → Type 0
Encodes b ies = All IsWire ies × (marshal_all ies ≡ b)

bytes-take : (n : ℕ) (b : List ℕ) → All IsByte b → All IsByte (take n b)
bytes-take zero b h = tt
bytes-take (suc n) [] h = tt
bytes-take (suc n) (x ∷ b) h = (h.0, bytes-take n b h.1)

bytes-drop : (n : ℕ) (b : List ℕ) → All IsByte b → All IsByte (drop n b)
bytes-drop zero b h = h
bytes-drop (suc n) [] h = tt
bytes-drop (suc n) (x ∷ b) h = bytes-drop n b h.1

high_byte : (a b : ℕ) → IsByte a → IsByte b → u16_of a b / 256 % 256 ≡ a
high_byte a b ha hb = omega arith

low_byte : (a b : ℕ) → IsByte b → u16_of a b % 256 ≡ b
low_byte a b hb = omega arith

round-Encodes :
    (a b hi lo : ℕ) (rest : List ℕ) (more : List Element)
    → All IsByte (a ∷ b ∷ hi ∷ lo ∷ rest)
    → u16_of hi lo ≤ length rest
    → Encodes (drop (u16_of hi lo) rest) more
    → Encodes
        (a ∷ b ∷ hi ∷ lo ∷ rest)
        (record { typ = u16_of a b; value = take (u16_of hi lo) rest } ∷ more)
unfolding marshal_all marshal
round-Encodes a b hi lo rest more (ha, (hb, (hhi, (hlo, hr)))) fits (wire, bytes) =
    let long : length (take (u16_of hi lo) rest) ≡ u16_of hi lo =
      omega (arith, length-take (u16_of hi lo) rest, fits) in
    (
      (
        record {
          typ_fits = omega arith;
          value_bytes = bytes-take (u16_of hi lo) rest hr;
          value_length = omega (arith, long);
        },
        wire,
      ),
      rw
          (
            long,
            high_byte a b ha hb,
            low_byte a b hb,
            high_byte hi lo hhi hlo,
            low_byte hi lo hlo,
            bytes,
          )
          (ap (λ t. a ∷ b ∷ hi ∷ lo ∷ t) (take-append-drop (u16_of hi lo) rest)),
    )

parse_loop-Encodes :
    (fuel : ℕ) (b : List ℕ) (ies : List Element)
    → All IsByte b
    → parse_loop fuel b ≡ ok ies
    → Encodes b ies
unfolding parse_loop
parse_loop-Encodes fuel [] ies w h = subst (Encodes []) (cc h) nil_encodes
  where
    nil_encodes : Encodes [] []
    nil_encodes = (tt, unfold marshal_all in refl)
parse_loop-Encodes zero (x ∷ b) ies w h = absurd (cc h)
parse_loop-Encodes (suc fuel) (a ∷ b ∷ hi ∷ lo ∷ rest) ies w h =
    elim (Bool-cases (ltb (length rest) (u16_of hi lo))) [
      | inl short ↦ absurd (cc (rw short at h))
      | inr fits ↦
          let (more, e, q) =
            >>=-eq-ok (parse_loop fuel (drop (u16_of hi lo) rest)) _ (rw fits at h) in
          let ih : Encodes (drop (u16_of hi lo) rest) more =
            parse_loop-Encodes fuel (drop (u16_of hi lo) rest) more
              (bytes-drop (u16_of hi lo) rest w.1.1.1.1) q in
          subst (Encodes (a ∷ b ∷ hi ∷ lo ∷ rest)) (cc e)
            (round-Encodes a b hi lo rest more w (ground (arith, fits)) ih)
    ]
parse_loop-Encodes (suc fuel) (a ∷ []) ies w h = absurd (cc h)
parse_loop-Encodes (suc fuel) (a ∷ b ∷ []) ies w h = absurd (cc h)
parse_loop-Encodes (suc fuel) (a ∷ b ∷ c ∷ []) ies w h = absurd (cc h)

pub parse_marshalled : (ies : List Element) → All IsWire ies → parse_ies (marshal_all ies) ≡ ok ies
unfolding parse_ies
parse_marshalled ies w = parse_loop-marshal_all _ ies w (omega arith)

-- ParseIEs of bytes returns elements exactly when these fit the wire format and the bytes are their
-- encodings one after the other: it accepts nothing else, and reads every such input.
pub parse_ies-Encodes :
    (b : List ℕ) (ies : List Element) → All IsByte b → (parse_ies b ≡ ok ies) ↔ Encodes b ies
unfolding parse_ies
parse_ies-Encodes b ies w = (
  parse_loop-Encodes (length b) b ies w,
  λ (wire, bytes). subst (λ x. parse_ies x ≡ ok ies) bytes (parse_marshalled ies wire),
)
