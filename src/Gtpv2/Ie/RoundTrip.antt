-- ===== src/Gtpv2/Ie/RoundTrip.antt =====
-- Encoding and parsing elements, of internal/gtpv2/ie/ie.go.
use Prim.Native.Nat.{bit_and}
use vectorcore_sgw.Common.{
  ℕ, zero, suc, ◌+◌, ◌<◌, ◌≤◌, ◌≡◌, ◌≢◌, refl, subst, false, List, [], ◌∷◌, ◌++◌, length, take,
  drop, All, ltb, arith, Bool-cases, inl, inr, length-append, length-drop, length-take, take-append,
  drop-append,
}
use vectorcore_sgw.Common.Bytes.{IsByte, u16_of, u16_of_put, low_nibble}
use vectorcore_sgw.Common.Results.{ok, err, ◌>>=◌, >>=-eq-err, >>=-eq-ok}
use vectorcore_sgw.Gtpv2.Ie.{Ie, stuck, marshal, marshal_all, parse_loop, parse_ies, IsWire}

low_nibble_of : (n : ℕ) → n < 16 → bit_and n 0x0f ≡ n
low_nibble_of n h = omega (arith, low_nibble n (omega arith))

enough : (value rest : List ℕ) → ltb (length (value ++ rest)) (length value) ≡ false
enough value rest = ground (arith, length-append value rest)

-- One round of the loop on an encoded element.
parse_loop-marshal :
    (fuel : ℕ) (ie : Ie) (rest : List ℕ)
    → IsWire ie
    → parse_loop (suc fuel) (marshal ie ++ rest) ≡ (parse_loop fuel rest >>= λ ies. ok (ie ∷ ies))
unfolding parse_loop marshal
parse_loop-marshal fuel ie rest w = rw (
  u16_of_put (length ie.value) w.value_length,
  enough ie.value rest,
  take-append ie.value rest,
  drop-append ie.value rest,
  low_nibble_of ie.inst w.inst_nibble,
  low_nibble_of ie.inst w.inst_nibble,
)

length-marshal : (ie : Ie) → length (marshal ie) ≡ length ie.value + 4
unfolding marshal
length-marshal ie = omega arith

parse_loop-marshal_all :
    (fuel : ℕ) (ies : List Ie)
    → All IsWire ies
    → length (marshal_all ies) ≤ fuel
    → parse_loop fuel (marshal_all ies) ≡ ok ies
unfolding marshal_all
parse_loop-marshal_all fuel [] w h = unfold parse_loop in refl
parse_loop-marshal_all zero (ie ∷ ies) w h =
    absurd (omega (arith, length-append (marshal ie) (marshal_all ies), length-marshal ie))
parse_loop-marshal_all (suc fuel) (ie ∷ ies) w h = rw (
  parse_loop-marshal fuel ie (marshal_all ies) w.0,
  parse_loop-marshal_all fuel ies w.1
      (omega (arith, length-append (marshal ie) (marshal_all ies), length-marshal ie)),
)

-- Parsing what was encoded gives back the elements, whatever they are, if each fits the wire format.
pub parse_ies-marshal_all : (ies : List Ie) → All IsWire ies → parse_ies (marshal_all ies) ≡ ok ies
unfolding parse_ies
parse_ies-marshal_all ies w = parse_loop-marshal_all _ ies w (omega arith)

parse_loop-ne-stuck : (fuel : ℕ) (b : List ℕ) → length b ≤ fuel → parse_loop fuel b ≢ err stuck
unfolding parse_loop
parse_loop-ne-stuck fuel [] h = λ e. cc
parse_loop-ne-stuck zero (x ∷ b) h = absurd (omega arith)
parse_loop-ne-stuck (suc fuel) (typ ∷ hi ∷ lo ∷ inst ∷ rest) h =
    elim (Bool-cases (ltb (length rest) (u16_of hi lo))) [
      | inl short ↦ rw short (λ e. cc)
      | inr fits ↦ rw fits (λ e.
          elim (>>=-eq-err (parse_loop fuel (drop (u16_of hi lo) rest)) _ e) [
            | inl q ↦
                parse_loop-ne-stuck fuel (drop (u16_of hi lo) rest)
                  (omega (arith, length-drop (u16_of hi lo) rest)) q
            | inr (ies, q, r) ↦ cc
          ])
    ]
parse_loop-ne-stuck (suc fuel) (a ∷ []) h = λ e. cc
parse_loop-ne-stuck (suc fuel) (a ∷ c ∷ []) h = λ e. cc
parse_loop-ne-stuck (suc fuel) (a ∷ c ∷ d ∷ []) h = λ e. cc

-- ParseIEs ends on every input: the fuel of the model is enough.
pub parse_ies-ne-stuck : (b : List ℕ) → parse_ies b ≢ err stuck
unfolding parse_ies
parse_ies-ne-stuck b = parse_loop-ne-stuck (length b) b (omega arith)

take-IsByte : (n : ℕ) (b : List ℕ) → All IsByte b → All IsByte (take n b)
take-IsByte zero b h = tt
take-IsByte (suc n) [] h = tt
take-IsByte (suc n) (x ∷ b) h = (h.0, take-IsByte n b h.1)

drop-IsByte : (n : ℕ) (b : List ℕ) → All IsByte b → All IsByte (drop n b)
drop-IsByte zero b h = h
drop-IsByte (suc n) [] h = tt
drop-IsByte (suc n) (x ∷ b) h = drop-IsByte n b h.1

parsed : ℕ → ℕ → ℕ → List ℕ → Ie
parsed typ size inst rest = record { typ = typ; inst = bit_and inst 0x0f; value = take size rest }

parsed-IsWire :
    (typ hi lo inst : ℕ) (rest : List ℕ)
    → All IsByte (typ ∷ hi ∷ lo ∷ inst ∷ rest)
    → IsWire (parsed typ (u16_of hi lo) inst rest)
unfolding parsed
parsed-IsWire typ hi lo inst rest (t, (h, (l, (i, r)))) = record {
  typ_byte = t;
  inst_nibble = omega (arith, low_nibble inst i);
  value_bytes = take-IsByte (u16_of hi lo) rest r;
  value_length = omega (arith, length-take (u16_of hi lo) rest);
}

-- The elements fit the wire format, and their encoding is as long as the input.
abbrev Faithful : List ℕ → List Ie → Type 0
Faithful b ies = All IsWire ies × (length (marshal_all ies) ≡ length b)

parsed-Faithful :
    (typ hi lo inst : ℕ) (rest : List ℕ) (more : List Ie)
    → All IsByte (typ ∷ hi ∷ lo ∷ inst ∷ rest)
    → u16_of hi lo ≤ length rest
    → Faithful (drop (u16_of hi lo) rest) more
    → Faithful (typ ∷ hi ∷ lo ∷ inst ∷ rest) (parsed typ (u16_of hi lo) inst rest ∷ more)
unfolding marshal_all parsed
parsed-Faithful typ hi lo inst rest more w fits (wire, len) = (
  (parsed-IsWire typ hi lo inst rest w, wire),
  omega (
    arith,
    length-append (marshal (parsed typ (u16_of hi lo) inst rest)) (marshal_all more),
    length-marshal (parsed typ (u16_of hi lo) inst rest),
    length-take (u16_of hi lo) rest,
    length-drop (u16_of hi lo) rest,
  ),
)

nil-Faithful : Faithful [] []
unfolding marshal_all
nil-Faithful = (tt, refl)

-- What a successful parse says of its input, for any fuel.
parse_loop_ok :
    (fuel : ℕ) (b : List ℕ) (ies : List Ie)
    → All IsByte b
    → parse_loop fuel b ≡ ok ies
    → Faithful b ies
unfolding parse_loop parsed
parse_loop_ok fuel [] ies w h = subst (Faithful []) (cc h) nil-Faithful
parse_loop_ok zero (x ∷ b) ies w h = cc
parse_loop_ok (suc fuel) (typ ∷ hi ∷ lo ∷ inst ∷ rest) ies w h =
    elim (Bool-cases (ltb (length rest) (u16_of hi lo))) [
      | inl short ↦ absurd (cc (rw short at h))
      | inr fits ↦
          let (more, e, q) =
            >>=-eq-ok (parse_loop fuel (drop (u16_of hi lo) rest)) _ (rw fits at h) in
          let ih : Faithful (drop (u16_of hi lo) rest) more =
            parse_loop_ok fuel (drop (u16_of hi lo) rest) more
              (drop-IsByte (u16_of hi lo) rest w.1.1.1.1) q in
          let same : parsed typ (u16_of hi lo) inst rest ∷ more ≡ ies = cc e in
          subst (Faithful (typ ∷ hi ∷ lo ∷ inst ∷ rest)) same
            (parsed-Faithful typ hi lo inst rest more w (ground arith) ih)
    ]
parse_loop_ok (suc fuel) (a ∷ []) ies w h = cc
parse_loop_ok (suc fuel) (a ∷ c ∷ []) ies w h = cc
parse_loop_ok (suc fuel) (a ∷ c ∷ d ∷ []) ies w h = cc

-- A successful parse of bytes has read all of them into elements that fit the wire format: their
-- encoding is as long as the input, and parses to the same elements.
pub parse_ies-Faithful :
    (b : List ℕ) (ies : List Ie)
    → All IsByte b
    → parse_ies b ≡ ok ies
    → All IsWire ies
      × (length (marshal_all ies) ≡ length b)
      × (parse_ies (marshal_all ies) ≡ ok ies)
unfolding parse_ies
parse_ies-Faithful b ies w h =
    let (wire, len) = parse_loop_ok (length b) b ies w h in
    (wire, len, parse_ies-marshal_all ies wire)
