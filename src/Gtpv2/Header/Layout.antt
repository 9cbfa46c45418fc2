-- ===== src/Gtpv2/Header/Layout.antt =====
-- What the octets of a message are, and that `ParseHeader` of internal/gtpv2/message/message.go reads
-- them so.
use Prim.Native.Nat.{bit_and}
use vectorcore_sgw.Common.{
  ℕ, suc, ◌+◌, ◌*◌, ◌-◌, ◌/◌, ◌≤◌, ◌≡◌, ◌↔◌, refl, sym, ap, subst, ◌∙◌, true, false, List, [], ◌∷◌,
  ◌++◌, length, take, drop, arith, Bool-cases, inl, inr, length-append, length-take, take-append,
  take-append-drop, if◌then◌else◌,
}
use vectorcore_sgw.Common.Bytes.{byte_at, has_bit}
use vectorcore_sgw.Common.Results.{ok}
use vectorcore_sgw.Gtpv2.Header.{
  Header, version_of, min_header_size, read_header, read_with_teid, read_without_teid, parse_header,
}
use vectorcore_sgw.Gtpv2.Header.Reads.{Accepted, parse_header-Accepted, Accepted-parse_header}

-- The fields in the octets of a header of version 2: octets 3 and 4 are the length, and the first octet
-- has P in bit 0x10, T in 0x08 and MP in 0x04. With T, a TEID of four octets comes before the sequence
-- number of three, and where MP is set the last octet has the message priority in its upper half.
abbrev pub fields_with_teid : ℕ → ℕ → ℕ → ℕ → ℕ → ℕ → ℕ → ℕ → ℕ → ℕ → ℕ → ℕ → Header
fields_with_teid first typ l1 l0 t3 t2 t1 t0 s2 s1 s0 last = record {
  version = 2;
  piggy_backed = has_bit first 0x10;
  has_teid = true;
  mp = has_bit first 0x04;
  message_priority = if has_bit first 0x04 then last / 16 else 0;
  message_type = typ;
  len = l1 * 256 + l0;
  teid = ((t3 * 256 + t2) * 256 + t1) * 256 + t0;
  sequence_number = (s2 * 256 + s1) * 256 + s0;
}

abbrev pub fields_without_teid : ℕ → ℕ → ℕ → ℕ → ℕ → ℕ → ℕ → ℕ → Header
fields_without_teid first typ l1 l0 s2 s1 s0 last = record {
  version = 2;
  piggy_backed = has_bit first 0x10;
  has_teid = false;
  mp = false;
  message_priority = 0;
  message_type = typ;
  len = l1 * 256 + l0;
  teid = 0;
  sequence_number = (s2 * 256 + s1) * 256 + s0;
}

-- The octets of a message: a header, whose length declares what follows its fourth octet, the body, and
-- whatever comes behind the message.
pub data IsMessage (b : List ℕ) (h : Header) (body : List ℕ) : Type 0 where
  with_teid :
      (first typ l1 l0 t3 t2 t1 t0 s2 s1 s0 last : ℕ) (rest : List ℕ)
      → b ≡ first ∷ typ ∷ l1 ∷ l0 ∷ t3 ∷ t2 ∷ t1 ∷ t0 ∷ s2 ∷ s1 ∷ s0 ∷ last ∷ (body ++ rest)
      → bit_and (first / 32) 7 ≡ 2
      → has_bit first 0x08 ≡ true
      → l1 * 256 + l0 ≡ 8 + length body
      → h ≡ fields_with_teid first typ l1 l0 t3 t2 t1 t0 s2 s1 s0 last
      → IsMessage b h body
  without_teid :
      (first typ l1 l0 s2 s1 s0 last : ℕ) (rest : List ℕ)
      → b ≡ first ∷ typ ∷ l1 ∷ l0 ∷ s2 ∷ s1 ∷ s0 ∷ last ∷ (body ++ rest)
      → bit_and (first / 32) 7 ≡ 2
      → has_bit first 0x08 ≡ false
      → l1 * 256 + l0 ≡ 4 + length body
      → h ≡ fields_without_teid first typ l1 l0 s2 s1 s0 last
      → IsMessage b h body

layout_with_teid :
    (b : List ℕ) (h : Header) (body : List ℕ)
    → 12 ≤ length b
    → has_bit (byte_at b 0) 0x08 ≡ true
    → Accepted b h body
    → IsMessage b h body
unfolding read_header read_with_teid
layout_with_teid [] h body long t a = absurd (omega arith)
layout_with_teid (first ∷ []) h body long t a = absurd (omega arith)
layout_with_teid (first ∷ typ ∷ []) h body long t a = absurd (omega arith)
layout_with_teid (first ∷ typ ∷ l1 ∷ []) h body long t a = absurd (omega arith)
layout_with_teid (first ∷ typ ∷ l1 ∷ l0 ∷ []) h body long t a = absurd (omega arith)
layout_with_teid (first ∷ typ ∷ l1 ∷ l0 ∷ t3 ∷ []) h body long t a = absurd (omega arith)
layout_with_teid (first ∷ typ ∷ l1 ∷ l0 ∷ t3 ∷ t2 ∷ []) h body long t a = absurd (omega arith)
layout_with_teid (first ∷ typ ∷ l1 ∷ l0 ∷ t3 ∷ t2 ∷ t1 ∷ []) h body long t a = absurd (omega arith)
layout_with_teid (first ∷ typ ∷ l1 ∷ l0 ∷ t3 ∷ t2 ∷ t1 ∷ t0 ∷ []) h body long t a =
    absurd (omega arith)
layout_with_teid (first ∷ typ ∷ l1 ∷ l0 ∷ t3 ∷ t2 ∷ t1 ∷ t0 ∷ s2 ∷ []) h body long t a =
    absurd (omega arith)
layout_with_teid (first ∷ typ ∷ l1 ∷ l0 ∷ t3 ∷ t2 ∷ t1 ∷ t0 ∷ s2 ∷ s1 ∷ []) h body long t a =
    absurd (omega arith)
layout_with_teid (first ∷ typ ∷ l1 ∷ l0 ∷ t3 ∷ t2 ∷ t1 ∷ t0 ∷ s2 ∷ s1 ∷ s0 ∷ []) h body long t a =
    absurd (omega arith)
layout_with_teid (first ∷ typ ∷ l1 ∷ l0 ∷ t3 ∷ t2 ∷ t1 ∷ t0 ∷ s2 ∷ s1 ∷ s0 ∷ last ∷ tail) h body
      long t a =
    let fields : h ≡ record (fields_with_teid first typ l1 l0 t3 t2 t1 t0 s2 s1 s0 last) {
      version = version_of first;
    } =
      rw t at a.header in
    let size : 12 ≤ 4 + h.len =
      subst (λ c. min_header_size c ≤ 4 + h.len) (ap (λ (x : Header). x.has_teid) fields) a.size in
    let n : ℕ = h.len - 8 in
    let declared : 4 + h.len
        ≡ suc (suc (suc (suc (suc (suc (suc (suc (suc (suc (suc (suc (n)))))))))))) =
      omega (arith, size) in
    let cut : body ≡ take n tail =
      a.bounded
      ∙ ap
          (λ c. drop (min_header_size c) (
            take (4 + h.len)
              (first ∷ typ ∷ l1 ∷ l0 ∷ t3 ∷ t2 ∷ t1 ∷ t0 ∷ s2 ∷ s1 ∷ s0 ∷ last ∷ tail)))
          (ap (λ (x : Header). x.has_teid) fields)
      ∙ ap
          (λ m.
            drop 12
              (take m (first ∷ typ ∷ l1 ∷ l0 ∷ t3 ∷ t2 ∷ t1 ∷ t0 ∷ s2 ∷ s1 ∷ s0 ∷ last ∷ tail)))
          declared in
    let whole : body ++ drop n tail ≡ tail =
      ap (λ x. x ++ drop n tail) cut ∙ take-append-drop n tail in
    with_teid first typ l1 l0 t3 t2 t1 t0 s2 s1 s0 last (drop n tail)
      (ap (λ x. first ∷ typ ∷ l1 ∷ l0 ∷ t3 ∷ t2 ∷ t1 ∷ t0 ∷ s2 ∷ s1 ∷ s0 ∷ last ∷ x) (sym whole))
      a.version t
      (sym (ap (λ (x : Header). x.len) fields)
        ∙ omega (arith, a.fits, declared, size, ap length cut, length-take n tail))
      (subst
        (λ v.
          h ≡ record (fields_with_teid first typ l1 l0 t3 t2 t1 t0 s2 s1 s0 last) { version = v })
        a.version fields)

sized_with_teid :
    (body : List ℕ) (n : ℕ)
    → n ≡ 8 + length body
    → suc (suc (suc (suc (suc (suc (suc (suc (suc (suc (suc (suc (length body)))))))))))) ≡ 4 + n
sized_with_teid body n e = omega (arith, e)

with_teid-Accepted :
    (first typ l1 l0 t3 t2 t1 t0 s2 s1 s0 last : ℕ) (rest body : List ℕ)
    → bit_and (first / 32) 7 ≡ 2
    → has_bit first 0x08 ≡ true
    → l1 * 256 + l0 ≡ 8 + length body
    → Accepted
        (first ∷ typ ∷ l1 ∷ l0 ∷ t3 ∷ t2 ∷ t1 ∷ t0 ∷ s2 ∷ s1 ∷ s0 ∷ last ∷ (body ++ rest))
        (fields_with_teid first typ l1 l0 t3 t2 t1 t0 s2 s1 s0 last)
        body
unfolding read_header read_with_teid
with_teid-Accepted first typ l1 l0 t3 t2 t1 t0 s2 s1 s0 last rest body v t declared = record {
  version = v;
  complete = rw t (omega (arith, length-append body rest));
  header = rw (t, v) refl;
  size = omega (arith, declared);
  fits = omega (arith, declared, length-append body rest);
  bounded =
      sym (take-append body rest)
      ∙ ap
          (λ m. drop 12 (
            take m
              (first ∷ typ ∷ l1 ∷ l0 ∷ t3 ∷ t2 ∷ t1 ∷ t0 ∷ s2 ∷ s1 ∷ s0 ∷ last ∷ (body ++ rest))))
          (sized_with_teid body (l1 * 256 + l0) declared);
}

layout_without_teid :
    (b : List ℕ) (h : Header) (body : List ℕ)
    → 8 ≤ length b
    → has_bit (byte_at b 0) 0x08 ≡ false
    → Accepted b h body
    → IsMessage b h body
unfolding read_header read_without_teid
layout_without_teid [] h body long t a = absurd (omega arith)
layout_without_teid (first ∷ []) h body long t a = absurd (omega arith)
layout_without_teid (first ∷ typ ∷ []) h body long t a = absurd (omega arith)
layout_without_teid (first ∷ typ ∷ l1 ∷ []) h body long t a = absurd (omega arith)
layout_without_teid (first ∷ typ ∷ l1 ∷ l0 ∷ []) h body long t a = absurd (omega arith)
layout_without_teid (first ∷ typ ∷ l1 ∷ l0 ∷ s2 ∷ []) h body long t a = absurd (omega arith)
layout_without_teid (first ∷ typ ∷ l1 ∷ l0 ∷ s2 ∷ s1 ∷ []) h body long t a = absurd (omega arith)
layout_without_teid (first ∷ typ ∷ l1 ∷ l0 ∷ s2 ∷ s1 ∷ s0 ∷ []) h body long t a =
    absurd (omega arith)
layout_without_teid (first ∷ typ ∷ l1 ∷ l0 ∷ s2 ∷ s1 ∷ s0 ∷ last ∷ tail) h body long t a =
    let fields : h ≡ record (fields_without_teid first typ l1 l0 s2 s1 s0 last) {
      version = version_of first;
    } =
      rw t at a.header in
    let size : 8 ≤ 4 + h.len =
      subst (λ c. min_header_size c ≤ 4 + h.len) (ap (λ (x : Header). x.has_teid) fields) a.size in
    let n : ℕ = h.len - 4 in
    let declared : 4 + h.len ≡ suc (suc (suc (suc (suc (suc (suc (suc (n)))))))) =
      omega (arith, size) in
    let cut : body ≡ take n tail =
      a.bounded
      ∙ ap
          (λ c.
            drop (min_header_size c)
              (take (4 + h.len) (first ∷ typ ∷ l1 ∷ l0 ∷ s2 ∷ s1 ∷ s0 ∷ last ∷ tail)))
          (ap (λ (x : Header). x.has_teid) fields)
      ∙ ap (λ m. drop 8 (take m (first ∷ typ ∷ l1 ∷ l0 ∷ s2 ∷ s1 ∷ s0 ∷ last ∷ tail))) declared in
    let whole : body ++ drop n tail ≡ tail =
      ap (λ x. x ++ drop n tail) cut ∙ take-append-drop n tail in
    without_teid first typ l1 l0 s2 s1 s0 last (drop n tail)
      (ap (λ x. first ∷ typ ∷ l1 ∷ l0 ∷ s2 ∷ s1 ∷ s0 ∷ last ∷ x) (sym whole)) a.version t
      (sym (ap (λ (x : Header). x.len) fields)
        ∙ omega (arith, a.fits, declared, size, ap length cut, length-take n tail))
      (subst (λ v. h ≡ record (fields_without_teid first typ l1 l0 s2 s1 s0 last) { version = v })
        a.version fields)

sized_without_teid :
    (body : List ℕ) (n : ℕ)
    → n ≡ 4 + length body
    → suc (suc (suc (suc (suc (suc (suc (suc (length body)))))))) ≡ 4 + n
sized_without_teid body n e = omega (arith, e)

without_teid-Accepted :
    (first typ l1 l0 s2 s1 s0 last : ℕ) (rest body : List ℕ)
    → bit_and (first / 32) 7 ≡ 2
    → has_bit first 0x08 ≡ false
    → l1 * 256 + l0 ≡ 4 + length body
    → Accepted
        (first ∷ typ ∷ l1 ∷ l0 ∷ s2 ∷ s1 ∷ s0 ∷ last ∷ (body ++ rest))
        (fields_without_teid first typ l1 l0 s2 s1 s0 last)
        body
unfolding read_header read_without_teid
without_teid-Accepted first typ l1 l0 s2 s1 s0 last rest body v t declared = record {
  version = v;
  complete = rw t (omega (arith, length-append body rest));
  header = rw (t, v) refl;
  size = omega (arith, declared);
  fits = omega (arith, declared, length-append body rest);
  bounded =
      sym (take-append body rest)
      ∙ ap (λ m. drop 8 (take m (first ∷ typ ∷ l1 ∷ l0 ∷ s2 ∷ s1 ∷ s0 ∷ last ∷ (body ++ rest))))
          (sized_without_teid body (l1 * 256 + l0) declared);
}

Accepted-IsMessage :
    (b : List ℕ) (h : Header) (body : List ℕ) → Accepted b h body → IsMessage b h body
Accepted-IsMessage b h body a = elim (Bool-cases (has_bit (byte_at b 0) 0x08)) [
  | inl t ↦ layout_with_teid b h body (rw t at a.complete) t a
  | inr t ↦ layout_without_teid b h body (rw t at a.complete) t a
]

IsMessage-Accepted :
    (b : List ℕ) (h : Header) (body : List ℕ) → IsMessage b h body → Accepted b h body
IsMessage-Accepted b h body
      (with_teid first typ l1 l0 t3 t2 t1 t0 s2 s1 s0 last rest eb v t declared eh) =
    rw (eb, eh)
      (with_teid-Accepted first typ l1 l0 t3 t2 t1 t0 s2 s1 s0 last rest body v t declared)
IsMessage-Accepted b h body (without_teid first typ l1 l0 s2 s1 s0 last rest eb v t declared eh) =
    rw (eb, eh) (without_teid-Accepted first typ l1 l0 s2 s1 s0 last rest body v t declared)

-- `ParseHeader` returns a header and a body exactly for the octets of a message of version 2 with these
-- fields, whose declared length ends the body, whatever comes behind it. Any other input is an error.
pub parse_header_exact :
    (b : List ℕ) (h : Header) (body : List ℕ) → (parse_header b ≡ ok (h, body)) ↔ IsMessage b h body
parse_header_exact b h body = (
  λ e. Accepted-IsMessage b h body (parse_header-Accepted b h body e),
  λ m. Accepted-parse_header b h body (IsMessage-Accepted b h body m),
)
