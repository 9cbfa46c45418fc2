-- ===== src/Gtpv2/Header/Reads.antt =====
-- What `ParseHeader` of internal/gtpv2/message/message.go checks, and which bytes it looks at.
use native.Mathlib.Nat.{le_trans}
use vectorcore_sgw.Common.{
  ℕ, zero, suc, ◌+◌, ◌<◌, ◌≤◌, ◌≡◌, refl, sym, ap, subst, ◌∙◌, Bool, true, false, List, [], ◌∷◌,
  ◌++◌, length, take, drop, ltb, nat_beq, nat_beq_iff, le-ltb, ltb-false, arith, Bool-cases, inl,
  inr, length-append, length-take, take-append-drop, take_all,
}
use vectorcore_sgw.Common.Bytes.{byte_at, has_bit}
use vectorcore_sgw.Common.Results.{ok}
use vectorcore_sgw.Gtpv2.Header.{
  Header, version_of, min_header_size, read_header, read_with_teid, read_without_teid, bound_body,
  parse_header,
}

-- Everything that the early returns of `ParseHeader` rule out.
pub record Accepted (b : List ℕ) (h : Header) (body : List ℕ) : Type 0 where
  pub version : version_of (byte_at b 0) ≡ 2
  pub complete : min_header_size (has_bit (byte_at b 0) 0x08) ≤ length b
  pub header : h ≡ read_header b
  pub size : min_header_size h.has_teid ≤ 4 + h.len
  pub fits : 4 + h.len ≤ length b
  pub bounded : body ≡ drop (min_header_size h.has_teid) (take (4 + h.len) b)

bound_body_ok :
    (h : Header) (b : List ℕ) {r : Header × List ℕ}
    → bound_body h b ≡ ok r
    → (r ≡ (h, drop (min_header_size h.has_teid) (take (4 + h.len) b)))
      × (min_header_size h.has_teid ≤ 4 + h.len)
      × (4 + h.len ≤ length b)
unfolding bound_body
bound_body_ok h b e = elim (Bool-cases (ltb (4 + h.len) (min_header_size h.has_teid))) [
  | inl small ↦ absurd (cc (rw small at e))
  | inr large ↦ elim (Bool-cases (ltb (length b) (4 + h.len))) [
    | inl short ↦ absurd (cc (rw (large, short) at e))
    | inr enough ↦ (cc (rw (large, enough) at e), ground (arith, large), ground (arith, enough))
  ]
]

parse_header_ok :
    (b : List ℕ) {r : Header × List ℕ}
    → parse_header b ≡ ok r
    → (version_of (byte_at b 0) ≡ 2)
      × (min_header_size (has_bit (byte_at b 0) 0x08) ≤ length b)
      × (bound_body (read_header b) b ≡ ok r)
unfolding parse_header
parse_header_ok b e = elim (Bool-cases (ltb (length b) 8)) [
  | inl short ↦ absurd (cc (rw short at e))
  | inr eight ↦ elim (Bool-cases (nat_beq (version_of (byte_at b 0)) 2)) [
    | inr other ↦ absurd (cc (rw (eight, other) at e))
    | inl two ↦ elim (Bool-cases (ltb (length b) (min_header_size (has_bit (byte_at b 0) 0x08)))) [
      | inl cut ↦ absurd (cc (rw (eight, two, cut) at e))
      | inr whole ↦ (
        (nat_beq_iff (version_of (byte_at b 0)) 2).0 two,
        ltb-false _ _ whole,
        rw (eight, two, whole) at e,
      )
    ]
  ]
]

-- Without an error the header is complete, of version 2, and the declared length holds the header and
-- is held by the input; the body is what lies between.
pub parse_header-Accepted :
    (b : List ℕ) (h : Header) (body : List ℕ) → parse_header b ≡ ok (h, body) → Accepted b h body
parse_header-Accepted b h body e =
    let (v, w, e') = parse_header_ok b e in
    let (r, s, f) = bound_body_ok (read_header b) b e' in
    let same : h ≡ read_header b = cc r in
    record {
      version = v;
      complete = w;
      header = same;
      size = rw same s;
      fits = rw same f;
      bounded = rw same (cc r);
    }

bound_body-Accepted :
    (h : Header) (b body : List ℕ)
    → min_header_size h.has_teid ≤ 4 + h.len
    → 4 + h.len ≤ length b
    → body ≡ drop (min_header_size h.has_teid) (take (4 + h.len) b)
    → bound_body h b ≡ ok (h, body)
unfolding bound_body
bound_body-Accepted h b body s f e =
    rw (le-ltb (4 + h.len) (min_header_size h.has_teid) s, le-ltb (length b) (4 + h.len) f, e)

min_header_size_bound : (t : Bool) → 8 ≤ min_header_size t
min_header_size_bound true = omega arith
min_header_size_bound false = omega arith

-- The other direction: these checks are all that the function makes.
pub Accepted-parse_header :
    (b : List ℕ) (h : Header) (body : List ℕ) → Accepted b h body → parse_header b ≡ ok (h, body)
unfolding parse_header
Accepted-parse_header b h body a =
    rw
      (
        le-ltb (length b) 8
            (le_trans (min_header_size_bound (has_bit (byte_at b 0) 0x08)) a.complete),
        (nat_beq_iff (version_of (byte_at b 0)) 2).1 a.version,
        le-ltb (length b) (min_header_size (has_bit (byte_at b 0) 0x08)) a.complete,
        ← a.header,
      )
      (bound_body-Accepted h b body a.size a.fits a.bounded)

pub byte_at-append : (b more : List ℕ) (i : ℕ) → i < length b → byte_at (b ++ more) i ≡ byte_at b i
byte_at-append [] more i h = absurd (omega arith)
byte_at-append (x ∷ b) more zero h = refl
byte_at-append (x ∷ b) more (suc i) h = byte_at-append b more i (omega arith)

read_with_teid-append :
    (b more : List ℕ) → 12 ≤ length b → read_with_teid (b ++ more) ≡ read_with_teid b
unfolding read_with_teid
read_with_teid-append b more h = rw (
  byte_at-append b more 0 (omega arith),
  byte_at-append b more 1 (omega arith),
  byte_at-append b more 2 (omega arith),
  byte_at-append b more 3 (omega arith),
  byte_at-append b more 4 (omega arith),
  byte_at-append b more 5 (omega arith),
  byte_at-append b more 6 (omega arith),
  byte_at-append b more 7 (omega arith),
  byte_at-append b more 8 (omega arith),
  byte_at-append b more 9 (omega arith),
  byte_at-append b more 10 (omega arith),
  byte_at-append b more 11 (omega arith),
)

read_without_teid-append :
    (b more : List ℕ) → 8 ≤ length b → read_without_teid (b ++ more) ≡ read_without_teid b
unfolding read_without_teid
read_without_teid-append b more h = rw (
  byte_at-append b more 0 (omega arith),
  byte_at-append b more 1 (omega arith),
  byte_at-append b more 2 (omega arith),
  byte_at-append b more 3 (omega arith),
  byte_at-append b more 4 (omega arith),
  byte_at-append b more 5 (omega arith),
  byte_at-append b more 6 (omega arith),
)

-- The reads stay within a header that is complete.
read_header-append :
    (b more : List ℕ)
    → min_header_size (has_bit (byte_at b 0) 0x08) ≤ length b
    → read_header (b ++ more) ≡ read_header b
unfolding read_header
read_header-append b more k =
    let eight : 8 ≤ length b = le_trans (min_header_size_bound (has_bit (byte_at b 0) 0x08)) k in
    rw (byte_at-append b more 0 (omega arith)) (elim (Bool-cases (has_bit (byte_at b 0) 0x08)) [
      | inl teid ↦ rw teid (read_with_teid-append b more (rw teid at k))
      | inr plain ↦ rw plain (read_without_teid-append b more eight)
    ])

take-append_le : (n : ℕ) (b more : List ℕ) → n ≤ length b → take n (b ++ more) ≡ take n b
take-append_le zero b more h = refl
take-append_le (suc n) [] more h = absurd (omega arith)
take-append_le (suc n) (x ∷ b) more h = ap (◌∷◌ x) (take-append_le n b more (omega arith))

-- Bytes behind an accepted message change nothing.
pub parse_header-append :
    (b more : List ℕ) (h : Header) (body : List ℕ)
    → parse_header b ≡ ok (h, body)
    → parse_header (b ++ more) ≡ ok (h, body)
parse_header-append b more h body e =
    let a : Accepted b h body = parse_header-Accepted b h body e in
    let eight : 8 ≤ length b =
      le_trans (min_header_size_bound (has_bit (byte_at b 0) 0x08)) a.complete in
    let first : byte_at (b ++ more) 0 ≡ byte_at b 0 = byte_at-append b more 0 (omega arith) in
    Accepted-parse_header (b ++ more) h body (record {
      version = rw first a.version;
      complete = rw first (le_trans a.complete (omega (arith, length-append b more)));
      header = a.header ∙ sym (read_header-append b more a.complete);
      size = a.size;
      fits = omega (arith, a.fits, length-append b more);
      bounded =
          a.bounded
          ∙ ap (drop (min_header_size h.has_teid)) (sym (take-append_le (4 + h.len) b more a.fits));
    })

read_header-has_teid : (b : List ℕ) → (read_header b).has_teid ≡ has_bit (byte_at b 0) 0x08
unfolding read_header read_with_teid read_without_teid
read_header-has_teid b = elim (Bool-cases (has_bit (byte_at b 0) 0x08)) [
  | inl teid ↦ rw teid
  | inr plain ↦ rw plain
]

-- Nor does the message need them: what the declared length bounds is accepted by itself.
pub parse_header-take :
    (b : List ℕ) (h : Header) (body : List ℕ)
    → parse_header b ≡ ok (h, body)
    → parse_header (take (4 + h.len) b) ≡ ok (h, body)
parse_header-take b h body e =
    let a : Accepted b h body = parse_header-Accepted b h body e in
    let raw : List ℕ = take (4 + h.len) b in
    let split : raw ++ drop (4 + h.len) b ≡ b = take-append-drop (4 + h.len) b in
    let long : length raw ≡ 4 + h.len = omega (arith, length-take (4 + h.len) b, a.fits) in
    let teid : h.has_teid ≡ has_bit (byte_at b 0) 0x08 =
      ap (λ x. x.has_teid) a.header ∙ read_header-has_teid b in
    let eight : 8 ≤ 4 + h.len = le_trans (min_header_size_bound h.has_teid) a.size in
    let first : byte_at b 0 ≡ byte_at raw 0 =
      subst (λ x. byte_at x 0 ≡ byte_at raw 0) split
        (byte_at-append raw (drop (4 + h.len) b) 0 (omega (arith, eight, long))) in
    let complete : min_header_size (has_bit (byte_at raw 0) 0x08) ≤ length raw =
      rw (← first, ← teid, long) a.size in
    Accepted-parse_header raw h body (record {
      version = rw (← first) a.version;
      complete = complete;
      header =
          a.header
          ∙ subst (λ x. read_header x ≡ read_header raw) split
              (read_header-append raw (drop (4 + h.len) b) complete);
      size = a.size;
      fits = omega (arith, long);
      bounded =
          a.bounded
          ∙ ap (drop (min_header_size h.has_teid))
              (sym (take_all (4 + h.len) raw (omega (arith, long))));
    })
