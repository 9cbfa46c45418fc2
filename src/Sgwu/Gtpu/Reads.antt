-- ===== src/Sgwu/Gtpu/Reads.antt =====
-- internal/sgwu/gtpu/header.go: what `Parse` has read when it returns a header.
use vectorcore_sgw.Common.{
  ℕ, suc, ◌+◌, ◌-◌, ◌≤◌, ◌≡◌, ◌≢◌, refl, subst, true, not, ◌&&◌, List, [], length, take, drop, ltb,
  nat_beq, arith, inl, inr, Bool-cases, length-take, length-drop,
}
use vectorcore_sgw.Common.Bytes.{byte_at, has_bit}
use vectorcore_sgw.Common.Results.{Result, ok, err, >>=-eq-ok, >>=-eq-err}
use vectorcore_sgw.Sgwu.Gtpu.{
  Header, ParseError, stuck, packet_too_short, unsupported_version, not_gtp_u,
  declared_exceeds_received, has_opt_fields, wire_len, version_of, fixed_fields, optional_fields,
  walk, with_extensions, parse_extensions, parse_optional, parse,
}
use vectorcore_sgw.Sgwu.Gtpu.Walk.{walk-bounds, walk-ne-stuck}

-- The octets in front of the payload: as many as `WireLen` tells, within the declared length, which
-- is within the packet.
pub record Within (b : List ℕ) (h : Header) (n : ℕ) : Type 0 where
  pub as_wire_len : wire_len h ≡ n
  pub in_declared : n ≤ 8 + h.len
  pub in_packet : 8 + h.len ≤ length b

without_chain :
    (h : Header) (b : List ℕ)
    → has_opt_fields h ≡ true
    → h.ext_headers ≡ []
    → 12 ≤ 8 + h.len
    → 8 + h.len ≤ length b
    → Within b h 12
unfolding wire_len
without_chain h b flagged no_ext room fits = record {
  as_wire_len = rw (flagged, no_ext) refl;
  in_declared = room;
  in_packet = fits;
}

with_chain :
    (h : Header) (b : List ℕ) (end : ℕ)
    → has_opt_fields h ≡ true
    → h.ext_headers ≡ []
    → 8 + h.len ≤ length b
    → 12 ≤ end
    → end ≤ 8 + h.len
    → Within b (with_extensions h b end) end
unfolding wire_len has_opt_fields
with_chain h b end flagged no_ext fits low high = elim (Bool-cases (ltb 12 end)) [
  | inl longer ↦
      let copied : length (take (end - 12) (drop 12 b)) ≡ end - 12 =
        omega (arith, length-take (end - 12) (drop 12 b), length-drop 12 b) in
      rw longer (record {
        as_wire_len = rw (flagged, copied) (omega arith);
        in_declared = high;
        in_packet = fits;
      })
  | inr empty ↦
      let twelve : 12 ≡ end = ground (arith, empty) in
      rw (empty, ← twelve) (without_chain h b flagged no_ext (omega arith) fits)
]

pair_Within :
    (b : List ℕ) (h h' : Header) (n n' : ℕ)
    → Path (Result ParseError (Header × ℕ)) (ok (h, n)) (ok (h', n'))
    → Within b h n
    → Within b h' n'
pair_Within b h h' n n' e w =
    let same : Path (Header × ℕ) (h, n) (h', n') = cc e in
    subst (λ (p : Header × ℕ). Within b p.0 p.1) same w

extensions_read :
    (h : Header) (b : List ℕ) (h' : Header) (n : ℕ)
    → has_opt_fields h ≡ true
    → h.ext_headers ≡ []
    → 12 ≤ 8 + h.len
    → 8 + h.len ≤ length b
    → parse_extensions h b (8 + h.len) ≡ ok (h', n)
    → Within b h' n
unfolding parse_extensions
extensions_read h b h' n flagged no_ext room fits e =
    elim (Bool-cases (h.e && not (nat_beq h.next_ext_hdr 0))) [
      | inr none_next ↦
          pair_Within b h h' 12 n (rw none_next at e) (without_chain h b flagged no_ext room fits)
      | inl some_next ↦
          let (end, read, walked) =
            >>=-eq-ok (walk (suc (length b)) b 12 (8 + h.len) h.next_ext_hdr) _
              (rw some_next at e) in
          let (low, high) =
            walk-bounds (suc (length b)) b 12 (8 + h.len) h.next_ext_hdr end room walked in
          pair_Within b (with_extensions h b end) h' end n read
            (with_chain h b end flagged no_ext fits low high)
    ]

optional_read :
    (b : List ℕ) (h' : Header) (n : ℕ)
    → 8 + (fixed_fields b).len ≤ length b
    → parse_optional (fixed_fields b) b ≡ ok (h', n)
    → Within b h' n
unfolding parse_optional fixed_fields optional_fields wire_len has_opt_fields
optional_read b h' n fits e = elim (Bool-cases (has_opt_fields (fixed_fields b))) [
  | inr plain ↦
      pair_Within b (fixed_fields b) h' 8 n (rw plain at e)
        (record { as_wire_len = rw plain refl; in_declared = omega arith; in_packet = fits })
  | inl flagged ↦ elim (Bool-cases (ltb (length b) 12)) [
    | inl short ↦ absurd (cc (rw (flagged, short) at e))
    | inr long ↦ elim (Bool-cases (ltb (8 + (fixed_fields b).len) 12)) [
      | inl small ↦ absurd (cc (rw (flagged, long, small) at e))
      | inr room ↦
          extensions_read (optional_fields (fixed_fields b) b) b h' n flagged refl
            (ground (arith, room)) fits (rw (flagged, long, room) at e)
    ]
  ]
]

-- What the tests at the start of `Parse` lead to.
data Guarded (b : List ℕ) : Result ParseError (Header × ℕ) → Type 0 where
  turned_down : (e : ParseError) → e ≢ stuck → Guarded b (err e)
  goes_on : 8 + (fixed_fields b).len ≤ length b → Guarded b (parse_optional (fixed_fields b) b)

guards : (b : List ℕ) → Guarded b (parse b)
unfolding parse
guards b = elim (Bool-cases (ltb (length b) 8)) [
  | inl short ↦ rw short (turned_down (packet_too_short (length b)) (λ e. cc))
  | inr long ↦ elim (Bool-cases (nat_beq (version_of (byte_at b 0)) 1)) [
    | inr other ↦
        rw (long, other) (turned_down (unsupported_version (version_of (byte_at b 0))) (λ e. cc))
    | inl one ↦ elim (Bool-cases (has_bit (byte_at b 0) 0x10)) [
      | inr prime ↦ rw (long, one, prime) (turned_down not_gtp_u (λ e. cc))
      | inl gtp ↦ elim (Bool-cases (ltb (length b) (8 + (fixed_fields b).len))) [
        | inl cut ↦
            rw (long, one, gtp, cut)
              (turned_down (declared_exceeds_received (fixed_fields b).len (length b)) (λ e. cc))
        | inr fits ↦ rw (long, one, gtp, fits) (goes_on (ground (arith, fits)))
      ]
    ]
  ]
]

-- When `Parse` returns a header and a number of octets, the packet holds the declared length behind
-- its eight octets, that length holds everything that was read, and the number is what `WireLen`
-- tells of the header that is returned, extension headers included.
pub parse-Within : (b : List ℕ) (h : Header) (n : ℕ) → parse b ≡ ok (h, n) → Within b h n
parse-Within b h n e = by_guards (parse b) (guards b) e
  where
    by_guards : (r : Result ParseError (Header × ℕ)) → Guarded b r → r ≡ ok (h, n) → Within b h n
    by_guards _ (turned_down x t) e = absurd (cc e)
    by_guards _ (goes_on fits) e = optional_read b h n fits e

extensions-ne-stuck :
    (h : Header) (b : List ℕ)
    → 12 ≤ 8 + h.len
    → 8 + h.len ≤ length b
    → parse_extensions h b (8 + h.len) ≢ err stuck
unfolding parse_extensions
extensions-ne-stuck h b room fits e = elim (Bool-cases (h.e && not (nat_beq h.next_ext_hdr 0))) [
  | inr none_next ↦ cc (rw none_next at e)
  | inl some_next ↦
      elim (>>=-eq-err (walk (suc (length b)) b 12 (8 + h.len) h.next_ext_hdr) _
        (rw some_next at e)) [
          | inl out ↦
              walk-ne-stuck (suc (length b)) b 12 (8 + h.len) h.next_ext_hdr room (omega arith) out
          | inr read ↦ cc read.2
        ]
]

optional-ne-stuck :
    (b : List ℕ)
    → 8 + (fixed_fields b).len ≤ length b
    → parse_optional (fixed_fields b) b ≢ err stuck
unfolding parse_optional fixed_fields optional_fields
optional-ne-stuck b fits e = elim (Bool-cases (has_opt_fields (fixed_fields b))) [
  | inr plain ↦ cc (rw plain at e)
  | inl flagged ↦ elim (Bool-cases (ltb (length b) 12)) [
    | inl short ↦ cc (rw (flagged, short) at e)
    | inr long ↦ elim (Bool-cases (ltb (8 + (fixed_fields b).len) 12)) [
      | inl small ↦ cc (rw (flagged, long, small) at e)
      | inr room ↦
          extensions-ne-stuck (optional_fields (fixed_fields b) b) b (ground (arith, room)) fits
            (rw (flagged, long, room) at e)
    ]
  ]
]

-- The fuel of the walk is enough: `Parse` ends on every packet.
pub parse-ne-stuck : (b : List ℕ) → parse b ≢ err stuck
parse-ne-stuck b e = by_guards (parse b) (guards b) e
  where
    by_guards : (r : Result ParseError (Header × ℕ)) → Guarded b r → r ≢ err stuck
    by_guards _ (turned_down x t) e = t (cc e)
    by_guards _ (goes_on fits) e = optional-ne-stuck b fits e
