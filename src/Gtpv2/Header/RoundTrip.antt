-- ===== src/Gtpv2/Header/RoundTrip.antt =====
-- Encoding and parsing headers and messages, of internal/gtpv2/message/message.go.
use mathlib.Core.List.{append-nil}
use vectorcore_sgw.Common.{
  ℕ, ◌+◌, ◌-◌, ◌<◌, ◌≤◌, ◌^◌, ◌≡◌, ap, subst, ◌∙◌, Bool, true, false, List, [], ◌∷◌, ◌++◌, length,
  All, ltb, arith, Bool-cases, inl, inr, length-append, slice_middle,
}
use vectorcore_sgw.Common.Bytes.{byte_at, has_bit, low_nibble}
use vectorcore_sgw.Common.Results.{ok, >>=-eq-ok}
use vectorcore_sgw.Gtpv2.Ie.{Ie, IsWire, marshal_all}
use vectorcore_sgw.Gtpv2.Ie.RoundTrip.{parse_ies-marshal_all}
use vectorcore_sgw.Gtpv2.Header.{
  Header, read_with_teid, read_without_teid, read_header, bound_body, parse_header, header_flags,
  marshal_header, marshal_body, marshal_message, parse, IsCanonical, min_header_size, version_of,
}

abbrev header_of : Bool → Bool → Bool → ℕ → ℕ → ℕ → ℕ → ℕ → Header
header_of p t m prio mt n teid seq = record {
  version = 2;
  piggy_backed = p;
  has_teid = t;
  mp = m;
  message_priority = prio;
  message_type = mt;
  len = n;
  teid = teid;
  sequence_number = seq;
}

read-with_teid :
    (p m : Bool) (prio mt l n teid seq : ℕ) (body : List ℕ)
    → n + 8 < 2 ^ 16
    → prio < 16
    → (m ≡ false → prio ≡ 0)
    → teid < 2 ^ 32
    → seq < 2 ^ 24
    → read_header (marshal_header (header_of p true m prio mt l teid seq) n ++ body)
      ≡ header_of p true m prio mt (8 + n) teid seq
unfolding read_header marshal_header read_with_teid header_flags
read-with_teid true true prio mt l n teid seq body hn hp hm ht hs = ground (arith, low_nibble prio)
read-with_teid true false prio mt l n teid seq body hn hp hm ht hs = ground arith
read-with_teid false true prio mt l n teid seq body hn hp hm ht hs = ground (arith, low_nibble prio)
read-with_teid false false prio mt l n teid seq body hn hp hm ht hs = ground arith

read-without_teid :
    (p : Bool) (mt l n seq : ℕ) (body : List ℕ)
    → n + 4 < 2 ^ 16
    → seq < 2 ^ 24
    → read_header (marshal_header (header_of p false false 0 mt l 0 seq) n ++ body)
      ≡ header_of p false false 0 mt (4 + n) 0 seq
unfolding read_header marshal_header read_without_teid header_flags
read-without_teid true mt l n seq body hn hs = ground arith
read-without_teid false mt l n seq body hn hs = ground arith

-- What the tests at the start of `ParseHeader` see of an encoded header.
record Starts (has_teid : Bool) (b : List ℕ) : Type 0 where
  version : version_of (byte_at b 0) ≡ 2
  teid_flag : has_bit (byte_at b 0) 0x08 ≡ has_teid
  long : min_header_size has_teid ≤ length b

parse_header_of :
    (t : Bool) (b : List ℕ) → Starts t b → parse_header b ≡ bound_body (read_header b) b
unfolding parse_header
parse_header_of true b s = rw (s.version, s.teid_flag) (ground (arith, s.long))
parse_header_of false b s = rw (s.version, s.teid_flag) (ground (arith, s.long))

with_teid-Starts :
    (p m : Bool) (prio mt l n teid seq : ℕ) (more : List ℕ)
    → Starts true (marshal_header (header_of p true m prio mt l teid seq) n ++ more)
unfolding marshal_header header_flags
with_teid-Starts true true prio mt l n teid seq more = ground arith
with_teid-Starts true false prio mt l n teid seq more = ground arith
with_teid-Starts false true prio mt l n teid seq more = ground arith
with_teid-Starts false false prio mt l n teid seq more = ground arith

without_teid-Starts :
    (p : Bool) (mt l n seq : ℕ) (more : List ℕ)
    → Starts false (marshal_header (header_of p false false 0 mt l 0 seq) n ++ more)
unfolding marshal_header header_flags
without_teid-Starts true mt l n seq more = ground arith
without_teid-Starts false mt l n seq more = ground arith

length-marshal_header :
    (h : Header) (n : ℕ) → length (marshal_header h n) ≡ min_header_size h.has_teid
unfolding marshal_header
length-marshal_header h n = ground arith

-- The declared length bounds the body, whatever follows it.
bound_body-append :
    (h : Header) (encoded body rest : List ℕ)
    → length encoded ≡ min_header_size h.has_teid
    → 4 + h.len ≡ length encoded + length body
    → bound_body h (encoded ++ (body ++ rest)) ≡ ok (h, body)
unfolding bound_body
bound_body-append h encoded body rest size declared = rw (
  fits (4 + h.len) (min_header_size h.has_teid) (omega (arith, size)),
  fits (length (encoded ++ (body ++ rest))) (4 + h.len)
      (omega (arith, length-append encoded (body ++ rest), length-append body rest)),
  declared,
  ← size,
  slice_middle encoded body rest,
)
  where
    fits : (a b : ℕ) → b ≤ a → ltb a b ≡ false
    fits a b le = ground arith

header-with_teid :
    (p m : Bool) (prio mt l teid seq : ℕ) (body rest : List ℕ)
    → length body + 8 < 2 ^ 16
    → prio < 16
    → (m ≡ false → prio ≡ 0)
    → teid < 2 ^ 32
    → seq < 2 ^ 24
    → parse_header
        (marshal_header (header_of p true m prio mt l teid seq) (length body) ++ (body ++ rest))
      ≡ ok (header_of p true m prio mt (8 + length body) teid seq, body)
header-with_teid p m prio mt l teid seq body rest hn hp hm ht hs =
    parse_header_of true _ (with_teid-Starts p m prio mt l (length body) teid seq (body ++ rest))
    ∙ ap (λ h. bound_body h (encoded ++ (body ++ rest)))
        (read-with_teid p m prio mt l (length body) teid seq (body ++ rest) hn hp hm ht hs)
    ∙ bound_body-append (header_of p true m prio mt (8 + length body) teid seq) encoded body rest
        size (omega (arith, size))
  where
    encoded : List ℕ
    encoded = marshal_header (header_of p true m prio mt l teid seq) (length body)

    size : length encoded ≡ 12
    size = length-marshal_header (header_of p true m prio mt l teid seq) (length body)

header-without_teid :
    (p : Bool) (mt l seq : ℕ) (body rest : List ℕ)
    → length body + 4 < 2 ^ 16
    → seq < 2 ^ 24
    → parse_header
        (marshal_header (header_of p false false 0 mt l 0 seq) (length body) ++ (body ++ rest))
      ≡ ok (header_of p false false 0 mt (4 + length body) 0 seq, body)
header-without_teid p mt l seq body rest hn hs =
    parse_header_of false _ (without_teid-Starts p mt l (length body) seq (body ++ rest))
    ∙ ap (λ h. bound_body h (encoded ++ (body ++ rest)))
        (read-without_teid p mt l (length body) seq (body ++ rest) hn hs)
    ∙ bound_body-append (header_of p false false 0 mt (4 + length body) 0 seq) encoded body rest
        size (omega (arith, size))
  where
    encoded : List ℕ
    encoded = marshal_header (header_of p false false 0 mt l 0 seq) (length body)

    size : length encoded ≡ 8
    size = length-marshal_header (header_of p false false 0 mt l 0 seq) (length body)

-- The header with the length that its encoding in front of such a body declares.
abbrev pub with_length : Header → ℕ → Header
with_length h body_len = record h { len = min_header_size h.has_teid - 4 + body_len }

abbrev ReadsBack : List ℕ → List ℕ → Header → Type 0
ReadsBack body rest h =
    parse_header (marshal_header h (length body) ++ (body ++ rest))
    ≡ ok (with_length h (length body), body)

-- A canonical header, encoded for a body of up to 65535 octets with the header's own past the fourth,
-- is read back from in front of that body with the body's exact octets, whatever follows the message.
pub parse_header-marshal_header :
    (h : Header) (body rest : List ℕ)
    → IsCanonical h
    → length body + min_header_size h.has_teid - 4 < 2 ^ 16
    → parse_header (marshal_header h (length body) ++ (body ++ rest))
      ≡ ok (with_length h (length body), body)
parse_header-marshal_header h body rest c hn = elim (Bool-cases h.has_teid) [
  | inl with_teid ↦
      let fields : header_of h.piggy_backed true h.mp h.message_priority h.message_type h.len h.teid
            h.sequence_number
          ≡ h =
        ground (arith, c.version_two) in
      subst (ReadsBack body rest) fields (
        header-with_teid h.piggy_backed h.mp h.message_priority h.message_type h.len h.teid
          h.sequence_number body rest (ground arith) c.priority_nibble c.no_priority c.teid_fits
          c.sequence_fits)
  | inr without ↦
      let fields : header_of h.piggy_backed false false 0 h.message_type h.len 0 h.sequence_number
          ≡ h =
        ground (arith, c.version_two, c.no_teid without) in
      subst (ReadsBack body rest) fields (
        header-without_teid h.piggy_backed h.message_type h.len h.sequence_number body rest
          (ground arith) c.sequence_fits)
]

marshal_body-marshal_all :
    (ies : List Ie) (body : List ℕ) → marshal_body ies ≡ ok body → body ≡ marshal_all ies
unfolding marshal_body marshal_all
marshal_body-marshal_all [] body h = cc
marshal_body-marshal_all (ie ∷ ies) body h = elim (Bool-cases (ltb 65535 (length ie.value))) [
  | inl long ↦ cc (rw long at h)
  | inr fits ↦
      let (rest, e, q) = >>=-eq-ok (marshal_body ies) _ (rw fits at h) in
      rw (← marshal_body-marshal_all ies rest q) (cc e)
]

-- What `Marshal` returns without an error.
marshal_message_ok :
    (h : Header) (ies : List Ie) (b : List ℕ)
    → marshal_message h ies ≡ ok b
    → (b ≡ marshal_header h (length (marshal_all ies)) ++ marshal_all ies)
      × (length (marshal_all ies) + min_header_size h.has_teid - 4 < 2 ^ 16)
unfolding marshal_message
marshal_message_ok h ies b e =
    let (body, e', q) = >>=-eq-ok (marshal_body ies) _ e in
    let all : body ≡ marshal_all ies = marshal_body-marshal_all ies body q in
    elim (Bool-cases (ltb 65535 (length body + min_header_size h.has_teid - 4))) [
      | inl long ↦ absurd (cc (rw long at e'))
      | inr fits ↦ rw (← all) (cc (rw fits at e'), ground (arith, fits))
    ]

-- What `Marshal` returns without an error for a canonical header and elements of the wire format,
-- `Parse` reads back: the same elements, and the header with its length filled in.
pub parse-marshal_message :
    (h : Header) (ies : List Ie) (b : List ℕ)
    → IsCanonical h
    → All IsWire ies
    → marshal_message h ies ≡ ok b
    → parse b ≡ ok (with_length h (length (marshal_all ies)), ies)
unfolding parse
parse-marshal_message h ies b c w e =
    let (bytes, fits) = marshal_message_ok h ies b e in
    rw (
      bytes,
      rw (append-nil (marshal_all ies)) at
          (parse_header-marshal_header h (marshal_all ies) [] c fits),
      parse_ies-marshal_all ies w,
    )
