-- ===== src/Pfcp/Header/RoundTrip.antt =====
-- internal/pfcp/message/message.go: encoding and parsing a message.
use vectorcore_sgw.Common.{
  ℕ, ◌+◌, ◌-◌, ◌*◌, ◌/◌, ◌%◌, ◌^◌, ◌<◌, ◌≤◌, ◌≡◌, refl, ap, ◌∙◌, Bool, true, false, List, ◌++◌,
  length, All, ltb, if◌then◌else◌, arith, length-append, drop-append, take_all,
}
use vectorcore_sgw.Common.Bytes.{u32_of, u16_of_put, u24_of_put, u32_of_put}
use vectorcore_sgw.Common.Results.{ok}
use vectorcore_sgw.Pfcp.Ie.{Element, IsWire, marshal_all}
use vectorcore_sgw.Pfcp.Ie.Exact.{parse_marshalled}
use vectorcore_sgw.Pfcp.Header.{
  Header, IsCanonical, body_start, read_session, read_node, bound_body, parse_header,
  marshal_header, marshal_session_header, marshal_message, parse,
}

-- The header with the length that its encoding in front of such a body declares.
abbrev pub with_length : Header → ℕ → Header
with_length h body_len = record h { len = body_start h.has_seid - 4 + body_len }

ge-ltb : (a b : ℕ) → b ≤ a → ltb a b ≡ false
ge-ltb a b h = ground arith

bound_body-append :
    (h : Header) (first body : List ℕ)
    → length first ≡ body_start h.has_seid
    → 4 + h.len ≡ body_start h.has_seid + length body
    → bound_body h (first ++ body) ≡ ok (h, body)
unfolding bound_body
bound_body-append h first body size declared =
    let total : length (first ++ body) ≡ 4 + h.len =
      omega (arith, length-append first body, size, declared) in
    rw
      (
        ge-ltb (4 + h.len) (body_start h.has_seid) (omega (arith, declared)),
        ge-ltb (length (first ++ body)) (4 + h.len) (omega (arith, total)),
      )
      (ap (λ t. ok (h, t))
        (rw (take_all (4 + h.len) (first ++ body) (omega (arith, total)), ← size)
          (drop-append first body)))

u64_of_put :
    (v : ℕ)
    → v < 2 ^ 64
    → u32_of
            (v / 2 ^ 32 / 2 ^ 24 % 256)
            (v / 2 ^ 32 / 2 ^ 16 % 256)
            (v / 2 ^ 32 / 256 % 256)
            (v / 2 ^ 32 % 256)
          * 2 ^ 32
        + u32_of
            (v % 2 ^ 32 / 2 ^ 24 % 256)
            (v % 2 ^ 32 / 2 ^ 16 % 256)
            (v % 2 ^ 32 / 256 % 256)
            (v % 2 ^ 32 % 256)
      ≡ v
u64_of_put v h =
    let high = u32_of_put (v / 2 ^ 32) (omega arith) in
    let low = u32_of_put (v % 2 ^ 32) (omega arith) in rw (high, low) (omega arith)

abbrev header_of : Bool → ℕ → ℕ → ℕ → ℕ → Header
header_of has_seid mt len seid seq = record {
  version = 1;
  has_seid = has_seid;
  message_type = mt;
  len = len;
  seid = seid;
  sequence_number = seq;
}

-- A header without a SEID, in front of a body.
node_reads :
    (h : Header) (body : List ℕ)
    → h.sequence_number < 2 ^ 24
    → 8 - 4 + length body < 2 ^ 16
    → parse_header (marshal_header h (length body) ++ body)
      ≡ ok (header_of false h.message_type (8 - 4 + length body) 0 h.sequence_number, body)
unfolding parse_header marshal_header read_node
node_reads h body seq small =
    rw
      (
        u16_of_put (8 - 4 + length body) small,
        u24_of_put h.sequence_number seq,
        ge-ltb (length (marshal_header h (length body) ++ body)) 8 (omega arith),
      )
      (bound_body-append (header_of false h.message_type (8 - 4 + length body) 0 h.sequence_number)
        (marshal_header h (length body)) body refl (omega arith))

-- A header with a SEID, in front of a body.
session_reads :
    (h : Header) (body : List ℕ)
    → h.sequence_number < 2 ^ 24
    → h.seid < 2 ^ 64
    → 16 - 4 + length body < 2 ^ 16
    → parse_header (marshal_session_header h (length body) ++ body)
      ≡ ok (header_of true h.message_type (16 - 4 + length body) h.seid h.sequence_number, body)
unfolding parse_header marshal_session_header read_session
session_reads h body seq seid small =
    rw
      (
        u16_of_put (16 - 4 + length body) small,
        u24_of_put h.sequence_number seq,
        u64_of_put h.seid seid,
        ge-ltb (length (marshal_session_header h (length body) ++ body)) 8 (omega arith),
        ge-ltb (length (marshal_session_header h (length body) ++ body)) 16 (omega arith),
      )
      (bound_body-append
        (header_of true h.message_type (16 - 4 + length body) h.seid h.sequence_number)
        (marshal_session_header h (length body)) body refl (omega arith))

-- What follows once the header has been read.
parse_read :
    (b : List ℕ) (h : Header) (ies : List Element)
    → All IsWire ies
    → parse_header b ≡ ok (h, marshal_all ies)
    → parse b ≡ ok (h, ies)
unfolding parse
parse_read b h ies w e = rw (e, parse_marshalled ies w) refl

chosen : {A : Type 0} (b : Bool) (x y : A) → b ≡ true → (if b then x else y) ≡ x
chosen true x y e = refl
chosen false x y e = absurd (cc e)

passed_over : {A : Type 0} (b : Bool) (x y : A) → b ≡ false → (if b then x else y) ≡ y
passed_over true x y e = absurd (cc e)
passed_over false x y e = refl

message_reads :
    (h : Header) (ies : List Element) (has_seid : Bool)
    → h.has_seid ≡ has_seid
    → IsCanonical h
    → body_start has_seid - 4 + length (marshal_all ies) < 2 ^ 16
    → parse_header (marshal_message h ies)
      ≡ ok (with_length h (length (marshal_all ies)), marshal_all ies)
unfolding marshal_message
message_reads h ies true s c small =
    let same : header_of true h.message_type (16 - 4 + length (marshal_all ies)) h.seid
          h.sequence_number
        ≡ with_length h (length (marshal_all ies)) =
      ground (arith, s, c.version_one) in
    ap parse_header (chosen h.has_seid _ _ s)
    ∙ session_reads h (marshal_all ies) c.sequence_fits c.seid_fits small
    ∙ ap (λ x. ok (x, marshal_all ies)) same
message_reads h ies false s c small =
    let same : header_of false h.message_type (8 - 4 + length (marshal_all ies)) 0 h.sequence_number
        ≡ with_length h (length (marshal_all ies)) =
      ground (arith, s, c.version_one, c.no_seid s) in
    ap parse_header (passed_over h.has_seid _ _ s)
    ∙ node_reads h (marshal_all ies) c.sequence_fits small
    ∙ ap (λ x. ok (x, marshal_all ies)) same

-- A PFCP message with or without a SEID, of elements that fit the wire format and together the 16-bit
-- length, is read back by Parse: the same elements, and the header with its length filled in.
pub parse-pfcp_message :
    (h : Header) (ies : List Element)
    → IsCanonical h
    → All IsWire ies
    → body_start h.has_seid - 4 + length (marshal_all ies) < 2 ^ 16
    → parse (marshal_message h ies) ≡ ok (with_length h (length (marshal_all ies)), ies)
parse-pfcp_message h ies c w small =
    parse_read (marshal_message h ies) (with_length h (length (marshal_all ies))) ies w
      (message_reads h ies h.has_seid refl c small)
