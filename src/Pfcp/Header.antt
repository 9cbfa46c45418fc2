-- ===== src/Pfcp/Header.antt =====
-- internal/pfcp/message/message.go: the message header and the whole message.
pub mod RoundTrip
use Prim.Native.Nat.{bit_and}
use vectorcore_sgw.Common.{
  ℕ, zero, suc, ◌+◌, ◌-◌, ◌*◌, ◌/◌, ◌%◌, ◌^◌, ◌<◌, ◌≡◌, Bool, true, false, not, List, [], ◌∷◌, ◌++◌,
  length, take, drop, ltb, nat_beq, if◌then◌else◌,
}
use vectorcore_sgw.Common.Bytes.{
  byte_at, u16_of, u24_of, u32_of, put_u16, put_u24, put_u32, has_bit,
}
use vectorcore_sgw.Common.Results.{Result, ok, err, ◌>>=◌}
use vectorcore_sgw.Pfcp.Ie.{Element, ElementError, marshal_all, parse_ies}

pub record Header : Type 0 where
  pub version : ℕ
  pub has_seid : Bool
  pub message_type : ℕ
  pub len : ℕ
  pub seid : ℕ
  pub sequence_number : ℕ

pub data HeaderError : Type 0 where
  header_too_short : ℕ → HeaderError
  unsupported_version : ℕ → HeaderError
  header_with_seid_too_short : ℕ → HeaderError
  length_too_small : ℕ → HeaderError
  truncated : ℕ → ℕ → HeaderError
  ie_parse : ElementError → HeaderError

abbrev pub header_len_node_level : ℕ
header_len_node_level = 8

abbrev pub header_len_session_level : ℕ
header_len_session_level = 16

-- `bodyStart`
abbrev pub body_start : Bool → ℕ
body_start has_seid = if has_seid then header_len_session_level else header_len_node_level

-- A big-endian number of eight bytes from the place `i` on, as two halves.
abbrev pub u64_at : List ℕ → ℕ → ℕ
u64_at b i =
    u32_of (byte_at b i) (byte_at b (i + 1)) (byte_at b (i + 2)) (byte_at b (i + 3)) * 2 ^ 32
    + u32_of (byte_at b (i + 4)) (byte_at b (i + 5)) (byte_at b (i + 6)) (byte_at b (i + 7))

abbrev pub put_u64 : ℕ → List ℕ
put_u64 v = put_u32 (v / 2 ^ 32) ++ put_u32 (v % 2 ^ 32)

abbrev pub version_of : ℕ → ℕ
version_of first = bit_and (first / 32) 7

unfoldable pub read_session : List ℕ → Header
read_session b = record {
  version = version_of (byte_at b 0);
  has_seid = true;
  message_type = byte_at b 1;
  len = u16_of (byte_at b 2) (byte_at b 3);
  seid = u64_at b 4;
  sequence_number = u24_of (byte_at b 12) (byte_at b 13) (byte_at b 14);
}

unfoldable pub read_node : List ℕ → Header
read_node b = record {
  version = version_of (byte_at b 0);
  has_seid = false;
  message_type = byte_at b 1;
  len = u16_of (byte_at b 2) (byte_at b 3);
  seid = 0;
  sequence_number = u24_of (byte_at b 4) (byte_at b 5) (byte_at b 6);
}

-- The tests on the declared length, and the body that it bounds.
unfoldable pub bound_body : Header → List ℕ → Result HeaderError (Header × List ℕ)
bound_body h b =
    let declared = 4 + h.len in
    if ltb declared (body_start h.has_seid)
    then err (length_too_small h.len)
    else if ltb (length b) declared
    then err (truncated declared (length b))
    else ok (h, drop (body_start h.has_seid) (take declared b))

unfoldable pub parse_header : List ℕ → Result HeaderError (Header × List ℕ)
parse_header b =
    if ltb (length b) header_len_node_level
    then err (header_too_short (length b))
    else if not (nat_beq (version_of (byte_at b 0)) 1)
    then err (unsupported_version (version_of (byte_at b 0)))
    else if has_bit (byte_at b 0) 0x01
    then (if ltb (length b) header_len_session_level
        then err (header_with_seid_too_short (length b))
        else bound_body (read_session b) b)
    else bound_body (read_node b) b

-- `pfcpVersion << 5`, with the S flag in the second
unfoldable pub marshal_header : Header → ℕ → List ℕ
marshal_header h body_len =
    0x20
    ∷ h.message_type
    ∷ (put_u16 (header_len_node_level - 4 + body_len) ++ (put_u24 h.sequence_number ++ (0 ∷ [])))

unfoldable pub marshal_session_header : Header → ℕ → List ℕ
marshal_session_header h body_len =
    0x21
    ∷ h.message_type
    ∷ (put_u16 (header_len_session_level - 4 + body_len)
        ++ (put_u64 h.seid ++ (put_u24 h.sequence_number ++ (0 ∷ []))))

-- The code has an error result here that it never uses. The length wraps at 16 bits.
unfoldable pub marshal_message : Header → List Element → List ℕ
marshal_message h ies =
    let body = marshal_all ies in
    if h.has_seid
    then marshal_session_header h (length body) ++ body
    else marshal_header h (length body) ++ body

abbrev pub wrap {ℓ} : {A : Type ℓ} → Result ElementError A → Result HeaderError A
wrap (ok a) = ok a
wrap (err e) = err (ie_parse e)

unfoldable pub parse : List ℕ → Result HeaderError (Header × List Element)
parse b = parse_header b >>= λ r. wrap (parse_ies r.1) >>= λ ies. ok (r.0, ies)

-- What a header must be for its encoding to show all of it.
pub record IsCanonical (h : Header) : Type 0 where
  pub version_one : h.version ≡ 1
  pub no_seid : h.has_seid ≡ false → h.seid ≡ 0
  pub seid_fits : h.seid < 2 ^ 64
  pub sequence_fits : h.sequence_number < 2 ^ 24
