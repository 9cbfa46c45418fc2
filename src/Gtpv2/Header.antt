-- ===== src/Gtpv2/Header.antt =====
-- internal/gtpv2/message/message.go: the message header, the whole message, the pairing of requests
-- with responses, and the rule on the TEID flag.
pub mod RoundTrip
pub mod Reads
pub mod Layout
pub mod Answers
use Prim.Native.Nat.{bit_and, bit_or}
use vectorcore_sgw.Common.{
  ℕ, zero, suc, ◌+◌, ◌-◌, ◌*◌, ◌/◌, ◌%◌, ◌^◌, ◌<◌, Bool, true, false, not, ◌&&◌, ◌||◌, Option, none,
  some, List, [], ◌∷◌, ◌++◌, length, take, drop, All, any, ltb, leb, ◌≡◌, number_keys, nat_beq,
  if◌then◌else◌,
}
use vectorcore_sgw.Common.Bytes.{
  IsByte, byte_at, u16_of, u24_of, u32_of, put_u16, put_u24, put_u32, has_bit, set_bit,
}
use vectorcore_sgw.Common.Maps.{lookup}
use vectorcore_sgw.Common.Results.{Result, ok, err, ◌>>=◌}
use vectorcore_sgw.Gtpv2.Ie.{Ie, IeError, marshal, marshal_all, parse_ies}

pub record Header : Type 0 where
  pub version : ℕ
  pub piggy_backed : Bool
  pub has_teid : Bool
  pub mp : Bool
  pub message_priority : ℕ
  pub message_type : ℕ
  pub len : ℕ
  pub teid : ℕ
  pub sequence_number : ℕ

-- The errors of the package, one for each that the code builds.
pub data MessageError : Type 0 where
  header_too_short : ℕ → MessageError
  version_not_supported : ℕ → MessageError
  header_with_teid_too_short : ℕ → MessageError
  length_too_small : ℕ → MessageError
  invalid_length : Header → MessageError
  ie_parse : IeError → MessageError
  ie_too_long : Ie → MessageError
  message_too_long : ℕ → ℕ → MessageError
  no_response_type : ℕ → MessageError

abbrev pub header_len_with_teid : ℕ
header_len_with_teid = 12

abbrev pub header_len_without_teid : ℕ
header_len_without_teid = 8

-- `minHeaderSize`
abbrev pub min_header_size : Bool → ℕ
min_header_size has_teid = if has_teid then header_len_with_teid else header_len_without_teid

-- `(b[0] >> 5) & 0x07`
abbrev pub version_of : ℕ → ℕ
version_of first = bit_and (first / 32) 7

-- The two branches that read the fields behind the length.
unfoldable pub read_with_teid : List ℕ → Header
read_with_teid b =
    let first = byte_at b 0 in
    let mp = has_bit first 0x04 in
    record {
      version = version_of first;
      piggy_backed = has_bit first 0x10;
      has_teid = true;
      mp = mp;
      message_priority = if mp then byte_at b 11 / 16 else 0;
      message_type = byte_at b 1;
      len = u16_of (byte_at b 2) (byte_at b 3);
      teid = u32_of (byte_at b 4) (byte_at b 5) (byte_at b 6) (byte_at b 7);
      sequence_number = u24_of (byte_at b 8) (byte_at b 9) (byte_at b 10);
    }

unfoldable pub read_without_teid : List ℕ → Header
read_without_teid b =
    let first = byte_at b 0 in
    record {
      version = version_of first;
      piggy_backed = has_bit first 0x10;
      has_teid = false;
      mp = false;
      message_priority = 0;
      message_type = byte_at b 1;
      len = u16_of (byte_at b 2) (byte_at b 3);
      teid = 0;
      sequence_number = u24_of (byte_at b 4) (byte_at b 5) (byte_at b 6);
    }

unfoldable pub read_header : List ℕ → Header
read_header b = if has_bit (byte_at b 0) 0x08 then read_with_teid b else read_without_teid b

-- The tests on the declared length, and the body that it bounds.
unfoldable pub bound_body : Header → List ℕ → Result MessageError (Header × List ℕ)
bound_body h b =
    let declared = 4 + h.len in
    let size = min_header_size h.has_teid in
    if ltb declared size
    then err (length_too_small h.len)
    else if ltb (length b) declared
    then err (invalid_length h)
    else ok (h, drop size (take declared b))

-- The length and version tests at the start.
unfoldable pub parse_header : List ℕ → Result MessageError (Header × List ℕ)
parse_header b =
    if ltb (length b) header_len_without_teid
    then err (header_too_short (length b))
    else if not (nat_beq (version_of (byte_at b 0)) 2)
    then err (version_not_supported (version_of (byte_at b 0)))
    else if ltb (length b) (min_header_size (has_bit (byte_at b 0) 0x08))
    then err (header_with_teid_too_short (length b))
    else bound_body (read_header b) b

-- The first octet. The P flag is bit 0x10, the T flag 0x08, and MP 0x04.
unfoldable pub header_flags : Header → ℕ
header_flags h =
    set_bit (h.mp && h.has_teid) 0x04 (set_bit h.has_teid 0x08 (set_bit h.piggy_backed 0x10 0x40))

unfoldable pub marshal_header : Header → ℕ → List ℕ
marshal_header h body_len =
    if h.has_teid
    then header_flags h
      ∷ h.message_type
      ∷ (put_u16 (header_len_with_teid - 4 + body_len)
          ++ (put_u32 h.teid
              ++ (put_u24 h.sequence_number
                  ++ ((if h.mp then bit_and h.message_priority 0x0f * 16 else 0) ∷ []))))
    else header_flags h
      ∷ h.message_type
      ∷ (put_u16 (header_len_without_teid - 4 + body_len)
          ++ (put_u24 h.sequence_number ++ (0 ∷ [])))

-- The loop of `Marshal` over the elements.
unfoldable pub marshal_body : List Ie → Result MessageError (List ℕ)
marshal_body [] = ok []
marshal_body (ie ∷ ies) =
    if ltb 65535 (length ie.value)
    then err (ie_too_long ie)
    else marshal_body ies >>= λ rest. ok (marshal ie ++ rest)

unfoldable pub marshal_message : Header → List Ie → Result MessageError (List ℕ)
marshal_message h ies = marshal_body ies >>= λ body.
    if ltb 65535 (length body + min_header_size h.has_teid - 4)
    then err (message_too_long h.message_type (length body + min_header_size h.has_teid - 4))
    else ok (marshal_header h (length body) ++ body)

-- `fmt.Errorf("IE parse: %w", err)`
abbrev pub wrap_ie_error {ℓ} : {A : Type ℓ} → Result IeError A → Result MessageError A
wrap_ie_error (ok a) = ok a
wrap_ie_error (err e) = err (ie_parse e)

unfoldable pub parse : List ℕ → Result MessageError (Header × List Ie)
parse b = parse_header b >>= λ r. wrap_ie_error (parse_ies r.1) >>= λ ies. ok (r.0, ies)

-- The `switch` of `ResponseTypeFor`: Echo, Create Session, Modify Bearer, Delete Session, Create,
-- Update and Delete Bearer, Release Access Bearers, Downlink Data Notification.
abbrev pub response_cases : List (ℕ × ℕ)
response_cases =
    (1, 2)
    ∷ (32, 33)
    ∷ (34, 35)
    ∷ (36, 37)
    ∷ (95, 96)
    ∷ (97, 98)
    ∷ (99, 100)
    ∷ (170, 171)
    ∷ (176, 177)
    ∷ []

-- The `switch` of `RequestTypeForResponse`.
abbrev pub request_cases : List (ℕ × ℕ)
request_cases =
    (2, 1)
    ∷ (33, 32)
    ∷ (35, 34)
    ∷ (37, 36)
    ∷ (96, 95)
    ∷ (98, 97)
    ∷ (100, 99)
    ∷ (171, 170)
    ∷ (177, 176)
    ∷ []

unfoldable pub response_type_for : ℕ → Option ℕ
unfolding lookup
response_type_for req_type = lookup req_type response_cases

unfoldable pub request_type_for_response : ℕ → Option ℕ
unfolding lookup
request_type_for_response resp_type = lookup resp_type request_cases

-- `ValidateTFlag`: true where the code returns no error. Types 1 to 3 are Echo Request, Echo
-- Response and Version Not Supported Indication.
unfoldable pub validate_t_flag : Header → Bool
validate_t_flag h =
    if nat_beq h.message_type 1 || nat_beq h.message_type 2 || nat_beq h.message_type 3
    then not h.has_teid
    else h.has_teid

abbrev pub plain_header : Bool → ℕ → ℕ → ℕ → Header
plain_header has_teid message_type teid sequence_number = record {
  version = 2;
  piggy_backed = false;
  has_teid = has_teid;
  mp = false;
  message_priority = 0;
  message_type = message_type;
  len = 0;
  teid = teid;
  sequence_number = sequence_number;
}

-- Go drops the error of `Marshal`, which has none for an empty body.
unfoldable pub marshal_version_not_supported : ℕ → List ℕ
marshal_version_not_supported seq = marshal_header (plain_header false 3 0 seq) 0

-- `NewCause` with its flags, and no offending element
unfoldable pub new_cause : ℕ → ℕ → ℕ → ℕ → Ie
new_cause cause pce bce cs = record {
  typ = 2;
  inst = 0;
  value = cause ∷ bit_or (bit_or (bit_and cs 1) (bit_and bce 1 * 2)) (bit_and pce 1 * 4) ∷ [];
}

-- A response with cause 67, Invalid Length.
unfoldable pub marshal_invalid_length_response : Header → ℕ → Result MessageError (List ℕ)
marshal_invalid_length_response req peer_teid = elim (response_type_for req.message_type) [
  | none ↦ err (no_response_type req.message_type)
  | some resp_type ↦
      marshal_message
        (plain_header (not (nat_beq resp_type 2)) resp_type peer_teid req.sequence_number)
        (new_cause 67 0 0 0 ∷ [])
]

-- What a header must be for its encoding to show all of it.
pub record IsCanonical (h : Header) : Type 0 where
  pub version_two : h.version ≡ 2
  pub no_teid : h.has_teid ≡ false → (h.teid ≡ 0) × (h.mp ≡ false)
  pub no_priority : h.mp ≡ false → h.message_priority ≡ 0
  pub priority_nibble : h.message_priority < 16
  pub type_byte : IsByte h.message_type
  pub teid_fits : h.teid < 2 ^ 32
  pub sequence_fits : h.sequence_number < 2 ^ 24
