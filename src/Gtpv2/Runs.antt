-- ===== src/Gtpv2/Runs.antt =====
-- Concrete messages of internal/gtpv2, and the theorems at them.

use vectorcore_sgw.Common.{
  ℕ, ◌≡◌, ◌≢◌, ◌↔◌, refl, true, false, some, List, [], ◌∷◌, ◌++◌, length, All, arith, number_keys,
}
use vectorcore_sgw.Common.Maps.{lookup}
use vectorcore_sgw.Common.Results.{ok, err}
use vectorcore_sgw.Gtpv2.Ie.{
  Ie, IsWire, stuck, value_truncated, marshal, marshal_all, parse_ies, parse_loop,
}
use vectorcore_sgw.Gtpv2.Ie.RoundTrip.{parse_ies-marshal_all, parse_ies-ne-stuck}
use vectorcore_sgw.Gtpv2.Header.{
  Header, IsCanonical, parse_header, read_header, read_with_teid, read_without_teid, bound_body,
  marshal_header, header_flags, marshal_body, marshal_message, parse, response_type_for,
  request_type_for_response, validate_t_flag, marshal_invalid_length_response,
}
use vectorcore_sgw.Gtpv2.Header.RoundTrip.{
  with_length, parse_header-marshal_header, parse-marshal_message,
}
use vectorcore_sgw.Gtpv2.Header.Layout.{IsMessage, parse_header_exact}
use vectorcore_sgw.Gtpv2.Header.Answers.{cause_67, marshal_invalid_length_response_answers}
use vectorcore_sgw.Gtpv2.Values.Digits.{encode_tbcd, decode_tbcd, decode_tbcd-encode_tbcd}
use vectorcore_sgw.Gtpv2.Values.Apn.{encode_apn, decode_apn, decode_apn-encode_apn}

-- An EBI and a Recovery element.
abbrev two_elements : List Ie
two_elements =
    record { typ = 73; inst = 1; value = 5 ∷ [] }
    ∷ record { typ = 3; inst = 0; value = 9 ∷ [] }
    ∷ []

two_elements-IsWire : All IsWire two_elements
two_elements-IsWire = (
  record {
    typ_byte = omega arith;
    inst_nibble = omega arith;
    value_bytes = (omega arith, tt);
    value_length = omega arith;
  },
  (
    record {
      typ_byte = omega arith;
      inst_nibble = omega arith;
      value_bytes = (omega arith, tt);
      value_length = omega arith;
    },
    tt,
  ),
)

-- The two elements on the wire.
abbrev element_bytes : List ℕ
element_bytes = 73 ∷ 0 ∷ 1 ∷ 1 ∷ 5 ∷ 3 ∷ 0 ∷ 1 ∷ 0 ∷ 9 ∷ []

marshal_two : marshal_all two_elements ≡ element_bytes
unfolding marshal_all marshal
marshal_two = refl

parsed_two : parse_ies element_bytes ≡ ok two_elements
unfolding parse_ies parse_loop
parsed_two = refl

-- A value of two octets is announced, and one is there.
parsed_short : parse_ies (73 ∷ 0 ∷ 2 ∷ 0 ∷ 5 ∷ []) ≡ err (value_truncated 73 2 1)
unfolding parse_ies parse_loop
parsed_short = refl

parse_ies-marshal_all_example : parse_ies (marshal_all two_elements) ≡ ok two_elements
parse_ies-marshal_all_example = parse_ies-marshal_all two_elements two_elements-IsWire

parse_ies-ne-stuck_example : parse_ies (73 ∷ 0 ∷ 2 ∷ 0 ∷ 5 ∷ []) ≢ err stuck
parse_ies-ne-stuck_example = parse_ies-ne-stuck (73 ∷ 0 ∷ 2 ∷ 0 ∷ 5 ∷ [])

-- A Modify Bearer Request with a message priority.
abbrev modify_header : Header
modify_header = record {
  version = 2;
  piggy_backed = false;
  has_teid = true;
  mp = true;
  message_priority = 7;
  message_type = 34;
  len = 18;
  teid = 0x01020304;
  sequence_number = 0x0a0b0c;
}

modify-IsCanonical : IsCanonical modify_header
modify-IsCanonical = record {
  version_two = refl;
  no_teid = λ e. absurd (cc e);
  no_priority = λ e. absurd (cc e);
  priority_nibble = omega arith;
  type_byte = omega arith;
  teid_fits = omega arith;
  sequence_fits = omega arith;
}

abbrev modify_bytes : List ℕ
modify_bytes = 0x4c ∷ 34 ∷ 0 ∷ 18 ∷ 1 ∷ 2 ∷ 3 ∷ 4 ∷ 10 ∷ 11 ∷ 12 ∷ 0x70 ∷ element_bytes

marshal_modify : marshal_message modify_header two_elements ≡ ok modify_bytes
unfolding marshal_message marshal_body marshal marshal_header header_flags
marshal_modify = refl

parse_modify : parse_header modify_bytes ≡ ok (modify_header, element_bytes)
unfolding parse_header read_header read_with_teid read_without_teid bound_body
parse_modify = refl

parse_header-marshal_header_example :
    parse_header (marshal_header modify_header 10 ++ (element_bytes ++ (1 ∷ [])))
    ≡ ok (with_length modify_header 10, element_bytes)
parse_header-marshal_header_example =
    parse_header-marshal_header modify_header element_bytes (1 ∷ []) modify-IsCanonical
      (omega arith)

parse-marshal_message_example :
    parse modify_bytes
    ≡ ok (with_length modify_header (length (marshal_all two_elements)), two_elements)
parse-marshal_message_example =
    parse-marshal_message modify_header two_elements modify_bytes modify-IsCanonical
      two_elements-IsWire marshal_modify

parse_header_exact_example :
    (parse_header modify_bytes ≡ ok (modify_header, element_bytes))
    ↔ IsMessage modify_bytes modify_header element_bytes
parse_header_exact_example = parse_header_exact modify_bytes modify_header element_bytes

marshal_invalid_length_response_answers_example :
    (b : List ℕ) × (reply : Header) × (marshal_invalid_length_response modify_header 9 ≡ ok b)
    × (parse b ≡ ok (reply, cause_67 ∷ []))
    × (reply.sequence_number ≡ 0x0a0b0c)
    × (reply.teid ≡ 9)
    × (validate_t_flag reply ≡ true)
    × (request_type_for_response reply.message_type ≡ some 34)
unfolding response_type_for lookup
marshal_invalid_length_response_answers_example =
    marshal_invalid_length_response_answers modify_header 35 9 refl (omega arith) (omega arith)
      (λ e. absurd (omega (arith, e)))

decode_tbcd-encode_tbcd_example : decode_tbcd (encode_tbcd (48 ∷ 49 ∷ 57 ∷ [])) ≡ 48 ∷ 49 ∷ 57 ∷ []
decode_tbcd-encode_tbcd_example =
    decode_tbcd-encode_tbcd (48 ∷ 49 ∷ 57 ∷ [])
      ((omega arith, omega arith), ((omega arith, omega arith), ((omega arith, omega arith), tt)))

-- "ab.c", and the encoding of it
abbrev name_text : List ℕ
name_text = 97 ∷ 98 ∷ 46 ∷ 99 ∷ []

encode_name : encode_apn name_text ≡ 2 ∷ 97 ∷ 98 ∷ 1 ∷ 99 ∷ []
unfolding encode_apn
encode_name = refl

decode_apn-encode_apn_example : decode_apn (encode_apn name_text) ≡ name_text
decode_apn-encode_apn_example = decode_apn-encode_apn name_text (omega arith) refl
