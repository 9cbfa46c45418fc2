-- ===== src/Pfcp/Runs.antt =====
-- Concrete messages of internal/pfcp, and the theorems at them.
use vectorcore_sgw.Common.{ℕ, ◌≡◌, ◌↔◌, refl, true, List, [], ◌∷◌, length, All, arith}
use vectorcore_sgw.Common.Bytes.{IsByte}
use vectorcore_sgw.Common.Results.{ok, err}
use vectorcore_sgw.Pfcp.Ie.{Element, IsWire, marshal, marshal_all, trailing_bytes, parse_ies}
use vectorcore_sgw.Pfcp.Ie.Exact.{Encodes, parse_ies-Encodes}
use vectorcore_sgw.Pfcp.Header.{Header, IsCanonical, marshal_message, marshal_session_header, parse}
use vectorcore_sgw.Pfcp.Header.RoundTrip.{with_length, parse-pfcp_message}

-- A Cause element: request accepted.
abbrev cause : List Element
cause = record { typ = 19; value = 1 ∷ [] } ∷ []

cause-IsWire : All IsWire cause
cause-IsWire = (
  record { typ_fits = omega arith; value_bytes = (omega arith, tt); value_length = omega arith },
  tt,
)

abbrev cause_bytes : List ℕ
cause_bytes = 0 ∷ 19 ∷ 0 ∷ 1 ∷ 1 ∷ []

cause_bytes-IsByte : All IsByte cause_bytes
cause_bytes-IsByte = (omega arith, (omega arith, (omega arith, (omega arith, (omega arith, tt)))))

cut_short : parse_ies (0 ∷ 19 ∷ 0 ∷ []) ≡ err (trailing_bytes 3)
unfolding parse_ies
cut_short = refl

parse_ies-Encodes_example : (parse_ies cause_bytes ≡ ok cause) ↔ Encodes cause_bytes cause
parse_ies-Encodes_example = parse_ies-Encodes cause_bytes cause cause_bytes-IsByte

-- A Session Establishment Response.
abbrev response : Header
response = record {
  version = 1;
  has_seid = true;
  message_type = 51;
  len = 17;
  seid = 900;
  sequence_number = 5;
}

response-IsCanonical : IsCanonical response
response-IsCanonical = record {
  version_one = refl;
  no_seid = λ e. absurd (cc e);
  seid_fits = omega arith;
  sequence_fits = omega arith;
}

response_bytes :
    marshal_message response cause
    ≡ 0x21 ∷ 51 ∷ 0 ∷ 17 ∷ 0 ∷ 0 ∷ 0 ∷ 0 ∷ 0 ∷ 0 ∷ 3 ∷ 132 ∷ 0 ∷ 0 ∷ 5 ∷ 0 ∷ cause_bytes
unfolding marshal_message marshal_session_header marshal_all marshal
response_bytes = refl

parse-pfcp_message_example :
    parse (marshal_message response cause)
    ≡ ok (with_length response (length (marshal_all cause)), cause)
unfolding marshal_all marshal
parse-pfcp_message_example =
    parse-pfcp_message response cause response-IsCanonical cause-IsWire (omega arith)
