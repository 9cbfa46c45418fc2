-- ===== src/Gtpv2/Frames/Runs.antt =====
-- Concrete payloads of internal/gtpv2/message/message.go, and the theorems at them.
use vectorcore_sgw.Common.{ℕ, ◌≡◌, ◌≢◌, refl, true, false, List, [], ◌∷◌, ◌++◌, arith}
use vectorcore_sgw.Common.Results.{ok, err, ◌>>=◌}
use vectorcore_sgw.Gtpv2.Header.{
  Header, parse_header, read_header, read_with_teid, read_without_teid, bound_body,
}
use vectorcore_sgw.Gtpv2.Frames.{
  Frame, stuck, trailing_bytes, split_frames, split_loop, split_round, marshal_piggybacked,
  set_piggyback_flag,
}
use vectorcore_sgw.Gtpv2.Frames.Partition.{Chain, split_frames-Chain, split_frames-ne-stuck}
use vectorcore_sgw.Gtpv2.Frames.Piggyback.{IsSingle, split_frames-marshal_piggybacked}

-- An Echo Response and an Echo Request, without elements.
abbrev echo_response : List ℕ
echo_response = 0x40 ∷ 2 ∷ 0 ∷ 4 ∷ 0 ∷ 0 ∷ 9 ∷ 0 ∷ []

abbrev echo_request : List ℕ
echo_request = 0x40 ∷ 1 ∷ 0 ∷ 4 ∷ 0 ∷ 0 ∷ 8 ∷ 0 ∷ []

abbrev response_header : Header
response_header = record {
  version = 2;
  piggy_backed = false;
  has_teid = false;
  mp = false;
  message_priority = 0;
  message_type = 2;
  len = 4;
  teid = 0;
  sequence_number = 9;
}

abbrev request_header : Header
request_header = record response_header { message_type = 1; sequence_number = 8 }

response-IsSingle : IsSingle echo_response response_header
unfolding parse_header read_header read_with_teid read_without_teid bound_body
response-IsSingle = record { body = []; accepted = refl; exact = refl; final = refl }

request-IsSingle : IsSingle echo_request request_header
unfolding parse_header read_header read_with_teid read_without_teid bound_body
request-IsSingle = record { body = []; accepted = refl; exact = refl; final = refl }

abbrev both : List Frame
both =
    record {
      header = record response_header { piggy_backed = true };
      raw = set_piggyback_flag echo_response;
      start = 0;
      end = 8;
    }
    ∷ record { header = request_header; raw = echo_request; start = 8; end = 16 }
    ∷ []

split_both : split_frames (set_piggyback_flag echo_response ++ echo_request) ≡ ok both
unfolding split_frames split_loop split_round parse_header read_header read_with_teid
    read_without_teid bound_body
split_both = refl

split_trailing : split_frames (echo_response ++ (7 ∷ [])) ≡ err (trailing_bytes 1)
unfolding split_frames split_loop split_round parse_header read_header read_with_teid
    read_without_teid bound_body
split_trailing = refl

split_frames-Chain_example : Chain 0 (set_piggyback_flag echo_response ++ echo_request) both
split_frames-Chain_example =
    split_frames-Chain (set_piggyback_flag echo_response ++ echo_request) both split_both

split_frames-ne-stuck_example : split_frames (echo_response ++ (7 ∷ [])) ≢ err stuck
split_frames-ne-stuck_example = split_frames-ne-stuck (echo_response ++ (7 ∷ []))

split_frames-marshal_piggybacked_example :
    (marshal_piggybacked echo_response echo_request >>= split_frames) ≡ ok both
split_frames-marshal_piggybacked_example =
    split_frames-marshal_piggybacked 0x40 (2 ∷ 0 ∷ 4 ∷ 0 ∷ 0 ∷ 9 ∷ 0 ∷ []) echo_request
      response_header request_header (omega arith) response-IsSingle request-IsSingle
