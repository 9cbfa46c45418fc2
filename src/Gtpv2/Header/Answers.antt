-- ===== src/Gtpv2/Header/Answers.antt =====
-- internal/gtpv2/message/message.go: the pairing of message types, and the responses that are built
-- without a handler.
use vectorcore_sgw.Common.{
  ℕ, ◌^◌, ◌<◌, ◌≡◌, ◌↔◌, refl, Bool, ◌||◌, true, false, not, some, List, [], ◌∷◌, All, arith, ltb,
  nat_beq, number_keys, inl, inr, Bool-cases, if◌then◌else◌,
}
use vectorcore_sgw.Common.Maps.{lookup, lookup-All}
use vectorcore_sgw.Common.Results.{ok}
use vectorcore_sgw.Gtpv2.Ie.{Ie, IsWire, marshal}
use vectorcore_sgw.Gtpv2.Header.{
  Header, IsCanonical, marshal_body, marshal_message, parse, response_cases, request_cases,
  response_type_for, request_type_for_response, validate_t_flag, plain_header, new_cause,
  marshal_invalid_length_response,
}
use vectorcore_sgw.Gtpv2.Header.RoundTrip.{parse-marshal_message}

-- What the table of responses says of one of its lines: the other table leads back, and Echo
-- Response is the only response without a TEID.
record Line (req resp : ℕ) : Type 0 where
  back : request_type_for_response resp ≡ some req
  fits : ltb resp 256 ≡ true
  no_teid : (nat_beq resp 1 || nat_beq resp 2 || nat_beq resp 3) ≡ nat_beq resp 2

line :
    (req resp : ℕ)
    → request_type_for_response resp ≡ some req
    → ltb resp 256 ≡ true
    → (nat_beq resp 1 || nat_beq resp 2 || nat_beq resp 3) ≡ nat_beq resp 2
    → Line req resp
line req resp back fits no_teid = record { back = back; fits = fits; no_teid = no_teid }

response_lines : All (λ p. Line p.0 p.1) response_cases
unfolding request_type_for_response lookup
response_lines = (
  line 1 2 refl refl refl,
  (
    line 32 33 refl refl refl,
    (
      line 34 35 refl refl refl,
      (
        line 36 37 refl refl refl,
        (
          line 95 96 refl refl refl,
          (
            line 97 98 refl refl refl,
            (
              line 99 100 refl refl refl,
              (line 170 171 refl refl refl, (line 176 177 refl refl refl, tt)),
            ),
          ),
        ),
      ),
    ),
  ),
)

request_lines : All (λ p. response_type_for p.1 ≡ some p.0) request_cases
unfolding response_type_for lookup
request_lines = (refl, (refl, (refl, (refl, (refl, (refl, (refl, (refl, (refl, tt)))))))))

pairing : (req resp : ℕ) → response_type_for req ≡ some resp → Line req resp
unfolding response_type_for
pairing req resp e = lookup-All (λ p. Line p.0 p.1) req response_cases response_lines e

pairing_back :
    (req resp : ℕ) → request_type_for_response resp ≡ some req → response_type_for req ≡ some resp
unfolding request_type_for_response
pairing_back req resp e =
    lookup-All (λ p. response_type_for p.1 ≡ some p.0) resp request_cases request_lines e

-- A response type belongs to a request type exactly when the request type belongs to it: the two
-- tables are inverse to each other, so neither pairs two types with one.
pub response_type_for-request_type_for_response :
    (req resp : ℕ)
    → (response_type_for req ≡ some resp) ↔ (request_type_for_response resp ≡ some req)
response_type_for-request_type_for_response req resp =
    (λ e. (pairing req resp e).back, pairing_back req resp)

-- The header of the response to `req` that cause 67 is sent in.
abbrev pub refusal_header : Header → ℕ → ℕ → Header
refusal_header req resp peer_teid =
    plain_header (not (nat_beq resp 2)) resp peer_teid req.sequence_number

refusal-IsCanonical :
    (req : Header) (resp peer_teid : ℕ)
    → ltb resp 256 ≡ true
    → req.sequence_number < 2 ^ 24
    → peer_teid < 2 ^ 32
    → (resp ≡ 2 → peer_teid ≡ 0)
    → IsCanonical (refusal_header req resp peer_teid)
refusal-IsCanonical req resp peer_teid small seq teid echo = record {
  version_two = refl;
  no_teid = λ e. (echo (ground (arith, e)), refl);
  no_priority = λ e. refl;
  priority_nibble = omega arith;
  type_byte = ground (arith, small);
  teid_fits = teid;
  sequence_fits = seq;
}

cause-IsWire : IsWire (new_cause 67 0 0 0)
unfolding new_cause
cause-IsWire = record {
  typ_byte = omega arith;
  inst_nibble = omega arith;
  value_bytes = (omega arith, (omega arith, tt));
  value_length = omega arith;
}

refusal_bytes : (h : Header) → (b : List ℕ) × (marshal_message h (new_cause 67 0 0 0 ∷ []) ≡ ok b)
unfolding marshal_message marshal_body new_cause marshal
refusal_bytes h = elim (Bool-cases h.has_teid) [
  | inl with_teid ↦ rw with_teid (_, refl)
  | inr without ↦ rw without (_, refl)
]

refusal-validate_t_flag :
    (req : Header) (resp peer_teid len : ℕ)
    → Line req.message_type resp
    → validate_t_flag (record (refusal_header req resp peer_teid) { len = len }) ≡ true
unfolding validate_t_flag
refusal-validate_t_flag req resp peer_teid len l = rw l.no_teid (t (nat_beq resp 2))
  where
    t : (b : Bool) → (if b then not (not b) else not b) ≡ true
    t true = refl
    t false = refl

-- A Cause element, of type 2 and instance 0, of value 67 and no flags.
abbrev pub cause_67 : Ie
cause_67 = record { typ = 2; inst = 0; value = 67 ∷ 0 ∷ [] }

-- A request of a type that has a response, with a sequence number of 24 bits, is answered with Invalid
-- Length for a peer's TEID of 32 bits, which is 0 where the answer is an Echo Response. The answer is
-- built without an error, and `Parse` reads it back as a header and one Cause element of value 67 and
-- no flags; the header has the request's sequence number and the peer's TEID, has the TEID flag that
-- its type asks for, and its type leads back to the request's.
pub marshal_invalid_length_response_answers :
    (req : Header) (resp peer_teid : ℕ)
    → response_type_for req.message_type ≡ some resp
    → req.sequence_number < 2 ^ 24
    → peer_teid < 2 ^ 32
    → (resp ≡ 2 → peer_teid ≡ 0)
    → (b : List ℕ) × (reply : Header) × (marshal_invalid_length_response req peer_teid ≡ ok b)
      × (parse b ≡ ok (reply, cause_67 ∷ []))
      × (reply.sequence_number ≡ req.sequence_number)
      × (reply.teid ≡ peer_teid)
      × (validate_t_flag reply ≡ true)
      × (request_type_for_response reply.message_type ≡ some req.message_type)
unfolding marshal_invalid_length_response new_cause
marshal_invalid_length_response_answers req resp peer_teid e seq teid echo =
    let l : Line req.message_type resp = pairing req.message_type resp e in
    let h : Header = refusal_header req resp peer_teid in
    let (b, m) = refusal_bytes h in
    let c : IsCanonical h = refusal-IsCanonical req resp peer_teid l.fits seq teid echo in
    let p = parse-marshal_message h (new_cause 67 0 0 0 ∷ []) b c (cause-IsWire, tt) m in
    (
      b,
      _,
      rw (e, marshal_invalid_length_response) m,
      p,
      refl,
      refl,
      refusal-validate_t_flag req resp peer_teid _ l,
      l.back,
    )
