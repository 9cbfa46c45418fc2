-- ===== src/Sgwu/Gtpu/Marshal.antt =====
-- internal/sgwu/gtpu/header.go: encoding and parsing a header.
use vectorcore_sgw.Common.{
  ℕ, ◌+◌, ◌^◌, ◌<◌, ◌≡◌, refl, ap, ◌∙◌, Bool, true, false, ◌||◌, List, [], ◌∷◌, ◌++◌, length,
  if◌then◌else◌, arith, inl, inr, Bool-cases, length-append,
}
use vectorcore_sgw.Common.Bytes.{put_u16, put_u32, u16_of_put, u32_of_put, has_bit}
use vectorcore_sgw.Common.Results.{ok}
use vectorcore_sgw.Sgwu.Gtpu.{
  Header, has_opt_fields, wire_len, version_of, fixed_fields, optional_fields, parse_extensions,
  parse_optional, parse, octet1_of, marshal,
}
use vectorcore_sgw.Sgwu.Gtpu.Walk.{Chain}
use vectorcore_sgw.Sgwu.Gtpu.Guards.{parse_fits, parse_optional_fits, read_extensions}

-- What a header must be for its encoding to show all of it.
pub record IsCanonical (h : Header) : Type 0 where
  pub version_one : h.version ≡ 1
  pub gtp : h.pt ≡ true
  pub no_optional :
      has_opt_fields h ≡ false → (h.seq_num ≡ 0) × (h.npdu_num ≡ 0) × (h.next_ext_hdr ≡ 0)
  pub chained : h.e ≡ true → Chain h.next_ext_hdr h.ext_headers
  pub unchained : h.e ≡ false → h.ext_headers ≡ []
  pub teid_fits : h.teid < 2 ^ 32
  pub seq_fits : h.seq_num < 2 ^ 16

-- The first octet shows the version and every flag.
record Octet1 (e s pn : Bool) : Type 0 where
  version : version_of (octet1_of e s pn) ≡ 1
  gtp : has_bit (octet1_of e s pn) 0x10 ≡ true
  extension : has_bit (octet1_of e s pn) 0x04 ≡ e
  sequence : has_bit (octet1_of e s pn) 0x02 ≡ s
  npdu : has_bit (octet1_of e s pn) 0x01 ≡ pn

octet_record :
    (e s pn : Bool)
    → version_of (octet1_of e s pn) ≡ 1
    → has_bit (octet1_of e s pn) 0x10 ≡ true
    → has_bit (octet1_of e s pn) 0x04 ≡ e
    → has_bit (octet1_of e s pn) 0x02 ≡ s
    → has_bit (octet1_of e s pn) 0x01 ≡ pn
    → Octet1 e s pn
octet_record e s pn v g x q n = record {
  version = v;
  gtp = g;
  extension = x;
  sequence = q;
  npdu = n;
}

octet1 : (e s pn : Bool) → Octet1 e s pn
octet1 true true true = octet_record true true true refl refl refl refl refl
octet1 true true false = octet_record true true false refl refl refl refl refl
octet1 true false true = octet_record true false true refl refl refl refl refl
octet1 true false false = octet_record true false false refl refl refl refl refl
octet1 false true true = octet_record false true true refl refl refl refl refl
octet1 false true false = octet_record false true false refl refl refl refl refl
octet1 false false true = octet_record false false true refl refl refl refl refl
octet1 false false false = octet_record false false false refl refl refl refl refl

-- The twelve octets in front of the extension headers.
abbrev opening : Header → ℕ → List ℕ
opening h payload_len =
    octet1_of h.e h.s h.pn
    ∷ h.msg_type
    ∷ (put_u16 (payload_len + (4 + length h.ext_headers))
        ++ (put_u32 h.teid ++ (put_u16 h.seq_num ++ (h.npdu_num ∷ h.next_ext_hdr ∷ []))))

-- The header with the length that its encoding in front of such a payload declares.
abbrev pub with_length : Header → ℕ → Header
with_length h payload_len = record h {
  len = if has_opt_fields h then payload_len + (4 + length h.ext_headers) else payload_len;
}

fixed_of :
    (e s pn : Bool) (mt len teid : ℕ) (more : List ℕ)
    → len < 2 ^ 16
    → teid < 2 ^ 32
    → fixed_fields (octet1_of e s pn ∷ mt ∷ (put_u16 len ++ (put_u32 teid ++ more))) ≡ record {
      version = 1;
      pt = true;
      e = e;
      s = s;
      pn = pn;
      msg_type = mt;
      len = len;
      teid = teid;
      seq_num = 0;
      npdu_num = 0;
      next_ext_hdr = 0;
      ext_headers = [];
    }
unfolding fixed_fields
fixed_of e s pn mt len teid more hl ht =
    let o : Octet1 e s pn = octet1 e s pn in
    rw (o.version, o.extension, o.sequence, o.npdu, u16_of_put len hl, u32_of_put teid ht) refl

abbrev header_of : Bool → Bool → Bool → ℕ → ℕ → ℕ → ℕ → ℕ → ℕ → List ℕ → Header
header_of e s pn mt len teid seq npdu next ext = record {
  version = 1;
  pt = true;
  e = e;
  s = s;
  pn = pn;
  msg_type = mt;
  len = len;
  teid = teid;
  seq_num = seq;
  npdu_num = npdu;
  next_ext_hdr = next;
  ext_headers = ext;
}

optional_of :
    (e s pn : Bool) (mt len teid seq npdu next : ℕ) (a b c d f g i j : ℕ) (more : List ℕ)
    → seq < 2 ^ 16
    → optional_fields
        (header_of e s pn mt len teid 0 0 0 [])
        (a ∷ b ∷ c ∷ d ∷ f ∷ g ∷ i ∷ j ∷ (put_u16 seq ++ (npdu ∷ next ∷ more)))
      ≡ header_of e s pn mt len teid seq npdu next []
unfolding optional_fields
optional_of e s pn mt len teid seq npdu next a b c d f g i j more h = rw (u16_of_put seq h) refl

with_optional :
    (h : Header) (payload : List ℕ)
    → IsCanonical h
    → length payload + (4 + length h.ext_headers) < 2 ^ 16
    → has_opt_fields h ≡ true
    → parse (opening h (length payload) ++ (h.ext_headers ++ payload))
      ≡ ok (
        record h { len = length payload + (4 + length h.ext_headers) },
        12 + length h.ext_headers,
      )
unfolding has_opt_fields
with_optional h payload c small flagged =
    let o : Octet1 h.e h.s h.pn = octet1 h.e h.s h.pn in
    let size : length (h.ext_headers ++ payload) ≡ length h.ext_headers + length payload =
      length-append h.ext_headers payload in
    let fields : header_of h.e h.s h.pn h.msg_type declared h.teid h.seq_num h.npdu_num
          h.next_ext_hdr h.ext_headers
        ≡ record h { len = declared } =
      ground (arith, c.version_one, c.gtp) in
    parse_fits bytes (header_of h.e h.s h.pn h.msg_type declared h.teid 0 0 0 []) (omega arith)
      o.version o.gtp (fixed_of h.e h.s h.pn h.msg_type declared h.teid _ small c.teid_fits)
      (omega (arith, size))
    ∙ parse_optional_fits bytes (header_of h.e h.s h.pn h.msg_type declared h.teid 0 0 0 []) flagged
        (omega arith) (omega (arith, size))
    ∙ ap (λ x. parse_extensions x bytes (8 + declared))
        (optional_of h.e h.s h.pn h.msg_type declared h.teid h.seq_num h.npdu_num h.next_ext_hdr _ _
          _ _ _ _ _ _ (h.ext_headers ++ payload) c.seq_fits)
    ∙ read_extensions
        (header_of h.e h.s h.pn h.msg_type declared h.teid h.seq_num h.npdu_num h.next_ext_hdr [])
        (opening h (length payload)) h.ext_headers payload (8 + declared) refl refl (omega arith)
        c.chained c.unchained
    ∙ ap (λ x. ok (x, 12 + length h.ext_headers)) fields
  where
    bytes : List ℕ
    bytes = opening h (length payload) ++ (h.ext_headers ++ payload)

    declared : ℕ
    declared = length payload + (4 + length h.ext_headers)

-- Without a flag there is nothing between the eight octets and the payload.
all_clear : (a b c : Bool) → (a || b || c) ≡ false → (a ≡ false) × (b ≡ false) × (c ≡ false)
all_clear a b c h = ground arith

without_optional :
    (h : Header) (payload : List ℕ)
    → IsCanonical h
    → length payload < 2 ^ 16
    → has_opt_fields h ≡ false
    → parse (
        (octet1_of h.e h.s h.pn ∷ h.msg_type ∷ (put_u16 (length payload) ++ put_u32 h.teid))
        ++ payload)
      ≡ ok (record h { len = length payload }, 8)
unfolding has_opt_fields parse_optional
without_optional h payload c small plain =
    let o : Octet1 h.e h.s h.pn = octet1 h.e h.s h.pn in
    let empty : h.ext_headers ≡ [] = c.unchained (all_clear h.e h.s h.pn plain).0 in
    let fields : header_of h.e h.s h.pn h.msg_type (length payload) h.teid 0 0 0 []
        ≡ record h { len = length payload } =
      ground (arith, c.version_one, c.gtp, c.no_optional plain, empty) in
    parse_fits _ (header_of h.e h.s h.pn h.msg_type (length payload) h.teid 0 0 0 []) (omega arith)
      o.version o.gtp
      (fixed_of h.e h.s h.pn h.msg_type (length payload) h.teid payload small c.teid_fits)
      (omega arith)
    ∙ rw plain (ap (λ x. ok (x, 8)) fields)

-- A canonical header, encoded for a payload that its 16-bit length can announce together with the
-- optional fields and the extension headers, is read back from in front of that payload with its
-- length filled in and with the number of octets that WireLen tells.
pub parse-marshal :
    (h : Header) (payload : List ℕ)
    → IsCanonical h
    → length payload + (4 + length h.ext_headers) < 2 ^ 16
    → parse (marshal h (length payload) ++ payload)
      ≡ ok (with_length h (length payload), wire_len h)
unfolding marshal wire_len
parse-marshal h payload c small = elim (Bool-cases (has_opt_fields h)) [
  | inl flagged ↦ rw flagged (with_optional h payload c small flagged)
  | inr plain ↦ rw plain (without_optional h payload c (omega arith) plain)
]
