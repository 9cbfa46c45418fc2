-- ===== src/Sgwu/Gtpu.antt =====
-- internal/sgwu/gtpu/header.go: the GTP-U header with its optional fields and extension headers.
pub mod Walk
pub mod Reads
pub mod Guards
pub mod Marshal
pub mod Elements
pub mod Runs
use Prim.Native.Nat.{bit_and, bit_or}
use vectorcore_sgw.Common.{
  ℕ, zero, suc, ◌+◌, ◌-◌, ◌*◌, ◌/◌, ◌%◌, Bool, true, false, not, ◌&&◌, ◌||◌, List, [], ◌∷◌, ◌++◌,
  length, take, drop, ltb, leb, nat_beq, if◌then◌else◌,
}
use vectorcore_sgw.Common.Bytes.{byte_at, u16_of, u32_of, put_u16, put_u32, has_bit, set_bit}
use vectorcore_sgw.Common.Results.{Result, ok, err, ◌>>=◌}

pub record Header : Type 0 where
  pub version : ℕ
  pub pt : Bool
  pub e : Bool
  pub s : Bool
  pub pn : Bool
  pub msg_type : ℕ
  pub len : ℕ
  pub teid : ℕ
  pub seq_num : ℕ
  pub npdu_num : ℕ
  pub next_ext_hdr : ℕ
  pub ext_headers : List ℕ

abbrev pub min_len : ℕ
min_len = 8

abbrev pub opt_fields_len : ℕ
opt_fields_len = 4

unfoldable pub has_opt_fields : Header → Bool
has_opt_fields h = h.e || h.s || h.pn

unfoldable pub wire_len : Header → ℕ
unfolding has_opt_fields
wire_len h = if has_opt_fields h then min_len + opt_fields_len + length h.ext_headers else min_len

-- The errors of `Parse`. `stuck` is none of them: the model's loop ran out of fuel.
pub data ParseError : Type 0 where
  packet_too_short : ℕ → ParseError
  unsupported_version : ℕ → ParseError
  not_gtp_u : ParseError
  declared_exceeds_received : ℕ → ℕ → ParseError
  too_short_for_optional : ℕ → ParseError
  declared_too_short_for_optional : ℕ → ParseError
  chain_past_declared : ParseError
  extension_length_zero : ParseError
  extension_past_declared : ParseError
  stuck : ParseError

-- The loop over the extension headers: `consumed` is where in `b` the next one starts, and the result
-- is where the last one ends. Each round takes four bytes at least.
unfoldable pub walk : ℕ → List ℕ → ℕ → ℕ → ℕ → Result ParseError ℕ
walk zero b consumed end next_type = err stuck
walk (suc fuel) b consumed end next_type =
    let ext_len = byte_at b consumed * 4 in
    let more = walk fuel b (consumed + ext_len) end (byte_at b (consumed + ext_len - 1)) in
    if nat_beq next_type 0
    then ok consumed
    else if leb end consumed
    then err chain_past_declared
    else if ltb ext_len 4
    then err extension_length_zero
    else if ltb end (consumed + ext_len)
    then err extension_past_declared
    else more

-- `(octet1 & hdrVersionMask) >> 5`
abbrev pub version_of : ℕ → ℕ
version_of octet1 = bit_and octet1 0xe0 / 32

-- The fields of the eight octets that are always there.
unfoldable pub fixed_fields : List ℕ → Header
fixed_fields b = record {
  version = version_of (byte_at b 0);
  pt = true;
  e = has_bit (byte_at b 0) 0x04;
  s = has_bit (byte_at b 0) 0x02;
  pn = has_bit (byte_at b 0) 0x01;
  msg_type = byte_at b 1;
  len = u16_of (byte_at b 2) (byte_at b 3);
  teid = u32_of (byte_at b 4) (byte_at b 5) (byte_at b 6) (byte_at b 7);
  seq_num = 0;
  npdu_num = 0;
  next_ext_hdr = 0;
  ext_headers = [];
}

unfoldable pub optional_fields : Header → List ℕ → Header
optional_fields h b = record h {
  seq_num = u16_of (byte_at b 8) (byte_at b 9);
  npdu_num = byte_at b 10;
  next_ext_hdr = byte_at b 11;
}

-- `extStart` is 12.
abbrev pub with_extensions : Header → List ℕ → ℕ → Header
with_extensions h b consumed =
    if ltb 12 consumed then record h { ext_headers = take (consumed - 12) (drop 12 b) } else h

unfoldable pub parse_extensions : Header → List ℕ → ℕ → Result ParseError (Header × ℕ)
parse_extensions h b total =
    if h.e && not (nat_beq h.next_ext_hdr 0)
    then (walk (suc (length b)) b 12 total h.next_ext_hdr >>= λ consumed.
        ok (with_extensions h b consumed, consumed))
    else ok (h, 12)

unfoldable pub parse_optional : Header → List ℕ → Result ParseError (Header × ℕ)
unfolding has_opt_fields
parse_optional h b =
    if not (has_opt_fields h)
    then ok (h, min_len)
    else if ltb (length b) (min_len + opt_fields_len)
    then err (too_short_for_optional (length b))
    else if ltb (min_len + h.len) (min_len + opt_fields_len)
    then err (declared_too_short_for_optional h.len)
    else parse_extensions (optional_fields h b) b (min_len + h.len)

unfoldable pub parse : List ℕ → Result ParseError (Header × ℕ)
parse b =
    if ltb (length b) min_len
    then err (packet_too_short (length b))
    else if not (nat_beq (version_of (byte_at b 0)) 1)
    then err (unsupported_version (version_of (byte_at b 0)))
    else if not (has_bit (byte_at b 0) 0x10)
    then err not_gtp_u
    else if ltb (length b) (min_len + (fixed_fields b).len)
    then err (declared_exceeds_received (fixed_fields b).len (length b))
    else parse_optional (fixed_fields b) b

-- The first octet that `Marshal` writes.
abbrev pub octet1_of : Bool → Bool → Bool → ℕ
octet1_of e s pn = set_bit pn 0x01 (set_bit s 0x02 (set_bit e 0x04 (bit_or 0x20 0x10)))

unfoldable pub marshal : Header → ℕ → List ℕ
unfolding has_opt_fields
marshal h payload_len =
    if has_opt_fields h
    then octet1_of h.e h.s h.pn
      ∷ h.msg_type
      ∷ (put_u16 (payload_len + (opt_fields_len + length h.ext_headers))
          ++ (put_u32 h.teid
              ++ (put_u16 h.seq_num ++ (h.npdu_num ∷ h.next_ext_hdr ∷ h.ext_headers))))
    else octet1_of h.e h.s h.pn ∷ h.msg_type ∷ (put_u16 payload_len ++ put_u32 h.teid)
