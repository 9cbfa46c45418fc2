-- ===== src/Sgwu/Gtpu/Runs.antt =====
-- Concrete packets of internal/sgwu/gtpu, and the theorems at them.
use vectorcore_sgw.Common.{ℕ, ◌≡◌, ◌≢◌, refl, true, false, List, [], ◌∷◌, ◌++◌, number_keys, arith}
use vectorcore_sgw.Common.Results.{ok, err}
use vectorcore_sgw.Sgwu.Gtpu.{
  Header, stuck, extension_past_declared, has_opt_fields, wire_len, fixed_fields, optional_fields,
  walk, parse_extensions, parse_optional, parse, marshal,
}
use vectorcore_sgw.Sgwu.Gtpu.Walk.{Chain, stop, link}
use vectorcore_sgw.Sgwu.Gtpu.Reads.{Within, parse-Within, parse-ne-stuck}
use vectorcore_sgw.Sgwu.Gtpu.Marshal.{IsCanonical, with_length, parse-marshal}

-- A G-PDU with one extension header, of four octets.
abbrev extended : Header
extended = record {
  version = 1;
  pt = true;
  e = true;
  s = false;
  pn = false;
  msg_type = 255;
  len = 10;
  teid = 77;
  seq_num = 0;
  npdu_num = 0;
  next_ext_hdr = 0x85;
  ext_headers = 1 ∷ 9 ∷ 8 ∷ 0 ∷ [];
}

extended-Chain : Chain 0x85 (1 ∷ 9 ∷ 8 ∷ 0 ∷ [])
extended-Chain =
    link 0x85 1 0 (9 ∷ 8 ∷ []) [] (λ e. absurd (omega (arith, e))) (omega arith) refl stop

extended-IsCanonical : IsCanonical extended
unfolding has_opt_fields
extended-IsCanonical = record {
  version_one = refl;
  gtp = refl;
  no_optional = λ e. absurd (cc e);
  chained = λ e. extended-Chain;
  unchained = λ e. absurd (cc e);
  teid_fits = omega arith;
  seq_fits = omega arith;
}

abbrev packet : List ℕ
packet = 0x34 ∷ 255 ∷ 0 ∷ 10 ∷ 0 ∷ 0 ∷ 0 ∷ 77 ∷ 0 ∷ 0 ∷ 0 ∷ 0x85 ∷ 1 ∷ 9 ∷ 8 ∷ 0 ∷ 6 ∷ 7 ∷ []

extended_bytes : marshal extended 2 ++ (6 ∷ 7 ∷ []) ≡ packet
unfolding marshal
extended_bytes = refl

packet_read : parse packet ≡ ok (extended, 16)
unfolding parse fixed_fields parse_optional optional_fields parse_extensions walk
packet_read = refl

-- The extension header announces eight octets, and six are left.
abbrev long_extension : List ℕ
long_extension =
    0x34 ∷ 255 ∷ 0 ∷ 10 ∷ 0 ∷ 0 ∷ 0 ∷ 77 ∷ 0 ∷ 0 ∷ 0 ∷ 0x85 ∷ 2 ∷ 9 ∷ 8 ∷ 0 ∷ 6 ∷ 7 ∷ []

parse_long : parse long_extension ≡ err extension_past_declared
unfolding parse fixed_fields parse_optional optional_fields parse_extensions walk
parse_long = refl

parse-marshal_example :
    parse (marshal extended 2 ++ (6 ∷ 7 ∷ [])) ≡ ok (with_length extended 2, wire_len extended)
parse-marshal_example = parse-marshal extended (6 ∷ 7 ∷ []) extended-IsCanonical (omega arith)

parse-Within_example : Within packet extended 16
parse-Within_example = parse-Within packet extended 16 packet_read

parse-ne-stuck_example : parse long_extension ≢ err stuck
parse-ne-stuck_example = parse-ne-stuck long_extension
