-- ===== src/Gtpv2/Values/Fields.antt =====
-- internal/gtpv2/ie/ie.go: constructors and decoders of elements of fixed fields.
use Prim.Native.Nat.{bit_and, bit_or}
use mathlib.Core.Option
use vectorcore_sgw.Common.{
  ℕ, ◌%◌, ◌^◌, ◌<◌, ◌≡◌, refl, Bool, true, false, ◌&&◌, not, some, arith, nat_beq, number_keys,
}
use vectorcore_sgw.Common.Addr.{Addr, no_addr, ip4}
use vectorcore_sgw.Common.Bytes.{u32_of_put, byte_table, byte_table_lem, has_bit}
use vectorcore_sgw.Common.Results.{ok}
use vectorcore_sgw.Gtpv2.Values.{checked, new_fteid, decode_fteid, fteid_value}

-- The first octet of an F-TEID, without the IPv4 flag and with it.
record Octet (x : ℕ) : Type 0 where
  plain : bit_and (bit_and x 0x3f) 0x3f ≡ x % 64
  flagged : bit_and (bit_or (bit_and x 0x3f) 0x80) 0x3f ≡ x % 64
  flag_unset : has_bit (bit_and x 0x3f) 0x80 ≡ false
  flag_set : has_bit (bit_or (bit_and x 0x3f) 0x80) 0x80 ≡ true

abbrev octet_shows : ℕ → Bool
octet_shows x =
    nat_beq (bit_and (bit_and x 0x3f) 0x3f) (x % 64)
    && (nat_beq (bit_and (bit_or (bit_and x 0x3f) 0x80) 0x3f) (x % 64)
        && (not (has_bit (bit_and x 0x3f) 0x80) && has_bit (bit_or (bit_and x 0x3f) 0x80) 0x80))

octet_table : byte_table octet_shows ≡ true
unfolding byte_table
octet_table = refl

octet : (x : ℕ) → x < 256 → Octet x
octet x h =
    let t : octet_shows x ≡ true = byte_table_lem octet_shows x octet_table h in ground (arith, t)

pub data IsFteidAddr : Addr → Type 0 where
  without : IsFteidAddr no_addr
  with_ip4 : (a b c d : ℕ) → IsFteidAddr (ip4 a b c d)

-- What `NewFTEID` gives for an interface type and a TEID is read back by `FTEIDValue`, with its IPv4
-- address or with none.
pub fteid_value-new_fteid :
    (inst if_type teid : ℕ) (addr : Addr)
    → if_type < 64
    → teid < 2 ^ 32
    → IsFteidAddr addr
    → Option.map fteid_value (new_fteid inst if_type teid addr)
      ≡ some (ok (record { intf_type = if_type; teid = teid; ipv4 = addr }))
unfolding new_fteid fteid_value checked decode_fteid
fteid_value-new_fteid inst if_type teid _ small fits without =
    let o : Octet if_type = octet if_type (omega arith) in
    let same : if_type % 64 ≡ if_type = omega arith in
    rw (o.flag_unset, o.plain, same, u32_of_put teid fits) refl
fteid_value-new_fteid inst if_type teid _ small fits (with_ip4 a b c d) =
    let o : Octet if_type = octet if_type (omega arith) in
    let same : if_type % 64 ≡ if_type = omega arith in
    rw (o.flag_set, o.flagged, same, u32_of_put teid fits) refl
