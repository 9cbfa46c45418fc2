-- ===== src/Gtpv2/Values.antt =====
-- internal/gtpv2/ie/ie.go: constructors and decoders of the values of single elements. A text is the
-- list of its bytes.
pub mod Digits
pub mod Apn
pub mod Fields
use Prim.Native.Nat.{bit_and, bit_or}
use vectorcore_sgw.Common.{
  ℕ, zero, suc, ◌+◌, ◌-◌, ◌*◌, ◌/◌, ◌%◌, Bool, true, false, ◌&&◌, ◌||◌, not, Option, none, some,
  List, [], ◌∷◌, ◌++◌, length, take, drop, ltb, leb, nat_beq, if◌then◌else◌,
}
use vectorcore_sgw.Common.Addr.{Addr, no_addr, ip4, ip6}
use vectorcore_sgw.Common.Bytes.{byte_at, u32_of, put_u32, has_bit}
use vectorcore_sgw.Common.Results.{Result, ok, err, ◌>>=◌}
use vectorcore_sgw.Gtpv2.Ie.{Ie, IeError, parse_ies, marshal_all}

pub data ValueError : Type 0 where
  wrong_type : ℕ → ValueError
  too_short : ℕ → ValueError

abbrev pub plain_ie : ℕ → List ℕ → Ie
plain_ie typ value = record { typ = typ; inst = 0; value = value }

-- The two tests at the head of the decoders.
unfoldable pub checked {ℓ} : {A : Type ℓ} → ℕ → ℕ → Ie → Result ValueError A → Result ValueError A
checked typ size ie result =
    if not (nat_beq ie.typ typ)
    then err (wrong_type ie.typ)
    else if ltb (length ie.value) size
    then err (too_short (length ie.value))
    else result

unfoldable pub new_recovery : ℕ → Ie
new_recovery restart_counter = plain_ie 3 (restart_counter ∷ [])

unfoldable pub recovery_value : Ie → Result ValueError ℕ
unfolding checked
recovery_value ie = checked 3 1 ie (ok (byte_at ie.value 0))

unfoldable pub cause_value : Ie → Result ValueError ℕ
unfolding checked
cause_value ie = checked 2 1 ie (ok (byte_at ie.value 0))

unfoldable pub new_ebi_instance : ℕ → ℕ → Ie
new_ebi_instance inst ebi = record { typ = 73; inst = inst; value = bit_and ebi 0x0f ∷ [] }

unfoldable pub new_ebi : ℕ → Ie
new_ebi ebi = plain_ie 73 (bit_and ebi 0x0f ∷ [])

unfoldable pub ebi_value : Ie → Result ValueError ℕ
unfolding checked
ebi_value ie = checked 73 1 ie (ok (bit_and (byte_at ie.value 0) 0x0f))

pub record Fteid : Type 0 where
  pub intf_type : ℕ
  pub teid : ℕ
  pub ipv4 : Addr

-- `none`: `As4` panics on an IPv6 address.
unfoldable pub new_fteid : ℕ → ℕ → ℕ → Addr → Option Ie
new_fteid inst if_type teid no_addr =
    some (record { typ = 87; inst = inst; value = bit_and if_type 0x3f ∷ put_u32 teid })
new_fteid inst if_type teid (ip4 a b c d) = some (record {
  typ = 87;
  inst = inst;
  value = bit_or (bit_and if_type 0x3f) 0x80 ∷ (put_u32 teid ++ (a ∷ b ∷ c ∷ d ∷ []));
})
new_fteid inst if_type teid (ip6 bytes) = none

abbrev fteid_base : List ℕ → Addr → Fteid
fteid_base v addr = record {
  intf_type = bit_and (byte_at v 0) 0x3f;
  teid = u32_of (byte_at v 1) (byte_at v 2) (byte_at v 3) (byte_at v 4);
  ipv4 = addr;
}

-- What is decoded once the type and the five octets are there.
unfoldable pub decode_fteid : List ℕ → Result ValueError Fteid
decode_fteid v =
    if has_bit (byte_at v 0) 0x80
    then (if ltb (length v) 9
        then err (too_short (length v))
        else ok (fteid_base v (ip4 (byte_at v 5) (byte_at v 6) (byte_at v 7) (byte_at v 8))))
    else ok (fteid_base v no_addr)

unfoldable pub fteid_value : Ie → Result ValueError Fteid
unfolding checked decode_fteid
fteid_value ie = checked 87 5 ie (decode_fteid ie.value)

pub record Paa : Type 0 where
  pub pdn_type : ℕ
  pub ipv4 : Addr

unfoldable pub new_paa : ℕ → Addr → Option Ie
new_paa pdn_type (ip4 a b c d) =
    some
      (plain_ie 79 (bit_and pdn_type 7 ∷ (if nat_beq pdn_type 1 then a ∷ b ∷ c ∷ d ∷ [] else [])))
new_paa pdn_type (ip6 bytes) =
    if nat_beq pdn_type 1 then none else some (plain_ie 79 (bit_and pdn_type 7 ∷ []))
new_paa pdn_type no_addr = some (plain_ie 79 (bit_and pdn_type 7 ∷ []))

abbrev paa_base : List ℕ → Addr → Paa
paa_base v addr = record { pdn_type = bit_and (byte_at v 0) 7; ipv4 = addr }

unfoldable pub decode_paa : List ℕ → Result ValueError Paa
decode_paa v =
    if nat_beq (bit_and (byte_at v 0) 7) 1
    then (if ltb (length v) 5
        then err (too_short (length v))
        else ok (paa_base v (ip4 (byte_at v 1) (byte_at v 2) (byte_at v 3) (byte_at v 4))))
    else ok (paa_base v no_addr)

unfoldable pub paa_value : Ie → Result ValueError Paa
unfolding checked decode_paa
paa_value ie = checked 79 1 ie (decode_paa ie.value)

-- A grouped element.
unfoldable pub new_bearer_context : ℕ → List Ie → Ie
new_bearer_context inst children = record { typ = 93; inst = inst; value = marshal_all children }

unfoldable pub child_ies : Ie → Result IeError (List Ie)
child_ies ie = parse_ies ie.value
