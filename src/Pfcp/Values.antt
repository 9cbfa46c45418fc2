-- ===== src/Pfcp/Values.antt =====
-- internal/pfcp/ie/ie.go: constructors and decoders of the values of single elements.
use Prim.Native.Nat.{bit_and, bit_or}
use vectorcore_sgw.Common.{
  ℕ, ◌+◌, Bool, true, false, ◌||◌, not, Option, none, some, List, [], ◌∷◌, ◌++◌, length, ltb,
  nat_beq, if◌then◌else◌,
}
use vectorcore_sgw.Common.Addr.{Addr, no_addr, ip4, ip6, ip4_at}
use vectorcore_sgw.Common.Bytes.{byte_at, u16_of, u32_of, put_u16, put_u32, has_bit}
use vectorcore_sgw.Common.Results.{Result, ok, err}
use vectorcore_sgw.Pfcp.Ie.{Element, new_grouped}
use vectorcore_sgw.Pfcp.Header.{u64_at, put_u64}
use vectorcore_sgw.Pfcp.Types.{
  type_cause, type_node_id, type_recovery_time_stamp, type_fseid, type_fteid, type_pdr_id,
  type_far_id, type_vector_core_qos_marking, type_precedence, type_source_interface,
  type_destination_interface, type_apply_action, type_outer_header_creation, type_created_pdr,
  type_up_function_features,
}

pub data ValueError : Type 0 where
  wrong_type : ℕ → ValueError
  too_short : ℕ → ValueError
  choose_without_address : ValueError
  unsupported_version : ℕ → ValueError

-- The two tests at the head of the decoders.
unfoldable pub checked {ℓ} :
    {A : Type ℓ} → ℕ → ℕ → Element → Result ValueError A → Result ValueError A
checked typ size ie result =
    if not (nat_beq ie.typ typ)
    then err (wrong_type ie.typ)
    else if ltb (length ie.value) size
    then err (too_short (length ie.value))
    else result

abbrev pub one_byte : ℕ → ℕ → Element
one_byte typ b = record { typ = typ; value = b ∷ [] }

abbrev pub u32_at : List ℕ → ℕ → ℕ
u32_at b i = u32_of (byte_at b i) (byte_at b (i + 1)) (byte_at b (i + 2)) (byte_at b (i + 3))

abbrev pub new_cause : ℕ → Element
new_cause cause = one_byte type_cause cause

unfoldable pub cause_value : Element → Result ValueError ℕ
unfolding checked
cause_value ie = checked type_cause 1 ie (ok (byte_at ie.value 0))

-- `NewNodeIDIPv4` of the four bytes of an address; the code takes 0.0.0.0 for one that is not IPv4.
abbrev pub to_4 : Addr → List ℕ
to_4 (ip4 a b c d) = a ∷ b ∷ c ∷ d ∷ []
to_4 other = 0 ∷ 0 ∷ 0 ∷ 0 ∷ []

unfoldable pub new_node_id_ipv4 : Addr → Element
new_node_id_ipv4 ip = record { typ = type_node_id; value = 0 ∷ to_4 ip }

unfoldable pub node_id_ipv4 : Element → Option Addr
node_id_ipv4 ie =
    if not (nat_beq ie.typ type_node_id)
      || ltb (length ie.value) 5
      || not (nat_beq (byte_at ie.value 0) 0)
    then none
    else some (ip4_at ie.value 1)

unfoldable pub new_recovery_time_stamp : ℕ → Element
new_recovery_time_stamp ntp_sec = record { typ = type_recovery_time_stamp; value = put_u32 ntp_sec }

unfoldable pub recovery_time_stamp_value : Element → Result ValueError ℕ
unfolding checked
recovery_time_stamp_value ie = checked type_recovery_time_stamp 4 ie (ok (u32_at ie.value 0))

pub record Fseid : Type 0 where
  pub seid : ℕ
  pub ipv4 : Addr

-- `none`: `As4` panics on an IPv6 address.
unfoldable pub new_fseid : ℕ → Addr → Option Element
new_fseid seid no_addr = some (record { typ = type_fseid; value = 0x02 ∷ put_u64 seid })
new_fseid seid (ip4 a b c d) =
    some (record { typ = type_fseid; value = 0x02 ∷ (put_u64 seid ++ (a ∷ b ∷ c ∷ d ∷ [])) })
new_fseid seid (ip6 bytes) = none

abbrev decode_fseid : List ℕ → Result ValueError Fseid
decode_fseid v =
    if has_bit (byte_at v 0) 0x02
    then (if ltb (length v) 13
        then err (too_short (length v))
        else ok (record { seid = u64_at v 1; ipv4 = ip4_at v 9 }))
    else ok (record { seid = u64_at v 1; ipv4 = no_addr })

unfoldable pub fseid_value : Element → Result ValueError Fseid
unfolding checked
fseid_value ie = checked type_fseid 9 ie (decode_fseid ie.value)

pub record Fteid : Type 0 where
  pub teid : ℕ
  pub ipv4 : Addr

-- `none`: `As4` panics on an IPv6 address.
unfoldable pub new_fteid_v4 : ℕ → Addr → Option Element
new_fteid_v4 teid no_addr =
    some (record { typ = type_fteid; value = 0x01 ∷ (put_u32 teid ++ (0 ∷ 0 ∷ 0 ∷ 0 ∷ [])) })
new_fteid_v4 teid (ip4 a b c d) =
    some (record { typ = type_fteid; value = 0x01 ∷ (put_u32 teid ++ (a ∷ b ∷ c ∷ d ∷ [])) })
new_fteid_v4 teid (ip6 bytes) = none

abbrev decode_fteid : List ℕ → Result ValueError (Fteid × Bool)
decode_fteid v =
    let flags = byte_at v 0 in
    if has_bit flags 0x04
    then (if not (has_bit flags (bit_or 0x01 0x02))
        then err choose_without_address
        else ok (record { teid = 0; ipv4 = no_addr }, true))
    else if ltb (length v) 5
    then err (too_short (length v))
    else if has_bit flags 0x01
    then (if ltb (length v) 9
        then err (too_short (length v))
        else ok (record { teid = u32_at v 1; ipv4 = ip4_at v 5 }, false))
    else ok (record { teid = u32_at v 1; ipv4 = no_addr }, false)

-- The F-TEID, and whether its CHOOSE bit is set.
unfoldable pub fteid_pfcp_value : Element → Result ValueError (Fteid × Bool)
unfolding checked
fteid_pfcp_value ie = checked type_fteid 1 ie (decode_fteid ie.value)

unfoldable pub new_pdr_id : ℕ → Element
new_pdr_id id = record { typ = type_pdr_id; value = put_u16 id }

unfoldable pub pdr_id_value : Element → Result ValueError ℕ
unfolding checked
pdr_id_value ie = checked type_pdr_id 2 ie (ok (u16_of (byte_at ie.value 0) (byte_at ie.value 1)))

unfoldable pub new_far_id : ℕ → Element
new_far_id id = record { typ = type_far_id; value = put_u32 id }

unfoldable pub far_id_value : Element → Result ValueError ℕ
unfolding checked
far_id_value ie = checked type_far_id 4 ie (ok (u32_at ie.value 0))

-- EBI, QCI, and whether they are valid.
unfoldable pub vector_core_qos_marking_value : Element → Result ValueError (ℕ × ℕ × Bool)
unfolding checked
vector_core_qos_marking_value ie =
    let v = ie.value in
    checked type_vector_core_qos_marking 4 ie (
      if not (nat_beq (byte_at v 0) 1)
      then err (unsupported_version (byte_at v 0))
      else ok (byte_at v 2, byte_at v 3, has_bit (byte_at v 1) 0x01))

unfoldable pub new_vector_core_qos_marking : ℕ → ℕ → Bool → Element
new_vector_core_qos_marking ebi qci valid = record {
  typ = type_vector_core_qos_marking;
  value = 1 ∷ (if valid then 0x01 else 0) ∷ ebi ∷ qci ∷ [];
}

unfoldable pub new_precedence : ℕ → Element
new_precedence p = record { typ = type_precedence; value = put_u32 p }

unfoldable pub new_source_interface : ℕ → Element
new_source_interface iface = one_byte type_source_interface (bit_and iface 0x0f)

unfoldable pub source_interface_value : Element → Result ValueError ℕ
unfolding checked
source_interface_value ie =
    checked type_source_interface 1 ie (ok (bit_and (byte_at ie.value 0) 0x0f))

unfoldable pub new_destination_interface : ℕ → Element
new_destination_interface iface = one_byte type_destination_interface (bit_and iface 0x0f)

unfoldable pub destination_interface_value : Element → Result ValueError ℕ
unfolding checked
destination_interface_value ie =
    checked type_destination_interface 1 ie (ok (bit_and (byte_at ie.value 0) 0x0f))

abbrev pub new_apply_action : ℕ → Element
new_apply_action flags = one_byte type_apply_action flags

unfoldable pub apply_action_value : Element → Result ValueError ℕ
unfolding checked
apply_action_value ie = checked type_apply_action 1 ie (ok (byte_at ie.value 0))

abbrev pub new_up_function_features : ℕ → Element
new_up_function_features flags = one_byte type_up_function_features flags

pub record OuterHeader : Type 0 where
  pub description : ℕ
  pub teid : ℕ
  pub ipv4 : Addr

-- `none`: `As4` panics on an IPv6 address.
unfoldable pub new_outer_header_creation : ℕ → ℕ → Addr → Option Element
new_outer_header_creation desc teid no_addr =
    some (record { typ = type_outer_header_creation; value = put_u16 desc ++ put_u32 teid })
new_outer_header_creation desc teid (ip4 a b c d) = some (record {
  typ = type_outer_header_creation;
  value = put_u16 desc ++ (put_u32 teid ++ (a ∷ b ∷ c ∷ d ∷ []));
})
new_outer_header_creation desc teid (ip6 bytes) = none

abbrev decode_outer_header : List ℕ → Result ValueError OuterHeader
decode_outer_header v =
    let description = u16_of (byte_at v 0) (byte_at v 1) in
    if nat_beq description 0x0100
    then (if ltb (length v) 10
        then err (too_short (length v))
        else ok (record { description = description; teid = u32_at v 2; ipv4 = ip4_at v 6 }))
    else ok (record { description = description; teid = u32_at v 2; ipv4 = no_addr })

unfoldable pub outer_header_creation_value : Element → Result ValueError OuterHeader
unfolding checked
outer_header_creation_value ie =
    checked type_outer_header_creation 6 ie (decode_outer_header ie.value)

unfoldable pub new_created_pdr : Element → Element → Element
unfolding new_grouped
new_created_pdr pdr_id fteid = new_grouped type_created_pdr (pdr_id ∷ fteid ∷ [])
