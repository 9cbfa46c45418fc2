-- ===== src/Sgwu/Gtpu/Elements.antt =====
-- internal/sgwu/gtpu/ie.go: the elements of the signalling messages.
use vectorcore_sgw.Common.{
  ℕ, zero, suc, ◌<◌, ◌^◌, ◌≡◌, refl, ap, Option, none, some, List, [], ◌∷◌, ◌++◌, length, take,
  drop, number_keys, ltb, leb, nat_beq, if◌then◌else◌,
}
use vectorcore_sgw.Common.Addr.{Addr, no_addr, ip4, ip6}
use vectorcore_sgw.Common.Bytes.{u16_of, u32_of, put_u16, put_u32, u32_of_put}
use vectorcore_sgw.Common.Maps.{lookup, insert}

abbrev pub ie_type_recovery : ℕ
ie_type_recovery = 14

abbrev pub ie_type_teid_data_i : ℕ
ie_type_teid_data_i = 16

abbrev pub ie_type_gtpu_peer_address : ℕ
ie_type_gtpu_peer_address = 133

unfoldable pub build_recovery : List ℕ
build_recovery = ie_type_recovery ∷ 0 ∷ []

unfoldable pub build_teid_data_i : ℕ → List ℕ
build_teid_data_i teid = ie_type_teid_data_i ∷ put_u32 teid

-- `none` is the error for an address that is not of IPv4.
unfoldable pub build_gtpu_peer_address_ipv4 : Addr → Option (List ℕ)
build_gtpu_peer_address_ipv4 no_addr = none
build_gtpu_peer_address_ipv4 (ip6 bytes) = none
build_gtpu_peer_address_ipv4 (ip4 a b c d) =
    some (ie_type_gtpu_peer_address ∷ (put_u16 4 ++ (a ∷ b ∷ c ∷ d ∷ [])))

-- The length of a TV element; 0 where the type is unknown.
abbrev pub tv_len : ℕ → ℕ
tv_len t = if nat_beq t ie_type_recovery then 1 else if nat_beq t ie_type_teid_data_i then 4 else 0

-- What a round of the loop finds behind the type `t`: the value and the octets behind it, or the end
-- of the parsing.
unfoldable pub element : ℕ → List ℕ → Option (List ℕ × List ℕ)
element t rest =
    if leb 128 t
    then tlv rest
    else if nat_beq (tv_len t) 0
    then none
    else if ltb (length rest) (tv_len t)
    then none
    else some (take (tv_len t) rest, drop (tv_len t) rest)
  where
    tlv : List ℕ → Option (List ℕ × List ℕ)
    tlv [] = none
    tlv (hi ∷ []) = none
    tlv (hi ∷ lo ∷ more) =
        if ltb (length more) (u16_of hi lo)
        then none
        else some (take (u16_of hi lo) more, drop (u16_of hi lo) more)

-- The loop of `ParseIEs`. Each round takes one octet at least.
unfoldable pub parse_loop : ℕ → List ℕ → List (ℕ × List ℕ) → List (ℕ × List ℕ)
parse_loop fuel [] result = result
parse_loop zero (t ∷ rest) result = result
parse_loop (suc fuel) (t ∷ rest) result = elim (element t rest) [
  | none ↦ result
  | some found ↦ parse_loop fuel found.1 (insert t found.0 result)
]

unfoldable pub parse_ies : List ℕ → List (ℕ × List ℕ)
unfolding parse_loop
parse_ies b = parse_loop (length b) b []

-- The value of a TEID element, read as a number.
abbrev pub teid_of : Option (List ℕ) → Option ℕ
teid_of none = none
teid_of (some (a ∷ b ∷ c ∷ d ∷ [])) = some (u32_of a b c d)
teid_of (some other) = none

-- An Error Indication is built of the TEID element and the peer's address element, which is there for
-- every IPv4 address; the map that ParseIEs returns of the two has the TEID and the four octets of the
-- address under their types.
pub parse_ies-error_indication :
    (teid a b c d : ℕ)
    → teid < 2 ^ 32
    → (peer : List ℕ) × (build_gtpu_peer_address_ipv4 (ip4 a b c d) ≡ some peer)
      × (teid_of (lookup ie_type_teid_data_i (parse_ies (build_teid_data_i teid ++ peer)))
          ≡ some teid)
      × (lookup ie_type_gtpu_peer_address (parse_ies (build_teid_data_i teid ++ peer))
          ≡ some (a ∷ b ∷ c ∷ d ∷ []))
unfolding parse_ies build_teid_data_i build_gtpu_peer_address_ipv4 element lookup insert
parse_ies-error_indication teid a b c d h = (_, refl, ap some (u32_of_put teid h), refl)
