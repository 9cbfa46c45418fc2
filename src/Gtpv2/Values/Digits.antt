-- ===== src/Gtpv2/Values/Digits.antt =====
-- internal/gtpv2/ie/ie.go: digits packed two to a byte, for IMSI, MSISDN, MEI and the PLMN.
use Prim.Native.Nat.{bit_and, bit_or}
use vectorcore_sgw.Common.{
  ℕ, ◌+◌, ◌-◌, ◌*◌, ◌/◌, ◌%◌, ◌<◌, ◌≤◌, ◌≡◌, refl, false, List, [], ◌∷◌, All, arith, nat_beq,
  lt-nat_beq, ◌∙◌, if◌then◌else◌,
}
use vectorcore_sgw.Common.Bytes.{or_nibbles, low_nibble}

-- `byte(c - '0')`
abbrev digit_of : ℕ → ℕ
digit_of c = (c + 256 - 48) % 256

-- The loop of `encodeTBCD` two characters at a time: the text is ASCII.
unfoldable pub encode_tbcd : List ℕ → List ℕ
encode_tbcd [] = []
encode_tbcd (c ∷ []) = bit_or (digit_of c) 0xf0 ∷ []
encode_tbcd (c ∷ e ∷ rest) = bit_or (digit_of c) (digit_of e * 16 % 256) ∷ encode_tbcd rest

unfoldable pub decode_tbcd : List ℕ → List ℕ
decode_tbcd [] = []
decode_tbcd (v ∷ rest) =
    let lo = bit_and v 0x0f in
    let hi = bit_and (v / 16) 0x0f in
    (48 + lo) ∷ (if nat_beq hi 15 then decode_tbcd rest else (48 + hi) ∷ decode_tbcd rest)

-- A leading `+` is dropped.
unfoldable pub encode_e164 : List ℕ → List ℕ
unfolding encode_tbcd
encode_e164 [] = []
encode_e164 (c ∷ rest) = if nat_beq c 43 then encode_tbcd rest else encode_tbcd (c ∷ rest)

abbrev pub IsDigit : ℕ → Type 0
IsDigit c = (48 ≤ c) × (c ≤ 57)

digit_of_digit : (c : ℕ) → IsDigit c → digit_of c ≡ c - 48
digit_of_digit c h = ground arith

pair_byte :
    (c e : ℕ)
    → IsDigit c
    → IsDigit e
    → bit_or (digit_of c) (digit_of e * 16 % 256) ≡ (c - 48) + (e - 48) * 16
pair_byte c e hc he =
    let top : digit_of e * 16 % 256 ≡ (e - 48) * 16 = rw (digit_of_digit e he) (ground arith) in
    rw (top, digit_of_digit c hc) (or_nibbles (c - 48) (e - 48) (ground arith) (ground arith))

last_byte : (c : ℕ) → IsDigit c → bit_or (digit_of c) 0xf0 ≡ (c - 48) + 15 * 16
last_byte c h = rw (digit_of_digit c h) (or_nibbles (c - 48) 15 (ground arith) (omega arith))

-- The two nibbles that `decodeTBCD` takes from a byte.
low_of : (lo hi : ℕ) → lo < 16 → hi < 16 → bit_and (lo + hi * 16) 0x0f ≡ lo
low_of lo hi hl hh = low_nibble (lo + hi * 16) (omega arith) ∙ omega arith

high_of : (lo hi : ℕ) → lo < 16 → hi < 16 → bit_and ((lo + hi * 16) / 16) 0x0f ≡ hi
high_of lo hi hl hh = low_nibble ((lo + hi * 16) / 16) (omega arith) ∙ omega arith

-- Any text of decimal digits, of odd length or even, is read back from its encoding.
pub decode_tbcd-encode_tbcd : (s : List ℕ) → All IsDigit s → decode_tbcd (encode_tbcd s) ≡ s
unfolding decode_tbcd encode_tbcd
decode_tbcd-encode_tbcd [] h = refl
decode_tbcd-encode_tbcd (c ∷ []) h =
    let lo = low_of (c - 48) 15 (ground arith) (omega arith) in
    let hi = high_of (c - 48) 15 (ground arith) (omega arith) in
    let back : 48 + (c - 48) ≡ c = ground arith in rw (last_byte c h.0, lo, hi, back) refl
decode_tbcd-encode_tbcd (c ∷ e ∷ rest) h =
    let lo = low_of (c - 48) (e - 48) (ground arith) (ground arith) in
    let hi = high_of (c - 48) (e - 48) (ground arith) (ground arith) in
    let not_last : nat_beq (e - 48) 15 ≡ false = lt-nat_beq (e - 48) 15 (ground arith) in
    let back_lo : 48 + (c - 48) ≡ c = ground arith in
    let back_hi : 48 + (e - 48) ≡ e = ground arith in
    rw
      (
        pair_byte c e h.0 h.1.0,
        lo,
        hi,
        not_last,
        back_lo,
        back_hi,
        decode_tbcd-encode_tbcd rest h.1.1,
      )
      refl
