-- ===== src/Gtpv2/Ie.antt =====
-- internal/gtpv2/ie/ie.go: the information element, its encoding and the parser of a sequence of
-- elements. A byte slice is a list of numbers.
pub mod RoundTrip
use Prim.Native.Nat.{bit_and}
use vectorcore_sgw.Common.{
  ℕ, zero, suc, ◌*◌, ◌+◌, ◌%◌, ◌/◌, ◌<◌, ◌^◌, Bool, true, false, ◌&&◌, Option, none, some, List, [],
  ◌∷◌, ◌++◌, length, take, drop, All, ltb, nat_beq, if◌then◌else◌,
}
use vectorcore_sgw.Common.Bytes.{IsByte, u16_of, put_u16}
use vectorcore_sgw.Common.Results.{Result, ok, err, ◌>>=◌}

-- `Type`, `Instance` and `Value` of Go's `IE`.
pub record Ie : Type 0 where
  pub typ : ℕ
  pub inst : ℕ
  pub value : List ℕ

-- The two errors of `ParseIEs`. `stuck` is none of them: the model's loop ran out of fuel.
pub data IeError : Type 0 where
  header_truncated : ℕ → IeError
  value_truncated : ℕ → ℕ → ℕ → IeError
  stuck : IeError

unfoldable pub marshal : Ie → List ℕ
marshal ie = ie.typ ∷ (put_u16 (length ie.value) ++ (bit_and ie.inst 0x0f ∷ ie.value))

-- Elements one after the other, as `Marshal` of a message and `NewBearerContext` append them.
unfoldable pub marshal_all : List Ie → List ℕ
marshal_all [] = []
marshal_all (ie ∷ ies) = marshal ie ++ marshal_all ies

-- The loop of `ParseIEs`. Each round takes four bytes at least.
unfoldable pub parse_loop : ℕ → List ℕ → Result IeError (List Ie)
parse_loop fuel [] = ok []
parse_loop zero (x ∷ b) = err stuck
parse_loop (suc fuel) (typ ∷ hi ∷ lo ∷ inst ∷ rest) =
    let size = u16_of hi lo in
    let more = parse_loop fuel (drop size rest) in
    if ltb (length rest) size
    then err (value_truncated typ size (length rest))
    else more >>= λ ies.
        ok (record { typ = typ; inst = bit_and inst 0x0f; value = take size rest } ∷ ies)
parse_loop (suc fuel) b = err (header_truncated (length b))

unfoldable pub parse_ies : List ℕ → Result IeError (List Ie)
unfolding parse_loop
parse_ies b = parse_loop (length b) b

unfoldable pub find_instance : List Ie → ℕ → ℕ → Option Ie
find_instance [] typ inst = none
find_instance (ie ∷ ies) typ inst =
    if nat_beq ie.typ typ && nat_beq ie.inst inst then some ie else find_instance ies typ inst

unfoldable pub find_first : List Ie → ℕ → Option Ie
unfolding find_instance
find_first ies typ = find_instance ies typ 0

unfoldable pub find_all : List Ie → ℕ → List Ie
find_all [] typ = []
find_all (ie ∷ ies) typ = if nat_beq ie.typ typ then ie ∷ find_all ies typ else find_all ies typ

-- What the wire format can carry: a byte, a nibble, and a value of bytes whose length fits 16 bits.
pub record IsWire (ie : Ie) : Type 0 where
  pub typ_byte : IsByte ie.typ
  pub inst_nibble : ie.inst < 16
  pub value_bytes : All IsByte ie.value
  pub value_length : length ie.value < 2 ^ 16
