-- ===== src/Pfcp/Ie.antt =====
-- internal/pfcp/ie/ie.go: the element, its encoding, the parser of a sequence of elements, and the
-- finders.
pub mod Exact
use vectorcore_sgw.Common.{
  ℕ, zero, suc, ◌*◌, ◌+◌, ◌<◌, ◌^◌, Bool, true, false, Option, none, some, List, [], ◌∷◌, ◌++◌,
  length, take, drop, All, ltb, nat_beq, if◌then◌else◌,
}
use vectorcore_sgw.Common.Bytes.{IsByte, u16_of, put_u16}
use vectorcore_sgw.Common.Results.{Result, ok, err, ◌>>=◌}

pub record Element : Type 0 where
  pub typ : ℕ
  pub value : List ℕ

-- The two errors of `ParseIEs`. `stuck` is none of them: the model's loop ran out of fuel.
pub data ElementError : Type 0 where
  length_exceeds : ℕ → ℕ → ℕ → ElementError
  trailing_bytes : ℕ → ElementError
  stuck : ElementError

unfoldable pub marshal : Element → List ℕ
marshal ie = put_u16 ie.typ ++ (put_u16 (length ie.value) ++ ie.value)

-- The loops of `newGrouped` and of the message's `Marshal`.
unfoldable pub marshal_all : List Element → List ℕ
marshal_all [] = []
marshal_all (ie ∷ ies) = marshal ie ++ marshal_all ies

-- The loop of `ParseIEs`. Each round takes four bytes at least.
unfoldable pub parse_loop : ℕ → List ℕ → Result ElementError (List Element)
parse_loop fuel [] = ok []
parse_loop zero (x ∷ b) = err stuck
parse_loop (suc fuel) (a ∷ b ∷ hi ∷ lo ∷ rest) =
    let size = u16_of hi lo in
    let more = parse_loop fuel (drop size rest) in
    if ltb (length rest) size
    then err (length_exceeds (u16_of a b) size (length rest))
    else more >>= λ ies. ok (record { typ = u16_of a b; value = take size rest } ∷ ies)
parse_loop (suc fuel) b = err (trailing_bytes (length b))

unfoldable pub parse_ies : List ℕ → Result ElementError (List Element)
unfolding parse_loop
parse_ies b = parse_loop (length b) b

unfoldable pub find : List Element → ℕ → Option Element
find [] t = none
find (ie ∷ ies) t = if nat_beq ie.typ t then some ie else find ies t

unfoldable pub find_all : List Element → ℕ → List Element
find_all [] t = []
find_all (ie ∷ ies) t = if nat_beq ie.typ t then ie ∷ find_all ies t else find_all ies t

unfoldable pub children : Element → Result ElementError (List Element)
children ie = parse_ies ie.value

unfoldable pub new_grouped : ℕ → List Element → Element
new_grouped t children = record { typ = t; value = marshal_all children }

-- What the wire format can carry.
pub record IsWire (ie : Element) : Type 0 where
  pub typ_fits : ie.typ < 2 ^ 16
  pub value_bytes : All IsByte ie.value
  pub value_length : length ie.value < 2 ^ 16
