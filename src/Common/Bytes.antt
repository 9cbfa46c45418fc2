-- ===== src/Common/Bytes.antt =====
-- Byte slices as lists of numbers below 256: reads and writes of package encoding/binary in
-- big-endian order, and single bits.
use Prim.Native.Nat.{ℕ, zero, suc, ◌+◌, ◌*◌, ◌/◌, ◌%◌, ◌^◌, ◌<◌, bit_and, bit_or}
use mathlib.Core.Path.{◌≡◌, refl}
use mathlib.Core.Bool.{Bool, true, not, ◌&&◌}
use mathlib.Core.List.{List, [], ◌∷◌}
use native.Mathlib.Omega.{arith}
use vectorcore_sgw.Common.Tests.{nat_beq, nat_beq_iff, if◌then◌else◌}
use vectorcore_sgw.Common.Lists.{get_or}

abbrev pub IsByte : ℕ → Type 0
IsByte b = b < 256

-- `b[i]`, where the code has checked the length
abbrev pub byte_at : List ℕ → ℕ → ℕ
byte_at b i = get_or b i 0

abbrev pub u16_of : ℕ → ℕ → ℕ
u16_of a b = a * 256 + b

abbrev pub u24_of : ℕ → ℕ → ℕ → ℕ
u24_of a b c = (a * 256 + b) * 256 + c

abbrev pub u32_of : ℕ → ℕ → ℕ → ℕ → ℕ
u32_of a b c d = ((a * 256 + b) * 256 + c) * 256 + d

abbrev pub put_u16 : ℕ → List ℕ
put_u16 v = v / 256 % 256 ∷ v % 256 ∷ []

abbrev pub put_u24 : ℕ → List ℕ
put_u24 v = v / 2 ^ 16 % 256 ∷ v / 256 % 256 ∷ v % 256 ∷ []

abbrev pub put_u32 : ℕ → List ℕ
put_u32 v = v / 2 ^ 24 % 256 ∷ v / 2 ^ 16 % 256 ∷ v / 256 % 256 ∷ v % 256 ∷ []

-- `b & mask != 0`
abbrev pub has_bit : ℕ → ℕ → Bool
has_bit b mask = not (nat_beq (bit_and b mask) 0)

-- `if set { flags |= mask }`
abbrev pub set_bit : Bool → ℕ → ℕ → ℕ
set_bit set mask flags = if set then bit_or flags mask else flags

pub u16_of_put : (v : ℕ) → v < 2 ^ 16 → u16_of (v / 256 % 256) (v % 256) ≡ v
u16_of_put v h = omega arith

pub u24_of_put : (v : ℕ) → v < 2 ^ 24 → u24_of (v / 2 ^ 16 % 256) (v / 256 % 256) (v % 256) ≡ v
u24_of_put v h = omega arith

pub u32_of_put :
    (v : ℕ)
    → v < 2 ^ 32
    → u32_of (v / 2 ^ 24 % 256) (v / 2 ^ 16 % 256) (v / 256 % 256) (v % 256) ≡ v
u32_of_put v h = omega arith

pub put_u16_of : (a b : ℕ) → IsByte a → IsByte b → put_u16 (u16_of a b) ≡ a ∷ b ∷ []
put_u16_of a b ha hb = ground arith

-- A fact about every byte, by evaluation.
all_below : ℕ → (ℕ → Bool) → Bool
all_below zero p = true
all_below (suc n) p = p n && all_below n p

all_below_lem : (n : ℕ) (p : ℕ → Bool) (x : ℕ) → all_below n p ≡ true → x < n → p x ≡ true
unfolding all_below
all_below_lem zero p x h lt = absurd (omega arith)
all_below_lem (suc n) p x h lt = ground (arith, all_below_lem n p x)

low_nibble_table : all_below 256 (λ x. nat_beq (bit_and x 0x0f) (x % 16)) ≡ true
unfolding all_below
low_nibble_table = refl

pub low_nibble : (x : ℕ) → x < 256 → bit_and x 0x0f ≡ x % 16
low_nibble x h = (nat_beq_iff _ _).0 (all_below_lem 256 _ x low_nibble_table h)

-- The test holds of every byte.
unfoldable pub byte_table : (ℕ → Bool) → Bool
unfolding all_below
byte_table p = all_below 256 p

pub byte_table_lem : (p : ℕ → Bool) (x : ℕ) → byte_table p ≡ true → x < 256 → p x ≡ true
unfolding byte_table
byte_table_lem p x h lt = all_below_lem 256 p x h lt

or_nibbles_table :
    all_below 16 (λ lo. all_below 16 (λ hi. nat_beq (bit_or lo (hi * 16)) (lo + hi * 16))) ≡ true
unfolding all_below
or_nibbles_table = refl

pub or_nibbles : (lo hi : ℕ) → lo < 16 → hi < 16 → bit_or lo (hi * 16) ≡ lo + hi * 16
or_nibbles lo hi hl hh =
    (nat_beq_iff _ _).0 (all_below_lem 16 _ hi (all_below_lem 16 _ lo or_nibbles_table hl) hh)
