-- ===== src/Sgwc/Teid.antt =====
-- internal/sgwc/teid/allocator.go: the TEIDs of the control plane. What `crypto/rand` yields in one
-- call is a list of results, one for each read: a 32-bit number, or `none` for an error of the read.
pub mod Laws
pub mod Runs
use vectorcore_sgw.Common.{
  ℕ, zero, suc, Bool, true, false, Option, none, some, List, [], ◌∷◌, length, number_keys, nat_beq,
  if◌then◌else◌, is_some,
}
use vectorcore_sgw.Common.Maps.{lookup, insert, delete}
use vectorcore_sgw.Common.Results.{Result, ok, err}

-- `used`, a map to empty structs
abbrev pub Allocator : Type 0
Allocator = List (ℕ × Unit)

abbrev pub new_allocator : Allocator
new_allocator = []

abbrev pub is_used : ℕ → Allocator → Bool
is_used t used = is_some (lookup t used)

pub data AllocError : Type 0 where
  rand_read exhausted : AllocError

-- The loop of `Alloc`, with the attempts that are left. The list of reads has one for each.
unfoldable pub alloc_loop : ℕ → List (Option ℕ) → Allocator → Result AllocError ℕ × Allocator
alloc_loop zero reads used = (err exhausted, used)
alloc_loop (suc attempts) [] used = (err exhausted, used)
alloc_loop (suc attempts) (none ∷ reads) used = (err rand_read, used)
alloc_loop (suc attempts) (some t ∷ reads) used =
    let more = alloc_loop attempts reads used in
    if nat_beq t 0 then more else if is_used t used then more else (ok t, insert t tt used)

unfoldable pub alloc : List (Option ℕ) → Allocator → Result AllocError ℕ × Allocator
unfolding alloc_loop
alloc reads used = alloc_loop 1024 reads used

unfoldable pub free : ℕ → Allocator → Allocator
free t used = if nat_beq t 0 then used else delete t used

unfoldable pub reserve : ℕ → Allocator → Bool × Allocator
reserve t used =
    if nat_beq t 0
    then (false, used)
    else if is_used t used
    then (false, used)
    else (true, insert t tt used)

-- `Len`
abbrev pub count : Allocator → ℕ
count used = length used
