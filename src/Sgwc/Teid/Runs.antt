-- ===== src/Sgwc/Teid/Runs.antt =====
-- Concrete allocators of internal/sgwc/teid/allocator.go, and the theorems at them.
use vectorcore_sgw.Common.{ℕ, ◌+◌, ◌≡◌, ◌≢◌, refl, none, some, [], ◌∷◌, number_keys}
use vectorcore_sgw.Common.Maps.{lookup, insert}
use vectorcore_sgw.Common.Results.{ok}
use vectorcore_sgw.Sgwc.Teid.{Allocator, alloc, alloc_loop, free, count}
use vectorcore_sgw.Sgwc.Teid.Laws.{alloc-free}

abbrev one_used : Allocator
one_used = (7, tt) ∷ []

-- 0 and the used TEID are passed over.
alloc_nine : (alloc (some 0 ∷ some 7 ∷ some 9 ∷ []) one_used).0 ≡ ok 9
unfolding alloc alloc_loop lookup insert
alloc_nine = refl

alloc-free_example :
    (◌≢◌ {A = ℕ} 9 0)
    × (lookup 9 one_used ≡ none)
    × (lookup 9 (alloc (some 0 ∷ some 7 ∷ some 9 ∷ []) one_used).1 ≡ some tt)
    × (count (alloc (some 0 ∷ some 7 ∷ some 9 ∷ []) one_used).1 ≡ 1 + 1)
    × (free 9 (alloc (some 0 ∷ some 7 ∷ some 9 ∷ []) one_used).1 ≡ one_used)
alloc-free_example = alloc-free (some 0 ∷ some 7 ∷ some 9 ∷ []) one_used 9 alloc_nine
