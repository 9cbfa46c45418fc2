-- ===== src/Sgwc/Teid/Laws.antt =====
-- internal/sgwc/teid/allocator.go: what the allocator hands out, takes back and keeps.
use vectorcore_sgw.Common.{
  ℕ, zero, suc, ◌+◌, ◌≡◌, ◌≢◌, refl, subst, false, Option, none, some, List, [], ◌∷◌, number_keys,
  nat_beq, nat_beq_iff, arith, inl, inr, Bool-cases, Option-cases,
}
use vectorcore_sgw.Common.Maps.{
  lookup, insert, length-insert, delete-insert_fresh, lookup-insert_same,
}
use vectorcore_sgw.Common.Results.{ok}
use vectorcore_sgw.Sgwc.Teid.{Allocator, is_used, alloc_loop, alloc, free, count}

unused-none : (t : ℕ) (used : Allocator) → is_used t used ≡ false → lookup t used ≡ none
unused-none t used h = elim (Option-cases (lookup t used)) [
  | inl absent ↦ absent
  | inr there ↦ absurd (cc (rw there.1 at h))
]

-- What `Alloc` has done when it returns `t`.
pub record Allocated (t : ℕ) (before after : Allocator) : Type 0 where
  pub non_zero : t ≢ 0
  pub was_free : lookup t before ≡ none
  pub added : after ≡ insert t tt before

some_teid : (t : ℕ) → nat_beq t 0 ≡ false → t ≢ 0
some_teid t h e = cc (h, (nat_beq_iff t 0).1 e)

alloc_loop-Allocated :
    (n : ℕ) (reads : List (Option ℕ)) (used : Allocator) (t : ℕ)
    → (alloc_loop n reads used).0 ≡ ok t
    → Allocated t used (alloc_loop n reads used).1
unfolding alloc_loop
alloc_loop-Allocated zero reads used t e = absurd (cc e)
alloc_loop-Allocated (suc n) [] used t e = absurd (cc e)
alloc_loop-Allocated (suc n) (none ∷ reads) used t e = absurd (cc e)
alloc_loop-Allocated (suc n) (some r ∷ reads) used t e = elim (Bool-cases (nat_beq r 0)) [
  | inl zero_read ↦ rw zero_read (alloc_loop-Allocated n reads used t (rw zero_read at e))
  | inr non_zero ↦ elim (Bool-cases (is_used r used)) [
    | inl taken ↦
        rw (non_zero, taken) (alloc_loop-Allocated n reads used t (rw (non_zero, taken) at e))
    | inr unused ↦
        let same : r ≡ t = cc (rw (non_zero, unused) at e) in
        rw (non_zero, unused)
          (subst (λ x. Allocated x used (insert r tt used)) same
            (record {
              non_zero = some_teid r non_zero;
              was_free = unused-none r used unused;
              added = refl;
            }))
  ]
]

nonzero_test : (t : ℕ) → t ≢ 0 → nat_beq t 0 ≡ false
nonzero_test zero h = absurd (h refl)
nonzero_test (suc t) h = ground arith

-- A TEID that Alloc returns is not 0 and was not in use; it is in use from then on, as the only
-- change, and Free gives back the allocator from before.
pub alloc-free :
    (reads : List (Option ℕ)) (used : Allocator) (t : ℕ)
    → (alloc reads used).0 ≡ ok t
    → (t ≢ 0)
      × (lookup t used ≡ none)
      × (lookup t (alloc reads used).1 ≡ some tt)
      × (count (alloc reads used).1 ≡ count used + 1)
      × (free t (alloc reads used).1 ≡ used)
unfolding alloc free
alloc-free reads used t e =
    let a : Allocated t used (alloc_loop 1024 reads used).1 =
      alloc_loop-Allocated 1024 reads used t e in
    (
      a.non_zero,
      a.was_free,
      rw a.added (lookup-insert_same t tt used),
      rw a.added (length-insert t tt used a.was_free),
      rw (nonzero_test t a.non_zero, a.added) (delete-insert_fresh t tt used a.was_free),
    )
