-- ===== src/Sgwu/Session/Indexes.antt =====
-- Two indexes of the same references by two keys, as the store of internal/sgwu/session/store.go keeps
-- them.
use vectorcore_sgw.Common.{
  ℕ, ◌≡◌, refl, sym, ap, subst, ◌∙◌, Bool, true, false, none, some, List, [], number_keys, ◌==◌,
  nat_beq_iff, if◌then◌else◌, inl, inr, Bool-cases,
}
use vectorcore_sgw.Common.Maps.{
  lookup, insert, delete, Distinct, lookup-insert, insert_entry, lookup-insert_same,
  lookup-insert_kept, delete_entry, lookup-delete_kept, insert-Distinct, delete-Distinct,
}

-- Each entry of the index `m` is a reference under its own key, and it stands in the index `n` too.
pub record Half (key other : ℕ → ℕ) (m n : List (ℕ × ℕ)) : Type 0 where
  pub distinct : Distinct m
  pub keyed : (k r : ℕ) → lookup k m ≡ some r → key r ≡ k
  pub linked : (k r : ℕ) → lookup k m ≡ some r → lookup (other r) n ≡ some r

pub nil-Half : (key other : ℕ → ℕ) → Half key other [] []
unfolding lookup
nil-Half key other = record {
  distinct = tt;
  keyed = λ k r e. absurd (cc e);
  linked = λ k r e. absurd (cc e);
}

pub insert-Half :
    (key other : ℕ → ℕ) (r : ℕ) (m n : List (ℕ × ℕ))
    → Half key other m n
    → lookup (other r) n ≡ none
    → Half key other (insert (key r) r m) (insert (other r) r n)
insert-Half key other r m n h new_n = record {
  distinct = insert-Distinct (key r) r m h.distinct;
  keyed = λ k w e. elim (insert_entry (key r) r m k w e) [
    | inl here ↦ ap key (sym here.1) ∙ here.0
    | inr old ↦ h.keyed k w old
  ];
  linked = λ k w e. elim (insert_entry (key r) r m k w e) [
    | inl here ↦
        subst (λ x. lookup (other x) (insert (other r) r n) ≡ some x) here.1
          (lookup-insert_same (other r) r n)
    | inr old ↦ lookup-insert_kept (other r) r n (other w) w new_n (h.linked k w old)
  ];
}

-- Taking out a reference that the index holds.
pub delete-Half :
    (key other : ℕ → ℕ) (r : ℕ) (m n : List (ℕ × ℕ))
    → Half key other m n
    → lookup (other r) n ≡ some r
    → Half key other (delete (key r) m) (delete (other r) n)
delete-Half key other r m n h there = record {
  distinct = delete-Distinct (key r) m h.distinct;
  keyed = λ k w e. h.keyed k w (delete_entry (key r) m k w e).1;
  linked = λ k w e.
      let (apart, old) = delete_entry (key r) m k w e in
      lookup-delete_kept (other r) n (other w) (distinct_keys k w apart old) ∙ h.linked k w old;
}
  where
    distinct_keys :
        (k w : ℕ) → (key r == k) ≡ false → lookup k m ≡ some w → (other r == other w) ≡ false
    distinct_keys k w apart old = elim (Bool-cases (other r == other w)) [
      | inl same ↦
          let r_is_w : r ≡ w =
            cc (there, h.linked k w old, (nat_beq_iff (other r) (other w)).0 same) in
          let hit : (key r == k) ≡ true =
            (nat_beq_iff (key r) k).1 (ap key r_is_w ∙ h.keyed k w old) in
          absurd (cc (hit, apart))
      | inr diff ↦ diff
    ]

-- An index is read through `lookup` alone.
pub Half-lookup :
    (key other : ℕ → ℕ) (m n m' n' : List (ℕ × ℕ))
    → Half key other m' n'
    → Distinct m
    → ((k : ℕ) → lookup k m ≡ lookup k m')
    → ((k : ℕ) → lookup k n ≡ lookup k n')
    → Half key other m n
Half-lookup key other m n m' n' h d same_m same_n = record {
  distinct = d;
  keyed = λ k r e. h.keyed k r (sym (same_m k) ∙ e);
  linked = λ k r e. same_n (other r) ∙ h.linked k r (sym (same_m k) ∙ e);
}

-- An existing key of an index gets a new value: as if the entry had been taken out before.
pub lookup-replace :
    (k r : ℕ) (m m' : List (ℕ × ℕ)) (i : ℕ)
    → ((k == i) ≡ false → lookup i m ≡ lookup i m')
    → lookup i (insert k r m) ≡ lookup i (insert k r m')
lookup-replace k r m m' i h = lookup-insert m k r i ∙ same (k == i) h ∙ sym (lookup-insert m' k r i)
  where
    same :
        (b : Bool)
        → (b ≡ false → lookup i m ≡ lookup i m')
        → (if b then some r else lookup i m) ≡ (if b then some r else lookup i m')
    same true h = refl
    same false h = h refl
