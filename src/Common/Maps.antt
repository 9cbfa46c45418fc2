-- ===== src/Common/Maps.antt =====
-- Go maps as association lists. The order of the list stands for the iteration order, which Go
-- leaves open. Each law reads an operation through `lookup`.
use Prim.Native.Nat.{◌+◌}
use mathlib.Core.Bool.{false}
use mathlib.Core.Path.{◌≡◌, refl, sym, ap, subst, ◌∙◌}
use mathlib.Core.List.{List, [], ◌∷◌, ◌++◌}
use mathlib.Core.Logic.{◌⊎◌, inl, inr}
use mathlib.Core.Option.{Option, none, some}
use native.Mathlib.Omega.{arith}
use vectorcore_sgw.Common.Tests.{Comparable, ◌==◌, if◌then◌else◌, Bool-cases}
use vectorcore_sgw.Common.Lists.{length, All}

module _ {ℓ} {K V : Type ℓ} ⦃c : Comparable K⦄ where
  -- `m[k]`
  unfoldable pub lookup : K → List (K × V) → Option V
  lookup k [] = none
  lookup k ((j, v) ∷ m) = if j == k then some v else lookup k m

  -- `delete(m, k)`
  unfoldable pub delete : K → List (K × V) → List (K × V)
  delete k [] = []
  delete k ((j, v) ∷ m) = if j == k then delete k m else (j, v) ∷ delete k m

  -- `m[k] = v`: an old entry keeps its place
  unfoldable pub insert : K → V → List (K × V) → List (K × V)
  insert k v [] = (k, v) ∷ []
  insert k v ((j, w) ∷ m) = if j == k then (k, v) ∷ m else (j, w) ∷ insert k v m

  -- No key stands twice, as in every Go map.
  abbrev pub Distinct : List (K × V) → Type ℓ
  Distinct [] = Unit
  Distinct ((k, v) ∷ m) = (lookup k m ≡ none) × Distinct m

  pub lookup-insert :
      (m : List (K × V)) (k : K) (v : V) (other : K)
      → lookup other (insert k v m) ≡ (if k == other then some v else lookup other m)
  unfolding insert lookup
  lookup-insert [] k v other = refl
  lookup-insert ((i, w) ∷ m) k v other =
      ground
        (arith, lookup-insert m k v other, c.same_iff i k, c.same_iff i other, c.same_iff k other)

  pub lookup-delete :
      (k j : K) (m : List (K × V)) → lookup j (delete k m) ≡ (if k == j then none else lookup j m)
  unfolding lookup delete
  lookup-delete k j [] = ground arith
  lookup-delete k j ((i, w) ∷ m) =
      ground (arith, c.same_iff k j, c.same_iff i k, c.same_iff i j, lookup-delete k j m)

  pub insert-Distinct : (k : K) (v : V) (m : List (K × V)) → Distinct m → Distinct (insert k v m)
  unfolding lookup insert
  insert-Distinct k v [] h = (refl, tt)
  insert-Distinct k v ((j, w) ∷ m) h =
      ground (arith, c.same_iff j k, c.same_iff k j, lookup-insert m k v j, insert-Distinct k v m)

  pub delete-Distinct : (k : K) (m : List (K × V)) → Distinct m → Distinct (delete k m)
  unfolding delete
  delete-Distinct k [] h = h
  delete-Distinct k ((j, w) ∷ m) h = ground (arith, lookup-delete k j m, delete-Distinct k m)

  -- A new key makes the map one entry longer.
  pub length-insert :
      (k : K) (v : V) (m : List (K × V)) → lookup k m ≡ none → length (insert k v m) ≡ length m + 1
  unfolding lookup insert
  length-insert k v [] h = omega arith
  length-insert k v ((j, w) ∷ m) h = ground (arith, length-insert k v m)

  pub delete_absent : (k : K) (m : List (K × V)) → lookup k m ≡ none → delete k m ≡ m
  unfolding lookup delete
  delete_absent k [] h = refl
  delete_absent k ((j, w) ∷ m) h = ground (arith, delete_absent k m)

  pub length-delete :
      (k : K) (v : V) (m : List (K × V))
      → Distinct m
      → lookup k m ≡ some v
      → length (delete k m) + 1 ≡ length m
  unfolding lookup delete
  length-delete k v [] d h = ground arith
  length-delete k v ((j, w) ∷ m) d h =
      ground (arith, c.same_iff j k, delete_absent j m, length-delete k v m)

  -- Of an entry that is all that is known of a map, every lookup knows it.
  pub lookup-All {κ} :
      (P : K × V → Type κ) (k : K) {v : V} (m : List (K × V))
      → All P m
      → lookup k m ≡ some v
      → P (k, v)
  unfolding lookup
  lookup-All P k [] h q = cc
  lookup-All P k {v} ((j, w) ∷ m) h q = elim (Bool-cases (j == k)) [
    | inl same ↦
        let key : j ≡ k = (c.same_iff j k).0 same in
        let value : w ≡ v = cc (rw same at q) in subst P (λ i. (key i, value i)) h.0
    | inr other ↦ lookup-All P k m h.1 (rw other at q)
  ]

  pub insert-All {κ} :
      (P : K × V → Type κ) (k : K) (v : V) (m : List (K × V))
      → P (k, v)
      → All P m
      → All P (insert k v m)
  unfolding insert
  insert-All P k v [] p h = (p, tt)
  insert-All P k v ((j, w) ∷ m) p h = elim (Bool-cases (j == k)) [
    | inl same ↦ rw same (p, h.1)
    | inr other ↦ rw other (h.0, insert-All P k v m p h.1)
  ]

  pub delete-All {κ} :
      (P : K × V → Type κ) (k : K) (m : List (K × V)) → All P m → All P (delete k m)
  unfolding delete
  delete-All P k [] h = h
  delete-All P k ((j, w) ∷ m) h = elim (Bool-cases (j == k)) [
    | inl same ↦ rw same (delete-All P k m h.1)
    | inr other ↦ rw other (h.0, delete-All P k m h.1)
  ]

  -- A new key goes to the end.
  pub insert_fresh :
      (k : K) (v : V) (m : List (K × V)) → lookup k m ≡ none → insert k v m ≡ m ++ ((k, v) ∷ [])
  unfolding lookup insert
  insert_fresh k v [] h = refl
  insert_fresh k v ((j, w) ∷ m) h = ground (arith, insert_fresh k v m)

  pub delete-insert_fresh :
      (k : K) (v : V) (m : List (K × V)) → lookup k m ≡ none → delete k (insert k v m) ≡ m
  unfolding lookup insert delete
  delete-insert_fresh k v [] h = ground (arith, c.same_iff k k)
  delete-insert_fresh k v ((j, w) ∷ m) h = ground (arith, delete-insert_fresh k v m)

  -- An entry of the map after a change, read back before it, and the other way round.
  pub insert_entry :
      (k : K) (v : V) (m : List (K × V)) (other : K) (w : V)
      → lookup other (insert k v m) ≡ some w
      → ((k ≡ other) × (v ≡ w)) ⊎ (lookup other m ≡ some w)
  insert_entry k v m other w e = elim (Bool-cases (k == other)) [
    | inl same ↦
        inl ((c.same_iff k other).0 same, cc (rw same at (sym (lookup-insert m k v other) ∙ e)))
    | inr apart ↦ inr (rw apart at (sym (lookup-insert m k v other) ∙ e))
  ]

  pub lookup-insert_same : (k : K) (v : V) (m : List (K × V)) → lookup k (insert k v m) ≡ some v
  lookup-insert_same k v m = lookup-insert m k v k ∙ rw ((c.same_iff k k).1 refl) refl

  pub lookup-insert_kept :
      (k : K) (v : V) (m : List (K × V)) (other : K) (w : V)
      → lookup k m ≡ none
      → lookup other m ≡ some w
      → lookup other (insert k v m) ≡ some w
  lookup-insert_kept k v m other w fresh e = elim (Bool-cases (k == other)) [
    | inl same ↦
        let key : k ≡ other = (c.same_iff k other).0 same in
        absurd (cc (sym fresh ∙ ap (λ i. lookup i m) key ∙ e))
    | inr apart ↦ lookup-insert m k v other ∙ rw apart e
  ]

  pub delete_entry :
      (k : K) (m : List (K × V)) (other : K) (w : V)
      → lookup other (delete k m) ≡ some w
      → ((k == other) ≡ false) × (lookup other m ≡ some w)
  delete_entry k m other w e = elim (Bool-cases (k == other)) [
    | inl same ↦ absurd (cc (rw same at (sym (lookup-delete k other m) ∙ e)))
    | inr apart ↦ (apart, rw apart at (sym (lookup-delete k other m) ∙ e))
  ]

  pub lookup-delete_kept :
      (k : K) (m : List (K × V)) (other : K)
      → (k == other) ≡ false
      → lookup other (delete k m) ≡ lookup other m
  lookup-delete_kept k m other apart = lookup-delete k other m ∙ rw apart refl
