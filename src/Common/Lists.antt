-- ===== src/Common/Lists.antt =====
-- Lists measured and indexed by native numbers, predicates on lists, and list searches.
use Prim.Native.Nat.add
use Prim.Native.Nat.{ℕ, zero, suc, ◌+◌, ◌-◌, ◌≤◌, min}
use mathlib.Core.Path.{◌≡◌, refl, ap}
use mathlib.Core.Bool.{Bool, true, false, ◌||◌}
use mathlib.Core.List.{List, [], ◌∷◌, ◌++◌, map}
use mathlib.Core.Logic.{◌⊎◌, inl, inr}
use native.Mathlib.Omega.{arith}
use vectorcore_sgw.Common.Tests.{Bool-cases, if◌then◌else◌}

module _ {ℓ} {A : Type ℓ} where
  abbrev pub length : List A → ℕ
  length [] = 0
  length (x ∷ xs) = suc (length xs)

  abbrev pub get_or : List A → ℕ → A → A
  get_or [] i d = d
  get_or (x ∷ xs) zero d = x
  get_or (x ∷ xs) (suc i) d = get_or xs i d

  abbrev pub take : ℕ → List A → List A
  take zero xs = []
  take (suc n) [] = []
  take (suc n) (x ∷ xs) = x ∷ take n xs

  abbrev pub drop : ℕ → List A → List A
  drop zero xs = xs
  drop (suc n) [] = []
  drop (suc n) (x ∷ xs) = drop n xs

  abbrev pub All {κ} : (A → Type κ) → List A → Type κ
  All P [] = Unit {κ}
  All P (x ∷ xs) = P x × All P xs

  abbrev pub keep : (A → Bool) → List A → List A
  keep p [] = []
  keep p (x ∷ xs) = let rest = keep p xs in if p x then x ∷ rest else rest

  abbrev pub any : (A → Bool) → List A → Bool
  any p [] = false
  any p (x ∷ xs) = p x || any p xs

module _ {ℓ} {A : Type ℓ} where
  pub length-append : (xs ys : List A) → length (xs ++ ys) ≡ length xs + length ys
  length-append [] ys = omega arith
  length-append (x ∷ xs) ys = omega (arith, length-append xs ys)

  pub length-take : (n : ℕ) (xs : List A) → length (take n xs) ≡ min n (length xs)
  length-take zero xs = omega arith
  length-take (suc n) [] = omega arith
  length-take (suc n) (x ∷ xs) = omega (arith, length-take n xs)

  pub length-drop : (n : ℕ) (xs : List A) → length (drop n xs) ≡ length xs - n
  length-drop zero xs = omega arith
  length-drop (suc n) [] = omega arith
  length-drop (suc n) (x ∷ xs) = omega (arith, length-drop n xs)

  pub take-append : (xs ys : List A) → take (length xs) (xs ++ ys) ≡ xs
  take-append [] ys = refl
  take-append (x ∷ xs) ys = ap (◌∷◌ x) (take-append xs ys)

  pub drop-append : (xs ys : List A) → drop (length xs) (xs ++ ys) ≡ ys
  drop-append [] ys = refl
  drop-append (x ∷ xs) ys = drop-append xs ys

  pub All-append {κ} : (P : A → Type κ) (xs ys : List A) → All P xs → All P ys → All P (xs ++ ys)
  All-append P [] ys hx hy = hy
  All-append P (x ∷ xs) ys hx hy = (hx.0, All-append P xs ys hx.1 hy)

  pub All-imp {κ} :
      (P Q : A → Type κ) (imp : (x : A) → P x → Q x) (xs : List A) → All P xs → All Q xs
  All-imp P Q imp [] h = tt
  All-imp P Q imp (x ∷ xs) h = (imp x h.0, All-imp P Q imp xs h.1)

  pub All-both {κ} :
      (P Q R : A → Type κ) (both : (x : A) → P x → Q x → R x) (xs : List A)
      → All P xs
      → All Q xs
      → All R xs
  All-both P Q R both [] h k = tt
  All-both P Q R both (x ∷ xs) h k = (both x h.0 k.0, All-both P Q R both xs h.1 k.1)

  pub keep-append : (p : A → Bool) (xs ys : List A) → keep p (xs ++ ys) ≡ keep p xs ++ keep p ys
  keep-append p [] ys = refl
  keep-append p (x ∷ xs) ys = ground (arith, keep-append p xs ys)

  pub append_nil : (xs : List A) → xs ++ [] ≡ xs
  append_nil [] = refl
  append_nil (x ∷ xs) = ap (◌∷◌ x) (append_nil xs)

  pub keep_swap : (p q : A → Bool) (xs : List A) → keep p (keep q xs) ≡ keep q (keep p xs)
  keep_swap p q [] = refl
  keep_swap p q (x ∷ xs) = ground (arith, keep_swap p q xs)

  pub keep-same : (p q : A → Bool) (xs : List A) → All (λ x. p x ≡ q x) xs → keep p xs ≡ keep q xs
  keep-same p q [] h = refl
  keep-same p q (x ∷ xs) h = ground (arith, keep-same p q xs h.1)

  pub keep-All : (p : A → Bool) (xs : List A) → All (λ x. p x ≡ true) xs → keep p xs ≡ xs
  keep-All p [] h = refl
  keep-All p (x ∷ xs) h = ground (arith, keep-All p xs h.1)

  -- What a first test has taken out, and a second refuses anyway, need not be taken out.
  pub keep-keep :
      (p q : A → Bool) (xs : List A)
      → ((x : A) → q x ≡ false → p x ≡ false)
      → keep p (keep q xs) ≡ keep p xs
  keep-keep p q [] h = refl
  keep-keep p q (x ∷ xs) h = elim (Bool-cases (q x)) [
    | inl kept ↦ ground (arith, keep-keep p q xs h)
    | inr out ↦ ground (arith, h x out, keep-keep p q xs h)
  ]

  pub keep-none : (p : A → Bool) (xs : List A) → keep p xs ≡ [] → All (λ x. p x ≡ false) xs
  keep-none p [] e = tt
  keep-none p (x ∷ xs) e = elim (Bool-cases (p x)) [
    | inl kept ↦ absurd (cc (rw kept at e))
    | inr out ↦ (out, keep-none p xs (rw out at e))
  ]

  pub All-map {κ μ} :
      {B : Type κ} (P : A → Type μ) (f : B → A) (ys : List B)
      → All (λ y. P (f y)) ys
      → All P (map f ys)
  All-map P f [] h = tt
  All-map P f (y ∷ ys) h = (h.0, All-map P f ys h.1)

  pub All-of_map {κ μ} :
      {B : Type κ} (P : A → Type μ) (f : B → A) (ys : List B)
      → All P (map f ys)
      → All (λ y. P (f y)) ys
  All-of_map P f [] h = tt
  All-of_map P f (y ∷ ys) h = (h.0, All-of_map P f ys h.1)

  pub map_append {κ} :
      {B : Type κ} (f : B → A) (xs ys : List B) → map f (xs ++ ys) ≡ map f xs ++ map f ys
  map_append f [] ys = refl
  map_append f (x ∷ xs) ys = ap (◌∷◌ (f x)) (map_append f xs ys)

  pub List-cases : (xs : List A) → (xs ≡ []) ⊎ ((x : A) × (rest : List A) × (xs ≡ x ∷ rest))
  List-cases [] = inl refl
  List-cases (x ∷ xs) = inr (x, xs, refl)

  take-append_more :
      (xs ys zs : List A) → take (length xs + length ys) (xs ++ (ys ++ zs)) ≡ xs ++ ys
  take-append_more [] ys zs = rw add.zero (take-append ys zs)
  take-append_more (x ∷ xs) ys zs = rw (add.suc, take-append_more xs ys zs)

  -- `b[len(xs):len(xs)+len(ys)]`
  pub slice_middle :
      (xs ys zs : List A) → drop (length xs) (take (length xs + length ys) (xs ++ (ys ++ zs))) ≡ ys
  slice_middle xs ys zs = rw take-append_more (drop-append xs ys)

  pub take-append-drop : (n : ℕ) (xs : List A) → take n xs ++ drop n xs ≡ xs
  take-append-drop zero xs = refl
  take-append-drop (suc n) [] = refl
  take-append-drop (suc n) (x ∷ xs) = ap (◌∷◌ x) (take-append-drop n xs)

  pub take_all : (n : ℕ) (xs : List A) → length xs ≤ n → take n xs ≡ xs
  take_all zero [] h = refl
  take_all zero (x ∷ xs) h = absurd (omega arith)
  take_all (suc n) [] h = refl
  take_all (suc n) (x ∷ xs) h = ap (◌∷◌ x) (take_all n xs (omega arith))
