-- ===== src/Sgwc/Manager/Indexes.antt =====
-- internal/sgwc/session/manager.go: how the single indexes change when a session is taken out.
use vectorcore_sgw.Common.{
  ℕ, ◌≡◌, ◌≢◌, ◌⊎◌, refl, sym, ap, subst, ◌∙◌, String, Bool, true, false, not, ◌&&◌, Option, none,
  some, List, [], ◌∷◌, map, All, All-imp, keep, ltb, nat_beq, nat_beq_iff, Comparable, number_keys,
  text_keys, ◌==◌, if◌then◌else◌, Bool-cases, inl, inr,
}
use vectorcore_sgw.Common.Maps.{lookup, delete, Distinct, lookup-insert, lookup-delete}
use vectorcore_sgw.Sgwc.Manager.{
  SgwSession, or_empty, store_s11, filter_s11, without_s11, newer, newest_loop, holds,
}

store_s11-lookup :
    (t : ℕ) (ys : List ℕ) (m : List (ℕ × List ℕ)) (u : ℕ)
    → or_empty (lookup u (store_s11 t ys m)) ≡ (if nat_beq t u then ys else or_empty (lookup u m))
store_s11-lookup t [] m u = elim (Bool-cases (nat_beq t u)) [
  | inl same ↦ ap or_empty (lookup-delete t u m) ∙ rw same refl
  | inr other ↦ ap or_empty (lookup-delete t u m) ∙ rw other refl
]
store_s11-lookup t (y ∷ ys) m u = elim (Bool-cases (nat_beq t u)) [
  | inl same ↦ ap or_empty (lookup-insert m t (y ∷ ys) u) ∙ rw same refl
  | inr other ↦ ap or_empty (lookup-insert m t (y ∷ ys) u) ∙ rw other refl
]

abbrev others : ℕ → ℕ → Bool
others r c = not (nat_beq c r)

filter_s11-lookup :
    (t r : ℕ) (xs : List ℕ) (m : List (ℕ × List ℕ)) (u : ℕ)
    → or_empty (lookup t m) ≡ xs
    → or_empty (lookup u (filter_s11 t r xs m))
      ≡ (if nat_beq t u then keep (others r) xs else or_empty (lookup u m))
filter_s11-lookup t r [] m u e = elim (Bool-cases (nat_beq t u)) [
  | inl same ↦ rw same (subst (λ i. or_empty (lookup i m) ≡ []) ((nat_beq_iff t u).0 same) e)
  | inr other ↦ rw other refl
]
filter_s11-lookup t r (x ∷ xs) m u e = store_s11-lookup t (keep (others r) (x ∷ xs)) m u

-- The session is taken out of the list of its TEID, and the other lists are left as they were.
pub without_s11-lookup :
    (t r : ℕ) (m : List (ℕ × List ℕ)) (u : ℕ)
    → or_empty (lookup u (without_s11 t r m))
      ≡ (if nat_beq t u then keep (others r) (or_empty (lookup t m)) else or_empty (lookup u m))
unfolding without_s11
without_s11-lookup t r m u = filter_s11-lookup t r (or_empty (lookup t m)) m u refl

-- Every entry of a map is found under its key.
pub entries-found :
    (m : List (String × ℕ)) → Distinct m → All (λ (e : String × ℕ). lookup e.0 m ≡ some e.1) m
unfolding lookup
entries-found [] d = tt
entries-found ((j, v) ∷ m) d = (
  rw ((text_keys.same_iff j j).1 refl) refl,
  All-imp (λ (e : String × ℕ). lookup e.0 m ≡ some e.1)
      (λ (e : String × ℕ). lookup e.0 ((j, v) ∷ m) ≡ some e.1) (λ e found. later e found) m
      (entries-found m d.1),
)
  where
    later : (e : String × ℕ) → lookup e.0 m ≡ some e.1 → lookup e.0 ((j, v) ∷ m) ≡ some e.1
    later e found = elim (Bool-cases (j == e.0)) [
      | inl same ↦
          let key : j ≡ e.0 = (text_keys.same_iff j e.0).0 same in
          absurd (cc (sym d.0 ∙ ap (λ i. lookup i m) key ∙ found))
      | inr other ↦ rw other found
    ]

-- Deleting the name of a session takes its reference out of those of the map.
pub references-delete :
    (name : ℕ → String) (r : ℕ) (m : List (String × ℕ))
    → Distinct m
    → All (λ (e : String × ℕ). name e.1 ≡ e.0) m
    → ((v : ℕ) → lookup (name r) m ≡ some v → v ≡ r)
    → map (λ (e : String × ℕ). e.1) (delete (name r) m)
      ≡ keep (others r) (map (λ (e : String × ℕ). e.1) m)
unfolding lookup delete
references-delete name r [] d names only = refl
references-delete name r ((j, v) ∷ m) d names only = elim (Bool-cases (j == name r)) [
  | inl same ↦
      let key : j ≡ name r = (text_keys.same_iff j (name r)).0 same in
      let it : v ≡ r = only v (rw same refl) in
      let test : nat_beq v r ≡ true = (nat_beq_iff v r).1 it in
      rw (same, test)
        (references-delete name r m d.1 names.1
          (λ w e. absurd (cc (sym d.0 ∙ ap (λ i. lookup i m) key ∙ e))))
  | inr other ↦
      let rest = references-delete name r m d.1 names.1 (λ w e. only w (rw other e)) in
      elim (Bool-cases (nat_beq v r)) [
        | inl it ↦
            let key : j ≡ name r = sym names.0 ∙ ap name ((nat_beq_iff v r).0 it) in
            absurd (cc (sym other ∙ (text_keys.same_iff j (name r)).1 key))
        | inr apart ↦ rw (other, apart) (ap (◌∷◌ v) rest)
      ]
]

newer-some :
    (heap : ℕ → SgwSession) (imsi : String) (newest : Option ℕ) (c k : ℕ)
    → newer heap imsi newest c ≡ some k
    → (((heap c).imsi ≡ imsi) × (c ≡ k)) ⊎ (newest ≡ some k)
newer-some heap imsi none c k e = elim (Bool-cases ((heap c).imsi == imsi)) [
  | inl same ↦ inl ((text_keys.same_iff (heap c).imsi imsi).0 same, cc (rw same at e))
  | inr other ↦ inr (rw other at e)
]
newer-some heap imsi (some n) c k e = elim (Bool-cases ((heap c).imsi == imsi)) [
  | inr other ↦ inr (rw other at e)
  | inl same ↦ elim (Bool-cases (ltb (heap n).created_at (heap c).created_at)) [
    | inl later ↦ inl ((text_keys.same_iff (heap c).imsi imsi).0 same, cc (rw (same, later) at e))
    | inr older ↦ inr (rw (same, older) at e)
  ]
]

newer-none :
    (heap : ℕ → SgwSession) (imsi : String) (newest : Option ℕ) (c : ℕ)
    → newer heap imsi newest c ≡ none
    → (newest ≡ none) × (((heap c).imsi == imsi) ≡ false)
newer-none heap imsi none c e = elim (Bool-cases ((heap c).imsi == imsi)) [
  | inl same ↦ absurd (cc (rw same at e))
  | inr other ↦ (refl, other)
]
newer-none heap imsi (some n) c e =
    absurd (never (((heap c).imsi == imsi) && ltb (heap n).created_at (heap c).created_at) e)
  where
    never : (b : Bool) → ◌≢◌ {A = Option ℕ} (if b then some c else some n) none
    never true = cc
    never false = cc

-- The newest session of an IMSI is one that the loop has come by.
pub newest_loop-some :
    (heap : ℕ → SgwSession) (imsi : String) (P : ℕ → Type 0) (m : List (String × ℕ))
    (newest : Option ℕ) (n : ℕ)
    → ((k : ℕ) → newest ≡ some k → P k)
    → All (λ (e : String × ℕ). (heap e.1).imsi ≡ imsi → P e.1) m
    → newest_loop heap imsi newest m ≡ some n
    → P n
unfolding newest_loop
newest_loop-some heap imsi P [] newest n first h e = first n e
newest_loop-some heap imsi P (entry ∷ m) newest n first h e =
    newest_loop-some heap imsi P m (newer heap imsi newest entry.1) n
      (λ k q. elim (newer-some heap imsi newest entry.1 k q) [
        | inl here ↦ subst P here.1 (h.0 here.0)
        | inr before ↦ first k before
      ])
      h.1 e

-- Where it finds none, no session has the IMSI.
pub newest_loop-none :
    (heap : ℕ → SgwSession) (imsi : String) (m : List (String × ℕ)) (newest : Option ℕ)
    → newest_loop heap imsi newest m ≡ none
    → (newest ≡ none) × All (λ (e : String × ℕ). ((heap e.1).imsi == imsi) ≡ false) m
unfolding newest_loop
newest_loop-none heap imsi [] newest e = (e, tt)
newest_loop-none heap imsi (entry ∷ m) newest e =
    let (picked, rest) = newest_loop-none heap imsi m (newer heap imsi newest entry.1) e in
    let (before, other) = newer-none heap imsi newest entry.1 picked in (before, (other, rest))

pub holds-lookup :
    {K : Type 0} ⦃c : Comparable K⦄ (k : K) (r : ℕ) (m : List (K × ℕ))
    → lookup k m ≡ some r
    → holds k r m ≡ true
holds-lookup k r m e = rw (e, holds) ((nat_beq_iff r r).1 refl)
