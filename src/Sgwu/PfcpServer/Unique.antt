-- ===== src/Sgwu/PfcpServer/Unique.antt =====
-- internal/sgwu/pfcpserver/server.go: lists of rules in which no identifier stands twice.
use vectorcore_sgw.Common.{
  ℕ, ◌≡◌, refl, ap, ◌∙◌, Bool, false, ◌||◌, List, [], ◌∷◌, ◌++◌, map, any, arith, inl, inr,
  Bool-cases, nat_beq, nat_beq_iff, if◌then◌else◌,
}
use vectorcore_sgw.Sgwu.Session.{Pdr, Far}
use vectorcore_sgw.Sgwu.PfcpServer.Rules.{has_far, has_pdr, without_far, without_pdr}

abbrev pub far_ids : List Far → List ℕ
far_ids fars = map (λ f. f.id) fars

abbrev pub pdr_ids : List Pdr → List ℕ
pdr_ids pdrs = map (λ p. p.id) pdrs

abbrev pub member : ℕ → List ℕ → Bool
member id ids = any (λ i. nat_beq i id) ids

-- No identifier stands twice.
abbrev pub IsUnique : List ℕ → Type 0
IsUnique [] = Unit
IsUnique (i ∷ is) = (member i is ≡ false) × IsUnique is

any-map {ℓ κ} :
    {A : Type ℓ} {B : Type κ} (p : B → Bool) (f : A → B) (xs : List A)
    → any p (map f xs) ≡ any (λ x. p (f x)) xs
any-map p f [] = refl
any-map p f (x ∷ xs) = ap (λ b. p (f x) || b) (any-map p f xs)

abbrev without : ℕ → List ℕ → List ℕ
without id [] = []
without id (i ∷ is) = if nat_beq i id then without id is else i ∷ without id is

member-append :
    (id k : ℕ) (is : List ℕ) → member id (is ++ (k ∷ [])) ≡ (member id is || nat_beq k id)
member-append id k [] = ground arith
member-append id k (i ∷ is) = ground (arith, member-append id k is)

append-IsUnique :
    (k : ℕ) (is : List ℕ) → member k is ≡ false → IsUnique is → IsUnique (is ++ (k ∷ []))
append-IsUnique k [] new u = (refl, tt)
append-IsUnique k (i ∷ is) new u =
    ground (arith, member-append i k is, append-IsUnique k is, nat_beq_iff i k, nat_beq_iff k i)

member-without : (id k : ℕ) (is : List ℕ) → member id is ≡ false → member id (without k is) ≡ false
member-without id k [] h = refl
member-without id k (i ∷ is) h = ground (arith, member-without id k is)

pub without-IsUnique : (k : ℕ) (is : List ℕ) → IsUnique is → IsUnique (without k is)
without-IsUnique k [] u = tt
without-IsUnique k (i ∷ is) u = ground (arith, member-without i k is, without-IsUnique k is)

pub far_ids-without :
    (k : ℕ) (fars : List Far) → far_ids (without_far k fars) ≡ without k (far_ids fars)
unfolding without_far
far_ids-without k [] = refl
far_ids-without k (f ∷ fs) = elim (Bool-cases (nat_beq f.id k)) [
  | inl same ↦ rw same (far_ids-without k fs)
  | inr other ↦ rw other (ap (◌∷◌ f.id) (far_ids-without k fs))
]

pub pdr_ids-without :
    (k : ℕ) (pdrs : List Pdr) → pdr_ids (without_pdr k pdrs) ≡ without k (pdr_ids pdrs)
unfolding without_pdr
pdr_ids-without k [] = refl
pdr_ids-without k (p ∷ ps) = elim (Bool-cases (nat_beq p.id k)) [
  | inl same ↦ rw same (pdr_ids-without k ps)
  | inr other ↦ rw other (ap (◌∷◌ p.id) (pdr_ids-without k ps))
]

far_ids-append :
    (fars : List Far) (f : Far) → far_ids (fars ++ (f ∷ [])) ≡ far_ids fars ++ (f.id ∷ [])
far_ids-append [] f = refl
far_ids-append (g ∷ gs) f = ap (◌∷◌ g.id) (far_ids-append gs f)

pdr_ids-append :
    (pdrs : List Pdr) (p : Pdr) → pdr_ids (pdrs ++ (p ∷ [])) ≡ pdr_ids pdrs ++ (p.id ∷ [])
pdr_ids-append [] p = refl
pdr_ids-append (q ∷ qs) p = ap (◌∷◌ q.id) (pdr_ids-append qs p)

abbrev pub UniqueFars : List Far → Type 0
UniqueFars fars = IsUnique (far_ids fars)

abbrev pub UniquePdrs : List Pdr → Type 0
UniquePdrs pdrs = IsUnique (pdr_ids pdrs)

pub appended_far :
    (f : Far) (fars : List Far)
    → has_far f.id fars ≡ false
    → UniqueFars fars
    → UniqueFars (fars ++ (f ∷ []))
appended_far f fars new u =
    rw (far_ids-append fars f)
      (append-IsUnique f.id (far_ids fars) (any-map (λ i. nat_beq i f.id) (λ g. g.id) fars ∙ new) u)

pub appended_pdr :
    (p : Pdr) (pdrs : List Pdr)
    → has_pdr p.id pdrs ≡ false
    → UniquePdrs pdrs
    → UniquePdrs (pdrs ++ (p ∷ []))
appended_pdr p pdrs new u =
    rw (pdr_ids-append pdrs p)
      (append-IsUnique p.id (pdr_ids pdrs) (any-map (λ i. nat_beq i p.id) (λ q. q.id) pdrs ∙ new) u)
