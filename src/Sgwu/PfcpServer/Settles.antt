-- ===== src/Sgwu/PfcpServer/Settles.antt =====
-- internal/sgwu/pfcpserver/server.go: the rules of a session that the first pass has accepted are built to the end.
use vectorcore_sgw.Common.{
  ℕ, ◌≡◌, refl, subst, true, Option, none, some, List, [], ◌∷◌, All, is_some, arith, inl, inr,
}
use vectorcore_sgw.Common.Results.{Result, ok, Result-cases}
use vectorcore_sgw.Pfcp.Ie.{Element, find, children}
use vectorcore_sgw.Pfcp.Types.{
  type_pdi, type_source_interface, type_pdr_id, type_far_id, type_apply_action,
}
use vectorcore_sgw.Sgwu.PfcpServer.State.{Attempt, done, refused, panicked, waiting, ◌>>=◌}
use vectorcore_sgw.Sgwu.PfcpServer.Establish.{
  Refusal, has_type, has_in, has_child, children_or_nil, called, validate_create_pdr,
  validate_create_far, validate_all, build_far, build_fars,
}

-- The attempt comes to a value of which P holds, or to an error.

-- The attempt comes to a value of which P holds, or to an error.
abbrev pub Settles {ℓ} : {E : Type 0} {A : Type ℓ} → (A → Type 0) → Attempt E A → Type 0
Settles P (done a) = P a
Settles P (refused e) = Unit
Settles P panicked = ⊥
Settles P waiting = ⊥

pub Settles-bind {ℓ κ} :
    {E : Type 0} {A : Type ℓ} {B : Type κ} (Q : A → Type 0) (P : B → Type 0) (m : Attempt E A)
    (f : A → Attempt E B)
    → Settles Q m
    → ((a : A) → Q a → Settles P (f a))
    → Settles P (m >>= f)
Settles-bind Q P (done a) f q h = h a q
Settles-bind Q P (refused e) f q h = tt
Settles-bind Q P panicked f q h = q
Settles-bind Q P waiting f q h = q

-- What holds already is added to what is stated of the value.
and_head {ℓ} :
    {E : Type 0} {A : Type ℓ} (S : Type 0)
    → S
    → (P : A → Type 0) (m : Attempt E A) → Settles P m
    → Settles (λ a. S × P a) m
and_head S s P (done a) h = (s, h)
and_head S s P (refused e) h = tt
and_head S s P panicked h = h
and_head S s P waiting h = h

-- Nothing is asked of the value.
abbrev pub Any {ℓ} : {A : Type ℓ} → A → Type 0
Any a = Unit

pub validate_all-Settles :
    (check : Element → Result Refusal (Unit {0})) (ies : List Element)
    → Settles (λ u. All (λ ie. check ie ≡ ok tt) ies) (validate_all check ies)
unfolding validate_all
validate_all-Settles check [] = tt
validate_all-Settles check (ie ∷ ies) = elim (Result-cases (check ie)) [
  | inr bad ↦ rw (bad.1, validate_all) tt
  | inl good ↦
      rw (good.1, validate_all)
        (and_head (◌≡◌ {A = Result Refusal (Unit {0})} (ok tt) (ok tt)) refl
          (λ (u : Unit {0}). All (λ ie. check ie ≡ ok tt) ies) (validate_all check ies)
          (validate_all-Settles check ies))
]

pub called-Settles :
    {A : Type 0} (E : Type 0) (o : Option Element) (f : Element → A)
    → is_some o ≡ true
    → Settles {E = E} Any (called o f)
called-Settles E none f h = cc
called-Settles E (some ie) f h = tt

pub called_children-Settles :
    (E : Type 0) (o : Option Element) (t : ℕ)
    → has_child o t ≡ true
    → Settles {E = E} (λ cs. has_type cs t ≡ true) (called o children_or_nil)
called_children-Settles E none t h = cc
called_children-Settles E (some ie) t h = elim (Result-cases (children ie)) [
  | inl good ↦ rw (good.1, children_or_nil) (subst (λ r. has_in r t ≡ true) good.1 h)
  | inr bad ↦ absurd (cc (subst (λ r. has_in r t ≡ true) bad.1 h))
]

-- What the checks have found of a Create PDR.
pub record ValidPdr (cs : List Element) : Type 0 where
  pub pdr_id_there : has_type cs type_pdr_id ≡ true
  pub pdi_there : has_type cs type_pdi ≡ true
  pub source_there : has_child (find cs type_pdi) type_source_interface ≡ true

pub validate_create_pdr-ValidPdr :
    (ie : Element) → validate_create_pdr ie ≡ ok tt → ValidPdr (children_or_nil ie)
unfolding validate_create_pdr
validate_create_pdr-ValidPdr ie h = elim (Result-cases (children ie)) [
  | inl good ↦
      rw (good.1, children_or_nil)
        (let h' = rw (good.1, validate_create_pdr) at h in
          record {
            pdr_id_there = ground arith;
            pdi_there = ground arith;
            source_there = ground arith;
          })
  | inr bad ↦ absurd (cc (rw (bad.1, validate_create_pdr) at h))
]

-- What the checks have found of a Create FAR.
record ValidFar (cs : List Element) : Type 0 where
  far_id_there : has_type cs type_far_id ≡ true
  action_there : has_type cs type_apply_action ≡ true

validate_create_far-ValidFar :
    (ie : Element) → validate_create_far ie ≡ ok tt → ValidFar (children_or_nil ie)
unfolding validate_create_far
validate_create_far-ValidFar ie h = elim (Result-cases (children ie)) [
  | inl good ↦
      rw (good.1, children_or_nil)
        (let h' = rw (good.1, validate_create_far) at h in
          record { far_id_there = ground arith; action_there = ground arith })
  | inr bad ↦ absurd (cc (rw (bad.1, validate_create_far) at h))
]

build_far-Settles : (ie : Element) → ValidFar (children_or_nil ie) → Settles Any (build_far ie)
unfolding build_far
build_far-Settles ie v =
    Settles-bind Any Any (called (find (children_or_nil ie) type_far_id) _) _
      (called-Settles Refusal (find (children_or_nil ie) type_far_id) _ v.far_id_there)
      λ far_id u.
        Settles-bind Any Any (called (find (children_or_nil ie) type_apply_action) _) _
          (called-Settles Refusal (find (children_or_nil ie) type_apply_action) _ v.action_there)
          λ action w. tt

pub build_fars-Settles :
    (ies : List Element)
    → All (λ ie. validate_create_far ie ≡ ok tt) ies
    → Settles Any (build_fars ies)
unfolding build_fars
build_fars-Settles [] h = tt
build_fars-Settles (ie ∷ ies) h =
    Settles-bind Any Any (build_far ie) _
      (build_far-Settles ie (validate_create_far-ValidFar ie h.0))
      λ first u. Settles-bind Any Any (build_fars ies) _ (build_fars-Settles ies h.1) λ rest w. tt
