-- ===== src/Sgwc/Collision/Decide.antt =====
-- When `decide` of internal/sgwc/collision/collision.go rejects a new procedure, told without the
-- table, the policies and the order of the tests.
use mathlib.Core.List.{Memᴰ}
use vectorcore_sgw.Common.{
  ℕ, ◌≡◌, refl, ◌≢◌, ◌⊎◌, inl, inr, ◌↔◌, true, false, ◌||◌, List, [], ◌∷◌, any, arith, number_keys,
  nat_beq_iff, ◌==◌, Bool-cases, subst, none, some, Option-cases,
}
use vectorcore_sgw.Sgwc.Collision.{
  Mode, permissive, Procedure, modify_bearer, delete_session, release_access_bearers, create_bearer,
  create_bearer_response, update_bearer, delete_bearer, Request, ActiveProcedure, reject_new,
  decide, overlaps_ebi, pair_policy, is_bearer_scoped, is_session_wide, procedure_pair_rules,
  Policy, policy_none, allow_response, session_overlap, bearer_overlap, default_policy, decide_by,
  decide_bearer, is_empty, is_permissive,
}

-- A procedure that concerns bearers of the session, and not the session as a whole.
pub data BearerLevel : Procedure → Type 0 where
  modify_is : BearerLevel modify_bearer
  create_is : BearerLevel create_bearer
  response_is : BearerLevel create_bearer_response
  update_is : BearerLevel update_bearer
  delete_is : BearerLevel delete_bearer

-- The pairs that may overlap whatever they touch: a request with its response; the teardown of the
-- session over any bearer procedure; and the idle transition with an update or a deletion.
pub data Exempt : Procedure → Procedure → Type 0 where
  answer : Exempt create_bearer create_bearer_response
  ask : Exempt create_bearer_response create_bearer
  teardown : {p : Procedure} → BearerLevel p → Exempt p delete_session
  idle_over_update : Exempt update_bearer release_access_bearers
  update_over_idle : Exempt release_access_bearers update_bearer
  idle_over_delete : Exempt delete_bearer release_access_bearers
  delete_over_idle : Exempt release_access_bearers delete_bearer

pub data Conflict (mode : Mode) (cur : ActiveProcedure) (req : Request) : Type 0 where
  whole_session :
      ¬ Exempt cur.procedure req.procedure
      → ¬ (BearerLevel cur.procedure × BearerLevel req.procedure)
      → Conflict mode cur req
  unknown_scope :
      ¬ Exempt cur.procedure req.procedure
      → mode ≢ permissive
      → (cur.ebis ≡ []) ⊎ (req.ebis ≡ [])
      → Conflict mode cur req
  shared_bearer :
      ¬ Exempt cur.procedure req.procedure
      → (ebi : ℕ) → Memᴰ ebi cur.ebis
      → Memᴰ ebi req.ebis
      → Conflict mode cur req

any_eq-mem : (x : ℕ) (b : List ℕ) → any (λ y. x == y) b ≡ true → Memᴰ x b
any_eq-mem x [] h = cc
any_eq-mem x (y ∷ b) h = elim (Bool-cases (x == y)) [
  | inl same ↦ Memᴰ.head ((nat_beq_iff x y).0 same)
  | inr other ↦ Memᴰ.tail (any_eq-mem x b (ground arith))
]

mem-any_eq : {x : ℕ} (b : List ℕ) → Memᴰ x b → any (λ y. x == y) b ≡ true
mem-any_eq [] m = elim m [ ]
mem-any_eq {x} (y ∷ b) (Memᴰ.head p) = ground (arith, nat_beq_iff x y)
mem-any_eq (y ∷ b) (Memᴰ.tail m) = ground (arith, mem-any_eq b m)

-- The two loops find a common EBI exactly when there is one.
pub overlaps_ebi-mem :
    (a b : List ℕ) → overlaps_ebi a b ≡ true → (ebi : ℕ) × Memᴰ ebi a × Memᴰ ebi b
unfolding overlaps_ebi
overlaps_ebi-mem [] b h = cc
overlaps_ebi-mem (x ∷ a) b h = elim (Bool-cases (any (λ y. x == y) b)) [
  | inl here ↦ (x, Memᴰ.head refl, any_eq-mem x b here)
  | inr later ↦
      let (ebi, in_a, in_b) = overlaps_ebi-mem a b (rw later at h) in (ebi, Memᴰ.tail in_a, in_b)
]

pub mem-overlaps_ebi : {ebi : ℕ} (a b : List ℕ) → Memᴰ ebi a → Memᴰ ebi b → overlaps_ebi a b ≡ true
unfolding overlaps_ebi
mem-overlaps_ebi [] b l m = elim l [ ]
mem-overlaps_ebi {ebi} (x ∷ a) b (Memᴰ.head p) m = rw (mem-any_eq b (subst (λ t. Memᴰ t b) p m))
mem-overlaps_ebi (x ∷ a) b (Memᴰ.tail l) m = ground (arith, mem-overlaps_ebi a b l m)

pub bearer_scoped-level : (p : Procedure) → is_bearer_scoped p ≡ true → BearerLevel p
unfolding is_bearer_scoped
bearer_scoped-level modify_bearer h = modify_is
bearer_scoped-level create_bearer h = create_is
bearer_scoped-level create_bearer_response h = response_is
bearer_scoped-level update_bearer h = update_is
bearer_scoped-level delete_bearer h = delete_is
bearer_scoped-level _ h = cc

pub level-bearer_scoped : {p : Procedure} → BearerLevel p → is_bearer_scoped p ≡ true
unfolding is_bearer_scoped
level-bearer_scoped modify_is = refl
level-bearer_scoped create_is = refl
level-bearer_scoped response_is = refl
level-bearer_scoped update_is = refl
level-bearer_scoped delete_is = refl

session_wide-not_bearer : (p : Procedure) → is_session_wide p ≡ true → is_bearer_scoped p ≡ false
unfolding is_session_wide is_bearer_scoped
session_wide-not_bearer p h = ground arith

-- A rule of the table names an exempt pair, and does not reject.
rules-Exempt :
    (p q : Procedure) (r : Policy)
    → procedure_pair_rules p q ≡ some r
    → Exempt p q × ((r ≡ policy_none) ⊎ (r ≡ allow_response))
unfolding procedure_pair_rules
rules-Exempt create_bearer create_bearer_response r h = (answer, inr (cc))
rules-Exempt create_bearer_response create_bearer r h = (ask, inr (cc))
rules-Exempt modify_bearer delete_session r h = (teardown modify_is, inl (cc))
rules-Exempt create_bearer delete_session r h = (teardown create_is, inl (cc))
rules-Exempt create_bearer_response delete_session r h = (teardown response_is, inl (cc))
rules-Exempt update_bearer delete_session r h = (teardown update_is, inl (cc))
rules-Exempt delete_bearer delete_session r h = (teardown delete_is, inl (cc))
rules-Exempt delete_bearer release_access_bearers r h = (idle_over_delete, inl (cc))
rules-Exempt release_access_bearers delete_bearer r h = (delete_over_idle, inl (cc))
rules-Exempt update_bearer release_access_bearers r h = (idle_over_update, inl (cc))
rules-Exempt release_access_bearers update_bearer r h = (update_over_idle, inl (cc))
rules-Exempt _ _ r h = cc

Exempt-rules : {p q : Procedure} → Exempt p q → procedure_pair_rules p q ≢ none
unfolding procedure_pair_rules
Exempt-rules answer h = cc
Exempt-rules ask h = cc
Exempt-rules (teardown modify_is) h = cc
Exempt-rules (teardown create_is) h = cc
Exempt-rules (teardown response_is) h = cc
Exempt-rules (teardown update_is) h = cc
Exempt-rules (teardown delete_is) h = cc
Exempt-rules idle_over_update h = cc
Exempt-rules update_over_idle h = cc
Exempt-rules idle_over_delete h = cc
Exempt-rules delete_over_idle h = cc

-- The three ways in which a pair of procedures is judged.
data Judged (p q : Procedure) : Type 0 where
  exempt :
      Exempt p q → (pair_policy p q ≡ policy_none) ⊎ (pair_policy p q ≡ allow_response) → Judged p q
  wide :
      ¬ Exempt p q
      → ¬ (BearerLevel p × BearerLevel q)
      → pair_policy p q ≡ session_overlap
      → Judged p q
  scoped :
      ¬ Exempt p q → BearerLevel p → BearerLevel q → pair_policy p q ≡ bearer_overlap → Judged p q

judge_default : (p q : Procedure) → procedure_pair_rules p q ≡ none → Judged p q
unfolding pair_policy default_policy
judge_default p q e = elim (Bool-cases (is_bearer_scoped p)) [
  | inr no_p ↦
      wide (λ x. Exempt-rules x e) (λ b. cc (level-bearer_scoped b.0)) (ground (arith, e, no_p))
  | inl yes_p ↦ elim (Bool-cases (is_bearer_scoped q)) [
    | inr no_q ↦
        wide (λ x. Exempt-rules x e) (λ b. cc (level-bearer_scoped b.1)) (ground (arith, e, no_q))
    | inl yes_q ↦
        scoped (λ x. Exempt-rules x e) (bearer_scoped-level p yes_p) (bearer_scoped-level q yes_q)
          (ground (arith, session_wide-not_bearer p, session_wide-not_bearer q))
  ]
]

judge : (p q : Procedure) → Judged p q
unfolding pair_policy
judge p q = elim (Option-cases (procedure_pair_rules p q)) [
  | inl e ↦ judge_default p q e
  | inr (r, e) ↦ let (x, policy) = rules-Exempt p q r e in exempt x (ground arith)
]

Conflict-not-Exempt :
    {mode : Mode} {cur : ActiveProcedure} {req : Request}
    → Conflict mode cur req
    → ¬ Exempt cur.procedure req.procedure
Conflict-not-Exempt (whole_session x b) = x
Conflict-not-Exempt (unknown_scope x m s) = x
Conflict-not-Exempt (shared_bearer x ebi l r) = x

is_empty-nil : (xs : List ℕ) → is_empty xs ≡ true → xs ≡ []
unfolding is_empty
is_empty-nil [] h = refl
is_empty-nil (x ∷ xs) h = cc

is_permissive-eq : (m : Mode) → is_permissive m ≡ true → m ≡ permissive
unfolding is_permissive
is_permissive-eq permissive h = refl
is_permissive-eq _ h = cc

not-permissive : (m : Mode) → is_permissive m ≡ false → m ≢ permissive
unfolding is_permissive
not-permissive permissive h = cc
not-permissive _ h = λ e. cc

-- The bearer case rejects by the scopes alone.
bearer-Conflict :
    (mode : Mode) (cur : ActiveProcedure) (req : Request)
    → ¬ Exempt cur.procedure req.procedure
    → (decide_bearer mode cur req).action ≡ reject_new
    → Conflict mode cur req
unfolding decide_bearer
bearer-Conflict mode cur req x h = elim (Bool-cases (is_empty cur.ebis || is_empty req.ebis)) [
  | inl unknown ↦
      unknown_scope x (not-permissive mode (ground arith)) (empty_one cur.ebis req.ebis unknown)
  | inr known ↦
      let (ebi, l, r) = overlaps_ebi-mem cur.ebis req.ebis (ground arith) in shared_bearer x ebi l r
]
  where
    empty_one : (a b : List ℕ) → (is_empty a || is_empty b) ≡ true → (a ≡ []) ⊎ (b ≡ [])
    empty_one a b e = ground (arith, is_empty-nil a, is_empty-nil b)

mem-not_empty : {ebi : ℕ} (xs : List ℕ) → Memᴰ ebi xs → is_empty xs ≡ false
unfolding is_empty
mem-not_empty [] m = elim m [ ]
mem-not_empty (x ∷ xs) m = refl

nil-is_empty : (xs : List ℕ) → xs ≡ [] → is_empty xs ≡ true
unfolding is_empty
nil-is_empty xs e = rw e

Conflict-bearer :
    (mode : Mode) (cur : ActiveProcedure) (req : Request)
    → BearerLevel cur.procedure
    → BearerLevel req.procedure
    → Conflict mode cur req
    → (decide_bearer mode cur req).action ≡ reject_new
unfolding decide_bearer
Conflict-bearer mode cur req p q (whole_session x b) = absurd (b (p, q))
Conflict-bearer mode cur req p q (unknown_scope x m s) =
    ground (arith, is_permissive-eq mode, m, nil-is_empty cur.ebis, nil-is_empty req.ebis)
Conflict-bearer mode cur req p q (shared_bearer x ebi l r) = ground (
  arith,
  mem-not_empty cur.ebis l,
  mem-not_empty req.ebis r,
  mem-overlaps_ebi cur.ebis req.ebis l r,
)

-- `decide` rejects a new procedure exactly when it conflicts with the active one.
pub decide-Conflict :
    (mode : Mode) (cur : ActiveProcedure) (req : Request)
    → ((decide mode cur req).action ≡ reject_new) ↔ Conflict mode cur req
unfolding decide decide_by
decide-Conflict mode cur req = elim (judge cur.procedure req.procedure) [
  | exempt x e ↦ (λ h. absurd (ground arith), λ c. absurd (Conflict-not-Exempt c x))
  | wide x b e ↦ (λ h. whole_session x b, λ c. ground arith)
  | scoped x p q e ↦ (
    λ h. bearer-Conflict mode cur req x (ground arith),
    λ c. rw e (Conflict-bearer mode cur req p q c),
  )
]
