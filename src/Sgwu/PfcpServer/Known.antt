-- ===== src/Sgwu/PfcpServer/Known.antt =====
-- internal/sgwu/pfcpserver/server.go: the references of the session store have been made.
use vectorcore_sgw.Common.{
  ℕ, ◌<◌, ◌≡◌, refl, sym, ap, subst, ◌∙◌, false, some, List, [], ◌∷◌, All, arith, inl, inr,
  Bool-cases, Option-cases, number_keys, nat_beq, nat_beq_iff,
}
use vectorcore_sgw.Common.Maps.{lookup, insert, lookup-All, insert-All, delete-All}
use vectorcore_sgw.Common.Results.{ok}
use vectorcore_sgw.Sgwu.Session.{
  Session, Heap, Store, create, delete_by_cp_seid, delete_by_up_seid, delete_loop,
}
use vectorcore_sgw.Sgwu.Session.Indexes.{Half}
use vectorcore_sgw.Sgwu.Session.Coherence.{cp_key, up_key}
use vectorcore_sgw.Sgwu.Session.Reach.{Inv}
use vectorcore_sgw.Sgwu.PfcpServer.State.{Server, set_at}

-- Every session of the store has been made.

-- Every session of the store has been made.
abbrev pub Known : ℕ → Store → Type 0
Known n s = All (λ (entry : ℕ × ℕ). entry.1 < n) s.by_cp_seid

-- The indexes of the store agree on the sessions behind them, and these have been made.
pub record IsSound (s : Server) : Type 0 where
  pub inv : Inv s.heap s.store
  pub known : Known s.next_session s.store

-- The two heaps have the same keys at the references of an index.
abbrev Agree : Heap → Heap → List (ℕ × ℕ) → Type 0
Agree h h' m =
    (k r : ℕ)
    → lookup k m ≡ some r
    → ((h' r).cp_seid ≡ (h r).cp_seid) × ((h' r).up_seid ≡ (h r).up_seid)

Half-agree :
    (key other key' other' : ℕ → ℕ) (m n : List (ℕ × ℕ))
    → ((k r : ℕ) → lookup k m ≡ some r → (key' r ≡ key r) × (other' r ≡ other r))
    → Half key other m n
    → Half key' other' m n
Half-agree key other key' other' m n same h = record {
  distinct = h.distinct;
  keyed = λ k r e. (same k r e).0 ∙ h.keyed k r e;
  linked = λ k r e. ap (λ i. lookup i n) (same k r e).1 ∙ h.linked k r e;
}

pub Inv-Agree :
    (h h' : Heap) (s : Store)
    → Agree h h' s.by_cp_seid
    → Agree h h' s.by_up_seid
    → Inv h s
    → Inv h' s
Inv-Agree h h' s by_cp by_up i = record {
  coherent = record {
    by_cp =
        Half-agree (cp_key h) (up_key h) (cp_key h') (up_key h') s.by_cp_seid s.by_up_seid by_cp
          i.coherent.by_cp;
    by_up =
        Half-agree (up_key h) (cp_key h) (up_key h') (cp_key h') s.by_up_seid s.by_cp_seid
          (λ k r e. let (a, b) = by_up k r e in (b, a)) i.coherent.by_up;
  };
  allocated_seids = i.allocated_seids;
}

-- A new session leaves the others as they are.
pub set_at_other : (h : Heap) (r k : ℕ) (v : Session) → nat_beq k r ≡ false → set_at h r v k ≡ h k
set_at_other h r k v e = rw e refl

pub set_at_same : (h : Heap) (r : ℕ) (v : Session) → set_at h r v r ≡ v
set_at_same h r v = rw ((nat_beq_iff r r).1 refl) refl

pub below-nat_beq : (k r : ℕ) → k < r → nat_beq k r ≡ false
below-nat_beq k r h = ground arith

pub fresh-Agree :
    (h : Heap) (r : ℕ) (v : Session) (m : List (ℕ × ℕ))
    → ((k q : ℕ) → lookup k m ≡ some q → q < r)
    → Agree h (set_at h r v) m
fresh-Agree h r v m below k q e =
    let same = set_at_other h r q v (below-nat_beq q r (below k q e)) in
    (ap (λ x. x.cp_seid) same, ap (λ x. x.up_seid) same)

-- A session that is changed under its keys.
pub kept-Agree :
    (h : Heap) (r : ℕ) (v : Session) (m : List (ℕ × ℕ))
    → v.cp_seid ≡ (h r).cp_seid
    → v.up_seid ≡ (h r).up_seid
    → Agree h (set_at h r v) m
kept-Agree h r v m cp up k q e = elim (Bool-cases (nat_beq q r)) [
  | inr other ↦
      let same = set_at_other h r q v other in (ap (λ x. x.cp_seid) same, ap (λ x. x.up_seid) same)
  | inl here ↦
      let key : q ≡ r = (nat_beq_iff q r).0 here in
      rw here (cp ∙ ap (λ i. (h i).cp_seid) (sym key), up ∙ ap (λ i. (h i).up_seid) (sym key))
]

pub Known-cp : (n : ℕ) (s : Store) → Known n s → (k r : ℕ) → lookup k s.by_cp_seid ≡ some r → r < n
Known-cp n s h k r e = lookup-All (λ (entry : ℕ × ℕ). entry.1 < n) k s.by_cp_seid h e

pub Known-up :
    (heap : Heap) (n : ℕ) (s : Store)
    → Inv heap s
    → Known n s
    → (k r : ℕ) → lookup k s.by_up_seid ≡ some r
    → r < n
Known-up heap n s i h k r e = Known-cp n s h (heap r).cp_seid r (i.coherent.by_up.linked k r e)

pub delete_by_cp_seid-Known :
    (heap : Heap) (n k : ℕ) (s : Store) → Known n s → Known n (delete_by_cp_seid heap k s)
unfolding delete_by_cp_seid
delete_by_cp_seid-Known heap n k s h = elim (Option-cases (lookup k s.by_cp_seid)) [
  | inl absent ↦ rw (absent, delete_by_cp_seid) h
  | inr there ↦
      rw (there.1, delete_by_cp_seid) (delete-All (λ (entry : ℕ × ℕ). entry.1 < n) k s.by_cp_seid h)
]

pub delete_by_up_seid-Known :
    (heap : Heap) (n k : ℕ) (s : Store) → Known n s → Known n (delete_by_up_seid heap k s)
unfolding delete_by_up_seid
delete_by_up_seid-Known heap n k s h = elim (Option-cases (lookup k s.by_up_seid)) [
  | inl absent ↦ rw (absent, delete_by_up_seid) h
  | inr there ↦
      rw (there.1, delete_by_up_seid)
        (delete-All (λ (entry : ℕ × ℕ). entry.1 < n) (heap there.0).cp_seid s.by_cp_seid h)
]

pub delete_loop-Known :
    (heap : Heap) (n : ℕ) (ks : List ℕ) (s : Store) → Known n s → Known n (delete_loop heap ks s).1
unfolding delete_loop
delete_loop-Known heap n [] s h = h
delete_loop-Known heap n (k ∷ ks) s h =
    let rest =
      delete_loop-Known heap n ks (delete_by_cp_seid heap k s)
        (delete_by_cp_seid-Known heap n k s h) in
    elim (Option-cases (lookup k s.by_cp_seid)) [
      | inl absent ↦ rw (absent, delete_loop) rest
      | inr there ↦ rw (there.1, delete_loop) rest
    ]

pub create-Known :
    (heap : Heap) (n r : ℕ) (s s' : Store)
    → Known n s
    → r < n
    → create heap r s ≡ ok s'
    → Known n s'
unfolding create
create-Known heap n r s s' h small e = elim (Option-cases (lookup (heap r).cp_seid s.by_cp_seid)) [
  | inr there ↦ absurd (cc (rw (there.1, create) at e))
  | inl absent ↦
      subst (Known n)
        {x = record s {
          by_cp_seid = insert (heap r).cp_seid r s.by_cp_seid;
          by_up_seid = insert (heap r).up_seid r s.by_up_seid;
        }}
        {y = s'} (cc (rw (absent, create) at e))
        (insert-All (λ (entry : ℕ × ℕ). entry.1 < n) (heap r).cp_seid r s.by_cp_seid small h)
]
