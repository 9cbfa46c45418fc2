-- ===== src/Sgwu/Session/Coherence.antt =====
-- internal/sgwu/session/store.go: the two indexes of the store under each operation.
use vectorcore_sgw.Common.{
  ℕ, ◌≡◌, refl, sym, ap, subst, ◌∙◌, false, not, none, some, List, number_keys, ◌==◌, nat_beq,
  nat_beq_iff, if◌then◌else◌, inl, inr, Bool-cases, Option-cases,
}
use vectorcore_sgw.Common.Maps.{
  lookup, insert, delete, Distinct, lookup-delete, lookup-delete_kept, insert-Distinct,
  delete-Distinct,
}
use vectorcore_sgw.Common.Results.{ok}
use vectorcore_sgw.Sgwu.Session.{
  Heap, Store, new_store, create, update, delete_by_cp_seid, delete_by_up_seid,
}
use vectorcore_sgw.Sgwu.Session.Indexes.{
  Half, nil-Half, insert-Half, delete-Half, Half-lookup, lookup-replace,
}

abbrev pub cp_key : Heap → ℕ → ℕ
cp_key heap r = (heap r).cp_seid

abbrev pub up_key : Heap → ℕ → ℕ
up_key heap r = (heap r).up_seid

-- The two indexes hold the same sessions, each under its own keys.
pub record Coherent (heap : Heap) (s : Store) : Type 0 where
  pub by_cp : Half (cp_key heap) (up_key heap) s.by_cp_seid s.by_up_seid
  pub by_up : Half (up_key heap) (cp_key heap) s.by_up_seid s.by_cp_seid

pub new_store-Coherent : (heap : Heap) → Coherent heap new_store
new_store-Coherent heap = record {
  by_cp = nil-Half (cp_key heap) (up_key heap);
  by_up = nil-Half (up_key heap) (cp_key heap);
}

-- One session put under both of its keys, and one taken from both.
abbrev pub put : Heap → ℕ → Store → Store
put heap r s = record s {
  by_cp_seid = insert (heap r).cp_seid r s.by_cp_seid;
  by_up_seid = insert (heap r).up_seid r s.by_up_seid;
}

abbrev removed : Heap → ℕ → Store → Store
removed heap r s = record s {
  by_cp_seid = delete (heap r).cp_seid s.by_cp_seid;
  by_up_seid = delete (heap r).up_seid s.by_up_seid;
}

put-Coherent :
    (heap : Heap) (r : ℕ) (s : Store)
    → Coherent heap s
    → lookup (heap r).cp_seid s.by_cp_seid ≡ none
    → lookup (heap r).up_seid s.by_up_seid ≡ none
    → Coherent heap (put heap r s)
put-Coherent heap r s c new_cp new_up = record {
  by_cp = insert-Half (cp_key heap) (up_key heap) r s.by_cp_seid s.by_up_seid c.by_cp new_up;
  by_up = insert-Half (up_key heap) (cp_key heap) r s.by_up_seid s.by_cp_seid c.by_up new_cp;
}

removed-Coherent :
    (heap : Heap) (r : ℕ) (s : Store)
    → Coherent heap s
    → lookup (heap r).cp_seid s.by_cp_seid ≡ some r
    → Coherent heap (removed heap r s)
removed-Coherent heap r s c e = record {
  by_cp =
      delete-Half (cp_key heap) (up_key heap) r s.by_cp_seid s.by_up_seid c.by_cp
        (c.by_cp.linked (heap r).cp_seid r e);
  by_up = delete-Half (up_key heap) (cp_key heap) r s.by_up_seid s.by_cp_seid c.by_up e;
}

pub create-Coherent :
    (heap : Heap) (r : ℕ) (s s' : Store)
    → Coherent heap s
    → lookup (heap r).up_seid s.by_up_seid ≡ none
    → create heap r s ≡ ok s'
    → Coherent heap s'
unfolding create
create-Coherent heap r s s' c new_up e =
    elim (Option-cases (lookup (heap r).cp_seid s.by_cp_seid)) [
      | inl none_there ↦
          subst (Coherent heap) (cc (rw (none_there, create) at e))
            (put-Coherent heap r s c none_there new_up)
      | inr there ↦ absurd (cc (rw (there.1, create) at e))
    ]

pub delete_by_cp_seid-Coherent :
    (heap : Heap) (k : ℕ) (s : Store) → Coherent heap s → Coherent heap (delete_by_cp_seid heap k s)
unfolding delete_by_cp_seid
delete_by_cp_seid-Coherent heap k s c = elim (Option-cases (lookup k s.by_cp_seid)) [
  | inl absent ↦ rw (absent, delete_by_cp_seid) c
  | inr there ↦
      let key : (heap there.0).cp_seid ≡ k = c.by_cp.keyed k there.0 there.1 in
      rw (there.1, delete_by_cp_seid)
        (subst
          (λ i. Coherent heap (record s {
            by_cp_seid = delete i s.by_cp_seid;
            by_up_seid = delete (heap there.0).up_seid s.by_up_seid;
          }))
          key (removed-Coherent heap there.0 s c (ap (λ i. lookup i s.by_cp_seid) key ∙ there.1)))
]

-- The index by UP-SEID as `Update` leaves it before it puts the session in.
abbrev pub kept_up : Heap → ℕ → ℕ → List (ℕ × ℕ) → List (ℕ × ℕ)
kept_up heap old r m =
    if not (nat_beq (heap old).up_seid (heap r).up_seid) then delete (heap old).up_seid m else m

kept_up-Distinct :
    (heap : Heap) (old r : ℕ) (m : List (ℕ × ℕ)) → Distinct m → Distinct (kept_up heap old r m)
kept_up-Distinct heap old r m d = elim (Bool-cases (nat_beq (heap old).up_seid (heap r).up_seid)) [
  | inl same ↦ rw same d
  | inr moved ↦ rw moved (delete-Distinct (heap old).up_seid m d)
]

kept_up-delete :
    (heap : Heap) (old r : ℕ) (m : List (ℕ × ℕ)) (j : ℕ)
    → ((heap r).up_seid == j) ≡ false
    → lookup j (kept_up heap old r m) ≡ lookup j (delete (heap old).up_seid m)
kept_up-delete heap old r m j apart =
    elim (Bool-cases (nat_beq (heap old).up_seid (heap r).up_seid)) [
      | inl same ↦
          let key : (heap old).up_seid ≡ (heap r).up_seid =
            (nat_beq_iff (heap old).up_seid (heap r).up_seid).0 same in
          rw same (sym (lookup-delete_kept (heap old).up_seid m j (rw key apart)))
      | inr moved ↦ rw moved refl
    ]

abbrev pub updated : Heap → ℕ → ℕ → Store → Store
updated heap old r s = record s {
  by_cp_seid = insert (heap r).cp_seid r s.by_cp_seid;
  by_up_seid = insert (heap r).up_seid r (kept_up heap old r s.by_up_seid);
}

pub update_ok :
    (heap : Heap) (r old : ℕ) (s s' : Store)
    → lookup (heap r).cp_seid s.by_cp_seid ≡ some old
    → update heap r s ≡ ok s'
    → updated heap old r s ≡ s'
unfolding update
update_ok heap r old s s' there e = cc (rw (there, update) at e)

updated-Coherent :
    (heap : Heap) (r old : ℕ) (s : Store)
    → Coherent heap s
    → lookup (heap r).cp_seid s.by_cp_seid ≡ some old
    → lookup (heap r).up_seid (delete (heap old).up_seid s.by_up_seid) ≡ none
    → Coherent heap (updated heap old r s)
updated-Coherent heap r old s c there fresh =
    let key : (heap old).cp_seid ≡ (heap r).cp_seid = c.by_cp.keyed (heap r).cp_seid old there in
    let out : Coherent heap (removed heap old s) =
      removed-Coherent heap old s c (ap (λ i. lookup i s.by_cp_seid) key ∙ there) in
    let gone : lookup (heap r).cp_seid (delete (heap old).cp_seid s.by_cp_seid) ≡ none =
      lookup-delete (heap old).cp_seid (heap r).cp_seid s.by_cp_seid
      ∙ rw ((nat_beq_iff (heap old).cp_seid (heap r).cp_seid).1 key) refl in
    let model : Coherent heap (put heap r (removed heap old s)) =
      put-Coherent heap r (removed heap old s) out gone fresh in
    let cp_same : (i : ℕ)
        → lookup i (insert (heap r).cp_seid r s.by_cp_seid)
          ≡ lookup i (insert (heap r).cp_seid r (delete (heap old).cp_seid s.by_cp_seid)) =
      λ i.
        lookup-replace (heap r).cp_seid r s.by_cp_seid (delete (heap old).cp_seid s.by_cp_seid) i
          (λ apart. sym (lookup-delete_kept (heap old).cp_seid s.by_cp_seid i (rw key apart))) in
    let up_same : (i : ℕ)
        → lookup i (insert (heap r).up_seid r (kept_up heap old r s.by_up_seid))
          ≡ lookup i (insert (heap r).up_seid r (delete (heap old).up_seid s.by_up_seid)) =
      λ i.
        lookup-replace (heap r).up_seid r (kept_up heap old r s.by_up_seid)
          (delete (heap old).up_seid s.by_up_seid) i (kept_up-delete heap old r s.by_up_seid i) in
    record {
      by_cp =
          Half-lookup (cp_key heap) (up_key heap) _ _ _ _ model.by_cp
            (insert-Distinct (heap r).cp_seid r s.by_cp_seid c.by_cp.distinct) cp_same up_same;
      by_up =
          Half-lookup (up_key heap) (cp_key heap) _ _ _ _ model.by_up
            (insert-Distinct (heap r).up_seid r (kept_up heap old r s.by_up_seid)
              (kept_up-Distinct heap old r s.by_up_seid c.by_up.distinct))
            up_same cp_same;
    }

-- The new session may keep the UP-SEID of the old one, or bring one that no other session has.
pub update-Coherent :
    (heap : Heap) (r old : ℕ) (s s' : Store)
    → Coherent heap s
    → lookup (heap r).cp_seid s.by_cp_seid ≡ some old
    → lookup (heap r).up_seid (delete (heap old).up_seid s.by_up_seid) ≡ none
    → update heap r s ≡ ok s'
    → Coherent heap s'
update-Coherent heap r old s s' c there fresh e =
    subst (Coherent heap) (update_ok heap r old s s' there e)
      (updated-Coherent heap r old s c there fresh)

-- In a store whose indexes agree, deleting a session by its UP-SEID is deleting it by its CP-SEID.
pub delete_by_up_seid-delete_by_cp_seid :
    (heap : Heap) (k r : ℕ) (s : Store)
    → Coherent heap s
    → lookup k s.by_up_seid ≡ some r
    → delete_by_up_seid heap k s ≡ delete_by_cp_seid heap (heap r).cp_seid s
unfolding delete_by_up_seid delete_by_cp_seid
delete_by_up_seid-delete_by_cp_seid heap k r s c e =
    rw (e, delete_by_up_seid, c.by_up.linked k r e, delete_by_cp_seid)
      (ap
        (λ i. record s {
          by_cp_seid = delete (heap r).cp_seid s.by_cp_seid;
          by_up_seid = delete i s.by_up_seid;
        })
        (sym (c.by_up.keyed k r e)))
