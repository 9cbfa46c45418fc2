-- ===== src/Sgwu/Session/Reach.antt =====
-- internal/sgwu/session/store.go: the stores that calls of its methods lead to.
use vectorcore_sgw.Common.{
  ℕ, ◌+◌, ◌%◌, ◌^◌, ◌<◌, ◌≤◌, ◌≡◌, refl, sym, ap, subst, ◌∙◌, String, none, some, List, [], ◌∷◌,
  number_keys, nat_beq_iff, arith, inl, inr, Option-cases,
}
use vectorcore_sgw.Common.Maps.{lookup, insert, delete, delete_entry, insert_entry, lookup-delete}
use vectorcore_sgw.Common.Results.{ok}
use vectorcore_sgw.Sgwu.Session.{
  Heap, Store, new_store, alloc_seid, create, update, delete_by_cp_seid, delete_by_up_seid,
  to_delete, delete_loop, delete_by_cp_node_key,
}
use vectorcore_sgw.Sgwu.Session.Coherence.{
  Coherent, put, update_ok, new_store-Coherent, create-Coherent, update-Coherent,
  delete_by_cp_seid-Coherent, delete_by_up_seid-delete_by_cp_seid,
}

-- `established` is the Session Establishment handler: it allocates the UP-SEID and creates the
-- session under it. Sessions that are changed in place keep
-- their SEIDs, which are all that these steps read of the heap besides the node key.
pub data Reach (heap : Heap) : Store → Type 0 where
  created : Reach heap new_store
  allocated : {s : Store} → Reach heap s → s.seid_counter + 1 < 2 ^ 64 → Reach heap (alloc_seid s).0
  established :
      {s s' : Store} (r : ℕ)
      → Reach heap s
      → s.seid_counter + 1 < 2 ^ 64
      → (heap r).up_seid ≡ (alloc_seid s).1
      → create heap r (alloc_seid s).0 ≡ ok s'
      → Reach heap s'
  updated :
      {s s' : Store} (r old : ℕ)
      → Reach heap s
      → lookup (heap r).cp_seid s.by_cp_seid ≡ some old
      → (heap r).up_seid ≡ (heap old).up_seid
      → update heap r s ≡ ok s'
      → Reach heap s'
  deleted_by_cp : {s : Store} (k : ℕ) → Reach heap s → Reach heap (delete_by_cp_seid heap k s)
  deleted_by_up : {s : Store} (k : ℕ) → Reach heap s → Reach heap (delete_by_up_seid heap k s)
  deleted_by_node :
      {s : Store} (node_key : String)
      → Reach heap s
      → Reach heap (delete_by_cp_node_key heap node_key s).1

abbrev pub Bounded : ℕ → List (ℕ × ℕ) → Type 0
Bounded n m = (k r : ℕ) → lookup k m ≡ some r → k ≤ n

insert-Bounded : (n k r : ℕ) (m : List (ℕ × ℕ)) → Bounded n m → k ≤ n → Bounded n (insert k r m)
insert-Bounded n k r m h le j w e = elim (insert_entry k r m j w e) [
  | inl here ↦ omega (arith, here.0)
  | inr old ↦ h j w old
]

-- No UP-SEID is in use that has not been allocated.
pub record Inv (heap : Heap) (s : Store) : Type 0 where
  pub coherent : Coherent heap s
  pub allocated_seids : Bounded s.seid_counter s.by_up_seid

pub new_store-Inv : (heap : Heap) → Inv heap new_store
unfolding lookup
new_store-Inv heap = record {
  coherent = new_store-Coherent heap;
  allocated_seids = λ k r e. absurd (cc e);
}

pub alloc_seid-Inv :
    (heap : Heap) (s : Store) → Inv heap s → s.seid_counter + 1 < 2 ^ 64 → Inv heap (alloc_seid s).0
unfolding alloc_seid
alloc_seid-Inv heap s i small = record {
  coherent = record { by_cp = i.coherent.by_cp; by_up = i.coherent.by_up };
  allocated_seids = λ k r e. omega (arith, i.allocated_seids k r e);
}

pub fresh_seid :
    (heap : Heap) (s : Store)
    → Inv heap s
    → s.seid_counter + 1 < 2 ^ 64
    → lookup (alloc_seid s).1 (alloc_seid s).0.by_up_seid ≡ none
unfolding alloc_seid
fresh_seid heap s i small =
    elim (Option-cases (lookup ((s.seid_counter + 1) % 2 ^ 64) s.by_up_seid)) [
      | inl absent ↦ absent
      | inr there ↦
          absurd (omega (arith, i.allocated_seids ((s.seid_counter + 1) % 2 ^ 64) there.0 there.1))
    ]

pub alloc_seid-counter :
    (s : Store) → s.seid_counter + 1 < 2 ^ 64 → (alloc_seid s).1 ≡ (alloc_seid s).0.seid_counter
unfolding alloc_seid
alloc_seid-counter s h = refl

pub create-Inv :
    (heap : Heap) (r : ℕ) (s s' : Store)
    → Inv heap s
    → lookup (heap r).up_seid s.by_up_seid ≡ none
    → (heap r).up_seid ≤ s.seid_counter
    → create heap r s ≡ ok s'
    → Inv heap s'
unfolding create
create-Inv heap r s s' i fresh small e = record {
  coherent = create-Coherent heap r s s' i.coherent fresh e;
  allocated_seids = elim (Option-cases (lookup (heap r).cp_seid s.by_cp_seid)) [
    | inl absent ↦
        subst (λ (x : Store). Bounded x.seid_counter x.by_up_seid) {x = put heap r s} {y = s'}
          (cc (rw (absent, create) at e))
          (insert-Bounded s.seid_counter (heap r).up_seid r s.by_up_seid i.allocated_seids small)
    | inr there ↦ absurd (cc (rw (there.1, create) at e))
  ];
}

update-Inv :
    (heap : Heap) (r old : ℕ) (s s' : Store)
    → Inv heap s
    → lookup (heap r).cp_seid s.by_cp_seid ≡ some old
    → (heap r).up_seid ≡ (heap old).up_seid
    → update heap r s ≡ ok s'
    → Inv heap s'
update-Inv heap r old s s' i there same e =
    let link : lookup (heap old).up_seid s.by_up_seid ≡ some old =
      i.coherent.by_cp.linked (heap r).cp_seid old there in
    let gone : lookup (heap r).up_seid (delete (heap old).up_seid s.by_up_seid) ≡ none =
      lookup-delete (heap old).up_seid (heap r).up_seid s.by_up_seid
      ∙ rw ((nat_beq_iff (heap old).up_seid (heap r).up_seid).1 (sym same)) refl in
    let small : (heap r).up_seid ≤ s.seid_counter =
      rw same (i.allocated_seids (heap old).up_seid old link) in
    record {
      coherent = update-Coherent heap r old s s' i.coherent there gone e;
      allocated_seids =
          subst (λ (x : Store). Bounded x.seid_counter x.by_up_seid)
            (update_ok heap r old s s' there e)
            (rw ((nat_beq_iff (heap old).up_seid (heap r).up_seid).1 (sym same)) (
              insert-Bounded s.seid_counter (heap r).up_seid r s.by_up_seid i.allocated_seids
                small));
    }

pub delete_by_cp_seid-Inv :
    (heap : Heap) (k : ℕ) (s : Store) → Inv heap s → Inv heap (delete_by_cp_seid heap k s)
unfolding delete_by_cp_seid
delete_by_cp_seid-Inv heap k s i = record {
  coherent = delete_by_cp_seid-Coherent heap k s i.coherent;
  allocated_seids = elim (Option-cases (lookup k s.by_cp_seid)) [
    | inl absent ↦ rw (absent, delete_by_cp_seid) i.allocated_seids
    | inr there ↦
        rw (there.1, delete_by_cp_seid)
          (λ j r e.
            i.allocated_seids j r (delete_entry (heap there.0).up_seid s.by_up_seid j r e).1)
  ];
}

pub delete_by_up_seid-Inv :
    (heap : Heap) (k : ℕ) (s : Store) → Inv heap s → Inv heap (delete_by_up_seid heap k s)
unfolding delete_by_up_seid
delete_by_up_seid-Inv heap k s i = elim (Option-cases (lookup k s.by_up_seid)) [
  | inl absent ↦ rw (absent, delete_by_up_seid) i
  | inr there ↦
      subst (Inv heap)
        (sym (delete_by_up_seid-delete_by_cp_seid heap k there.0 s i.coherent there.1))
        (delete_by_cp_seid-Inv heap (heap there.0).cp_seid s i)
]

pub delete_loop-Inv :
    (heap : Heap) (ks : List ℕ) (s : Store) → Inv heap s → Inv heap (delete_loop heap ks s).1
unfolding delete_loop
delete_loop-Inv heap [] s i = i
delete_loop-Inv heap (k ∷ ks) s i =
    let rest =
      delete_loop-Inv heap ks (delete_by_cp_seid heap k s) (delete_by_cp_seid-Inv heap k s i) in
    elim (Option-cases (lookup k s.by_cp_seid)) [
      | inl absent ↦ rw (absent, delete_loop) rest
      | inr there ↦ rw (there.1, delete_loop) rest
    ]

-- In every store that calls of the methods lead to, with each session created under the UP-SEID just
-- allocated, each Update keeping the UP-SEID of the session that it replaces, and fewer than 2^64
-- allocations, the two indexes hold the same sessions, each under its own CP-SEID and UP-SEID, and no
-- UP-SEID is in use that has not been allocated.
pub reached-Inv : (heap : Heap) {s : Store} → Reach heap s → Inv heap s
unfolding delete_by_cp_node_key
reached-Inv heap created = new_store-Inv heap
reached-Inv heap (allocated {s} before small) =
    alloc_seid-Inv heap s (reached-Inv heap before) small
reached-Inv heap (established {s} {s'} r before small seid e) =
    let i : Inv heap s = reached-Inv heap before in
    create-Inv heap r (alloc_seid s).0 s' (alloc_seid-Inv heap s i small)
      (ap (λ k. lookup k (alloc_seid s).0.by_up_seid) seid ∙ fresh_seid heap s i small)
      (omega (arith, seid, alloc_seid-counter s small)) e
reached-Inv heap (updated {s} {s'} r old before there same e) =
    update-Inv heap r old s s' (reached-Inv heap before) there same e
reached-Inv heap (deleted_by_cp {s} k before) =
    delete_by_cp_seid-Inv heap k s (reached-Inv heap before)
reached-Inv heap (deleted_by_up {s} k before) =
    delete_by_up_seid-Inv heap k s (reached-Inv heap before)
reached-Inv heap (deleted_by_node {s} node_key before) =
    delete_loop-Inv heap (to_delete heap node_key s.by_cp_seid) s (reached-Inv heap before)
