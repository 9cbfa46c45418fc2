-- ===== src/Sgwu/Session/Deletes.antt =====
-- internal/sgwu/session/store.go: deleting the sessions of a control plane node that has restarted.
use vectorcore_sgw.Common.{
  ℕ, ◌+◌, ◌≡◌, refl, sym, ap, subst, ◌∙◌, String, Bool, true, false, ◌||◌, Option, none, some, List,
  [], ◌∷◌, length, All, any, All-imp, number_keys, text_keys, ◌==◌, nat_beq_iff, if◌then◌else◌,
  arith, inl, inr, ◌⊎◌, Option-cases, Bool-cases,
}
use vectorcore_sgw.Common.Maps.{lookup, Distinct, lookup-delete, length-delete}
use vectorcore_sgw.Sgwu.Session.{
  Heap, Store, count, delete_by_cp_seid, to_delete, delete_loop, delete_by_cp_node_key,
}
use vectorcore_sgw.Sgwu.Session.Coherence.{Coherent, delete_by_cp_seid-Coherent}

lookup-delete_by_cp_seid :
    (heap : Heap) (k j : ℕ) (s : Store)
    → lookup j (delete_by_cp_seid heap k s).by_cp_seid
      ≡ (if k == j then none else lookup j s.by_cp_seid)
unfolding delete_by_cp_seid
lookup-delete_by_cp_seid heap k j s = elim (Option-cases (lookup k s.by_cp_seid)) [
  | inl absent ↦ rw (absent, delete_by_cp_seid) (untouched (Bool-cases (k == j)) absent)
  | inr there ↦ rw (there.1, delete_by_cp_seid) (lookup-delete k j s.by_cp_seid)
]
  where
    untouched :
        ((k == j) ≡ true) ⊎ ((k == j) ≡ false)
        → lookup k s.by_cp_seid ≡ none
        → lookup j s.by_cp_seid ≡ (if k == j then none else lookup j s.by_cp_seid)
    untouched (inl same) absent =
        rw same (ap (λ i. lookup i s.by_cp_seid) (sym ((nat_beq_iff k j).0 same)) ∙ absent)
    untouched (inr apart) absent = rw apart refl

-- Whether a key is in the list.
abbrev among : ℕ → List ℕ → Bool
among j ks = any (λ k. k == j) ks

delete_loop-after :
    (heap : Heap) (k : ℕ) (ks : List ℕ) (s : Store)
    → (delete_loop heap (k ∷ ks) s).1 ≡ (delete_loop heap ks (delete_by_cp_seid heap k s)).1
unfolding delete_loop
delete_loop-after heap k ks s = elim (Option-cases (lookup k s.by_cp_seid)) [
  | inl absent ↦ rw (absent, delete_loop) refl
  | inr there ↦ rw (there.1, delete_loop) refl
]

lookup-delete_loop :
    (heap : Heap) (ks : List ℕ) (j : ℕ) (s : Store)
    → lookup j (delete_loop heap ks s).1.by_cp_seid
      ≡ (if among j ks then none else lookup j s.by_cp_seid)
unfolding delete_loop
lookup-delete_loop heap [] j s = refl
lookup-delete_loop heap (k ∷ ks) j s =
    ap (λ (t : Store). lookup j t.by_cp_seid) (delete_loop-after heap k ks s)
    ∙ lookup-delete_loop heap ks j (delete_by_cp_seid heap k s)
    ∙ rw (lookup-delete_by_cp_seid heap k j s) (joined (k == j) (among j ks))
  where
    joined :
        (b c : Bool)
        → (if c then none else if b then none else lookup j s.by_cp_seid)
          ≡ (if b || c then none else lookup j s.by_cp_seid)
    joined true true = refl
    joined true false = refl
    joined false true = refl
    joined false false = refl

count-delete_by_cp_seid :
    (heap : Heap) (k r : ℕ) (s : Store)
    → Coherent heap s
    → lookup k s.by_cp_seid ≡ some r
    → count (delete_by_cp_seid heap k s) + 1 ≡ count s
unfolding delete_by_cp_seid
count-delete_by_cp_seid heap k r s c there =
    rw (there, delete_by_cp_seid) (length-delete k r s.by_cp_seid c.by_cp.distinct there)

delete_absent_seid :
    (heap : Heap) (k : ℕ) (s : Store)
    → lookup k s.by_cp_seid ≡ none
    → delete_by_cp_seid heap k s ≡ s
unfolding delete_by_cp_seid
delete_absent_seid heap k s absent = rw (absent, delete_by_cp_seid) refl

delete_loop-count :
    (heap : Heap) (ks : List ℕ) (s : Store)
    → Coherent heap s
    → length (delete_loop heap ks s).0 + count (delete_loop heap ks s).1 ≡ count s
unfolding delete_loop
delete_loop-count heap [] s c = omega arith
delete_loop-count heap (k ∷ ks) s c =
    let after : Store = delete_by_cp_seid heap k s in
    let rest = delete_loop-count heap ks after (delete_by_cp_seid-Coherent heap k s c) in
    elim (Option-cases (lookup k s.by_cp_seid)) [
      | inl absent ↦ rw (absent, delete_loop) (rest ∙ ap count (delete_absent_seid heap k s absent))
      | inr there ↦
          let one = count-delete_by_cp_seid heap k there.0 s c there.1 in
          rw (there.1, delete_loop) (omega (arith, rest, one))
    ]

delete_by_cp_seid_entry :
    (heap : Heap) (k j r : ℕ) (s : Store)
    → lookup j (delete_by_cp_seid heap k s).by_cp_seid ≡ some r
    → lookup j s.by_cp_seid ≡ some r
delete_by_cp_seid_entry heap k j r s e = elim (Bool-cases (k == j)) [
  | inl same ↦ absurd (cc (rw same at (sym (lookup-delete_by_cp_seid heap k j s) ∙ e)))
  | inr apart ↦ rw apart at (sym (lookup-delete_by_cp_seid heap k j s) ∙ e)
]

-- What holds of the sessions under the keys holds of the sessions that the loop deletes.
delete_loop-All :
    (heap : Heap) (P : ℕ → Type 0) (ks : List ℕ) (s : Store)
    → All (λ k. (r : ℕ) → lookup k s.by_cp_seid ≡ some r → P r) ks
    → All P (delete_loop heap ks s).0
unfolding delete_loop
delete_loop-All heap P [] s h = tt
delete_loop-All heap P (k ∷ ks) s h =
    let rest = delete_loop-All heap P ks (delete_by_cp_seid heap k s) (later h.1) in
    elim (Option-cases (lookup k s.by_cp_seid)) [
      | inl absent ↦ rw (absent, delete_loop) rest
      | inr there ↦ rw (there.1, delete_loop) (h.0 there.0 there.1, rest)
    ]
  where
    later :
        All (λ k. (r : ℕ) → lookup k s.by_cp_seid ≡ some r → P r) ks
        → All (λ j. (r : ℕ) → lookup j (delete_by_cp_seid heap k s).by_cp_seid ≡ some r → P r) ks
    later t =
        All-imp (λ j. (r : ℕ) → lookup j s.by_cp_seid ≡ some r → P r)
          (λ j. (r : ℕ) → lookup j (delete_by_cp_seid heap k s).by_cp_seid ≡ some r → P r)
          (λ j before r e. before r (delete_by_cp_seid_entry heap k j r s e)) ks t

-- A session is taken out exactly when its node key is the one that is looked for.
abbrev is_of : Heap → String → Option ℕ → Bool
is_of heap node_key none = false
is_of heap node_key (some r) = (heap r).cp_node_key == node_key

among-to_delete :
    (heap : Heap) (node_key : String) (j : ℕ) (m : List (ℕ × ℕ))
    → Distinct m
    → among j (to_delete heap node_key m) ≡ is_of heap node_key (lookup j m)
unfolding to_delete lookup
among-to_delete heap node_key j [] d = refl
among-to_delete heap node_key j ((i, r) ∷ m) d =
    let rest = among-to_delete heap node_key j m d.1 in
    elim (Bool-cases ((heap r).cp_node_key == node_key)) [
      | inl theirs ↦ elim (Bool-cases (i == j)) [
        | inl here ↦ rw (theirs, here, theirs) refl
        | inr apart ↦ rw (theirs, apart) rest
      ]
      | inr other ↦ elim (Bool-cases (i == j)) [
        | inl here ↦
            let none_left : lookup j m ≡ none =
              ap (λ x. lookup x m) (sym ((nat_beq_iff i j).0 here)) ∙ d.0 in
            rw (other, here, other) (rest ∙ ap (is_of heap node_key) none_left)
        | inr apart ↦ rw (other, apart) rest
      ]
    ]

All-among : (P : ℕ → Type 0) (ks : List ℕ) → ((j : ℕ) → among j ks ≡ true → P j) → All P ks
All-among P [] h = tt
All-among P (k ∷ ks) h = (
  h k (rw ((nat_beq_iff k k).1 refl) refl),
  All-among P ks (λ j e. h j (rw e (or_true (k == j)))),
)
  where
    or_true : (b : Bool) → (b || true) ≡ true
    or_true true = refl
    or_true false = refl

-- What an entry of the index becomes.
abbrev pub spared : Heap → String → Option ℕ → Option ℕ
spared heap node_key none = none
spared heap node_key (some r) = if (heap r).cp_node_key == node_key then none else some r

spared-is_of :
    (heap : Heap) (node_key : String) (o : Option ℕ)
    → (if is_of heap node_key o then none else o) ≡ spared heap node_key o
spared-is_of heap node_key none = refl
spared-is_of heap node_key (some r) = refl

delete_loop-Coherent :
    (heap : Heap) (ks : List ℕ) (s : Store)
    → Coherent heap s
    → Coherent heap (delete_loop heap ks s).1
unfolding delete_loop
delete_loop-Coherent heap [] s c = c
delete_loop-Coherent heap (k ∷ ks) s c =
    subst (Coherent heap) (sym (delete_loop-after heap k ks s)) (
      delete_loop-Coherent heap ks (delete_by_cp_seid heap k s)
        (delete_by_cp_seid-Coherent heap k s c))

spared-some :
    (heap : Heap) (node_key : String) (o : Option ℕ) (r : ℕ)
    → spared heap node_key o ≡ some r
    → (o ≡ some r) × (((heap r).cp_node_key == node_key) ≡ false)
spared-some heap node_key none r e = absurd (cc e)
spared-some heap node_key (some x) r e = elim (Bool-cases ((heap x).cp_node_key == node_key)) [
  | inl theirs ↦ absurd (cc (rw theirs at e))
  | inr other ↦
      let same : x ≡ r = cc (rw other at e) in
      (ap some same, subst (λ y. ((heap y).cp_node_key == node_key) ≡ false) same other)
]

some-spared :
    (heap : Heap) (node_key : String) (r : ℕ)
    → ((heap r).cp_node_key == node_key) ≡ false
    → spared heap node_key (some r) ≡ some r
some-spared heap node_key r other = rw other refl

-- In two stores whose indexes agree, what spares the entries of one index spares those of the other.
spared_by_up :
    (heap : Heap) (node_key : String) (s t : Store)
    → Coherent heap s
    → Coherent heap t
    → ((k : ℕ) → lookup k t.by_cp_seid ≡ spared heap node_key (lookup k s.by_cp_seid))
    → (u : ℕ) → lookup u t.by_up_seid ≡ spared heap node_key (lookup u s.by_up_seid)
spared_by_up heap node_key s t cs ct left u = elim (Option-cases (lookup u t.by_up_seid)) [
  | inr there ↦
      let r : ℕ = there.0 in
      let up : (heap r).up_seid ≡ u = ct.by_up.keyed u r there.1 in
      let (before, other) =
        spared-some heap node_key (lookup (heap r).cp_seid s.by_cp_seid) r
          (sym (left (heap r).cp_seid) ∙ ct.by_up.linked u r there.1) in
      there.1
      ∙ sym (
          ap (spared heap node_key)
            (ap (λ i. lookup i s.by_up_seid) (sym up) ∙ cs.by_cp.linked (heap r).cp_seid r before)
          ∙ some-spared heap node_key r other)
  | inl absent ↦ elim (Option-cases (spared heap node_key (lookup u s.by_up_seid))) [
    | inl gone ↦ absent ∙ sym gone
    | inr kept ↦
        let r : ℕ = kept.0 in
        let (there, other) = spared-some heap node_key (lookup u s.by_up_seid) r kept.1 in
        let up : (heap r).up_seid ≡ u = cs.by_up.keyed u r there in
        let after : lookup (heap r).cp_seid t.by_cp_seid ≡ some r =
          left (heap r).cp_seid
          ∙ ap (spared heap node_key) (cs.by_up.linked u r there)
          ∙ some-spared heap node_key r other in
        absurd (
          cc (
            sym absent
            ∙ ap (λ i. lookup i t.by_up_seid) (sym up)
            ∙ ct.by_cp.linked (heap r).cp_seid r after))
  ]
]

-- In a store whose indexes agree, DeleteByCPNodeKey takes out of both indexes exactly the sessions of
-- the node: every other session keeps its place under its CP-SEID and under its UP-SEID, every session
-- that is returned is one of the node's, and as many are returned as the store has lost.
pub delete_by_cp_node_key_exact :
    (heap : Heap) (node_key : String) (s : Store)
    → Coherent heap s
    → ((k : ℕ)
        → lookup k (delete_by_cp_node_key heap node_key s).1.by_cp_seid
          ≡ spared heap node_key (lookup k s.by_cp_seid))
      × ((u : ℕ)
          → lookup u (delete_by_cp_node_key heap node_key s).1.by_up_seid
            ≡ spared heap node_key (lookup u s.by_up_seid))
      × All
          (λ r. ((heap r).cp_node_key == node_key) ≡ true)
          (delete_by_cp_node_key heap node_key s).0
      × (length (delete_by_cp_node_key heap node_key s).0
            + count (delete_by_cp_node_key heap node_key s).1
          ≡ count s)
unfolding delete_by_cp_node_key
delete_by_cp_node_key_exact heap node_key s c =
    let ks : List ℕ = to_delete heap node_key s.by_cp_seid in
    let members : (j : ℕ) → among j ks ≡ is_of heap node_key (lookup j s.by_cp_seid) =
      λ j. among-to_delete heap node_key j s.by_cp_seid c.by_cp.distinct in
    let left : (k : ℕ)
        → lookup k (delete_loop heap ks s).1.by_cp_seid
          ≡ spared heap node_key (lookup k s.by_cp_seid) =
      λ k.
        lookup-delete_loop heap ks k s
        ∙ rw (members k) (spared-is_of heap node_key (lookup k s.by_cp_seid)) in
    (
      left,
      spared_by_up heap node_key s (delete_loop heap ks s).1 c (delete_loop-Coherent heap ks s c)
          left,
      delete_loop-All heap (λ r. ((heap r).cp_node_key == node_key) ≡ true) ks s
          (All-among _ ks
            (λ j e r there. ap (is_of heap node_key) (sym there) ∙ sym (members j) ∙ e)),
      delete_loop-count heap ks s c,
    )
