-- ===== src/Sgwu/Session/Teids.antt =====
-- internal/sgwu/session/store.go: local TEIDs, how they are found and how they are handed out.
use vectorcore_sgw.Common.{
  ℕ, ◌≡◌, ◌≢◌, refl, sym, subst, ◌∙◌, true, false, not, ◌&&◌, ◌||◌, Option, none, some, List, [],
  ◌∷◌, All, any, is_some, number_keys, nat_beq, nat_beq_iff, inl, inr, Option-cases, Bool-cases,
}
use vectorcore_sgw.Sgwu.Session.{
  Pdr, Heap, Store, find_pdr, find_loop, find_by_local_teid, local_teid_in_use, alloc_teid,
}

find_pdr-any :
    (teid : ℕ) (pdrs : List Pdr)
    → is_some (find_pdr teid pdrs) ≡ any (λ pdr. nat_beq pdr.local_teid teid) pdrs
unfolding find_pdr
find_pdr-any teid [] = refl
find_pdr-any teid (pdr ∷ rest) = elim (Bool-cases (nat_beq pdr.local_teid teid)) [
  | inl hit ↦ rw hit refl
  | inr miss ↦ rw miss (find_pdr-any teid rest)
]

find_loop-any :
    (heap : Heap) (teid : ℕ) (entries : List (ℕ × ℕ))
    → is_some (find_loop heap teid entries)
      ≡ any (λ entry. any (λ pdr. nat_beq pdr.local_teid teid) (heap entry.1).pdrs) entries
unfolding find_loop
find_loop-any heap teid [] = refl
find_loop-any heap teid ((k, r) ∷ rest) = elim (Option-cases (find_pdr teid (heap r).pdrs)) [
  | inl miss ↦
      rw (miss, find_loop, sym (find_pdr-any teid (heap r).pdrs), miss)
        (find_loop-any heap teid rest)
  | inr hit ↦ rw (hit.1, find_loop, sym (find_pdr-any teid (heap r).pdrs), hit.1) refl
]

-- A session is found by a local TEID exactly when the TEID is not 0 and some PDR of a stored session
-- has it, which is the test that the allocation of TEIDs makes.
pub find_by_local_teid-local_teid_in_use :
    (heap : Heap) (teid : ℕ) (s : Store)
    → is_some (find_by_local_teid heap teid s)
      ≡ (not (nat_beq teid 0) && local_teid_in_use heap teid s)
unfolding find_by_local_teid local_teid_in_use
find_by_local_teid-local_teid_in_use heap teid s = elim (Bool-cases (nat_beq teid 0)) [
  | inl zero_teid ↦ rw zero_teid refl
  | inr other ↦ rw other (find_loop-any heap teid s.by_cp_seid)
]

nothing : {A : Type 0} (o : Option A) → is_some o ≡ false → o ≡ none
nothing none e = refl
nothing (some a) e = absurd (cc e)

unused_teid :
    (heap : Heap) (s : Store) (v : ℕ)
    → nat_beq v 0 ≡ false
    → local_teid_in_use heap v s ≡ false
    → (v ≢ 0) × (find_by_local_teid heap v s ≡ none)
unused_teid heap s v some_teid unused = (
  λ e. absurd (cc (some_teid, (nat_beq_iff v 0).1 e)),
  nothing (find_by_local_teid heap v s)
      (find_by_local_teid-local_teid_in_use heap v s ∙ rw (some_teid, unused) refl),
)

-- Why a random number is passed over.
abbrev pub Refused : Heap → Store → ℕ → Type 0
Refused heap s v = (nat_beq v 0 || local_teid_in_use heap v s) ≡ true

-- A TEID that AllocTEID hands out is not 0 and no session of the store is found by it; when it has
-- none to hand out, every random number it has drawn was 0 or in use.
pub alloc_teid_fresh :
    (heap : Heap) (randoms : List ℕ) (s : Store)
    → ((v : ℕ)
        → alloc_teid heap randoms s ≡ some v
        → (v ≢ 0) × (find_by_local_teid heap v s ≡ none))
      × (alloc_teid heap randoms s ≡ none → All (Refused heap s) randoms)
unfolding alloc_teid
alloc_teid_fresh heap [] s = (λ v e. absurd (cc e), λ e. tt)
alloc_teid_fresh heap (w ∷ randoms) s =
    let (taken, refused) = alloc_teid_fresh heap randoms s in
    elim (Bool-cases (nat_beq w 0)) [
      | inl zero_teid ↦ rw (zero_teid, alloc_teid) (taken, λ e. (refl, refused e))
      | inr some_teid ↦ elim (Bool-cases (local_teid_in_use heap w s)) [
        | inl used ↦ rw (some_teid, used, alloc_teid) (taken, λ e. (refl, refused e))
        | inr unused ↦
            rw (some_teid, unused, alloc_teid)
              (
                λ v e.
                    subst (λ x. (x ≢ 0) × (find_by_local_teid heap x s ≡ none)) (cc e)
                      (unused_teid heap s w some_teid unused),
                λ e. absurd (cc e),
              )
      ]
    ]
