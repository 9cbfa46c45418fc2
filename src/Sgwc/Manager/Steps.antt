-- ===== src/Sgwc/Manager/Steps.antt =====
-- internal/sgwc/session/manager.go: the indexes under Create and Delete.
use vectorcore_sgw.Common.{
  ℕ, ◌≡◌, refl, sym, ap, ◌∙◌, String, Bool, true, false, not, Option, none, some, All, All-imp,
  All-both, All-map, All-of_map, keep, keep-same, keep-All, keep-none, List-cases, nat_beq,
  nat_beq_iff, number_keys, text_keys, ◌==◌, if◌then◌else◌, Bool-cases, Option-cases, inl, inr,
  arith,
}
use vectorcore_sgw.Common.Addr.{Addr}
use vectorcore_sgw.Common.Maps.{lookup, lookup-delete, lookup-delete_kept, lookup-All}
use vectorcore_sgw.Sgwc.Teid.{Allocator, free}
use vectorcore_sgw.Sgwc.Manager.{
  PdnKey, pdn_keys, pdn_key, Manager, find_all_by_s11_teid, remove_locked, freed, free_unused,
}
use vectorcore_sgw.Sgwc.Manager.Creation.{evict}
use vectorcore_sgw.Sgwc.Manager.Finders.{list_sessions}
use vectorcore_sgw.Sgwc.Manager.Indexes.{entries-found}
use vectorcore_sgw.Sgwc.Manager.Invariant.{
  remove_locked-IsIndexed, remove_locked-Reserved, sessions_left, pdn_gone,
}
use vectorcore_sgw.Sgwc.Manager.Indexed.{IsLive, has_s11, IsEntry, IsIndexed, Reserved}

-- Every session in the list is live, and what holds of the list holds of every live session.
pub All-IsLive : (m : Manager) → IsIndexed m → All (IsLive m) (list_sessions m)
All-IsLive m h =
    All-map (IsLive m) (λ (e : String × ℕ). e.1) m.by_id
      (All-both (λ (e : String × ℕ). lookup e.0 m.by_id ≡ some e.1) (IsEntry m)
        (λ (e : String × ℕ). IsLive m e.1)
        (λ e there entry. ap (λ i. lookup i m.by_id) entry.0 ∙ there) m.by_id
        (entries-found m.by_id h.distinct) h.entries)

pub live-All : (m : Manager) (P : ℕ → Type 0) (x : ℕ) → All P (list_sessions m) → IsLive m x → P x
live-All m P x all live =
    lookup-All (λ (e : String × ℕ). P e.1) (m.heap x).session_id m.by_id
      (All-of_map P (λ (e : String × ℕ). e.1) m.by_id all) live

-- The indexes with another allocator.
pub with_allocator-IsIndexed :
    (m : Manager) (a : Allocator) → IsIndexed m → IsIndexed (record m { teid_alloc = a })
with_allocator-IsIndexed m a h = record {
  distinct = h.distinct;
  entries = h.entries;
  s11 = h.s11;
  pdn = h.pdn;
  pdn_found = h.pdn_found;
  imsi = h.imsi;
  imsi_found = h.imsi_found;
}

free_kept : (t u : ℕ) (a : Allocator) → nat_beq t u ≡ false → lookup u (free t a) ≡ lookup u a
unfolding free
free_kept t u a apart = elim (Bool-cases (nat_beq t 0)) [
  | inl null ↦ rw null refl
  | inr other ↦ rw other (lookup-delete_kept t a u apart)
]

module _ (split_host_port : String → Option String) (join_host_port : String → String)
    (addr_text : Addr → String) where
  abbrev freed_by : ℕ → Manager → Allocator
  freed_by t m = freed split_host_port join_host_port addr_text t m

  freed_kept :
      (t u : ℕ) (m : Manager)
      → nat_beq t u ≡ false
      → lookup u (freed_by t m) ≡ lookup u m.teid_alloc
  freed_kept t u m apart = elim (List-cases (find_all_by_s11_teid t m)) [
    | inl nobody ↦ rw (nobody, freed) (free_kept t u m.teid_alloc apart)
    | inr (x, xs, e) ↦ rw (e, freed) refl
  ]

  pub free_unused-IsIndexed :
      (t : ℕ) (m : Manager)
      → IsIndexed m
      → IsIndexed (free_unused split_host_port join_host_port addr_text t m)
  free_unused-IsIndexed t m h = with_allocator-IsIndexed m (freed_by t m) h

  pub free_unused-Reserved :
      (t : ℕ) (m : Manager)
      → IsIndexed m
      → Reserved m
      → Reserved (free_unused split_host_port join_host_port addr_text t m)
  free_unused-Reserved t m h used x live = elim (List-cases (find_all_by_s11_teid t m)) [
    | inr (y, ys, e) ↦ rw (e, freed) (used x live)
    | inl nobody ↦
        let no_one = keep-none (has_s11 m t) (list_sessions m) (sym (h.s11 t) ∙ nobody) in
        let other = live-All m (λ y. has_s11 m t y ≡ false) x no_one live in
        freed_kept t (m.heap x).sgw_s11_fteid.teid m (ground (arith, other)) ∙ used x live
  ]

  -- What the eviction of the session of a PDN connection leaves.
  pub record Evicted (k : PdnKey) (t : ℕ) (m m' : Manager) : Type 0 where
    pub indexed : IsIndexed m'
    pub same_heap : m'.heap ≡ m.heap
    pub same_next : m'.next ≡ m.next
    pub pdn_free : lookup k m'.by_pdn ≡ none
    pub sessions : list_sessions m' ≡ keep (λ x. not (pdn_key (m.heap x) == k)) (list_sessions m)
    pub still_free : (i : String) → lookup i m.by_id ≡ none → lookup i m'.by_id ≡ none
    pub reserved : Reserved m → Reserved m'
    pub still_used : lookup t m.teid_alloc ≡ some tt → lookup t m'.teid_alloc ≡ some tt

  abbrev without : ℕ → Manager → Manager
  without r m = remove_locked split_host_port join_host_port addr_text r m

  -- The session of a PDN connection is the only one to be taken out with it.
  same_pdn_only :
      (k : PdnKey) (r x : ℕ) (m : Manager)
      → IsIndexed m
      → lookup k m.by_pdn ≡ some r
      → IsLive m x
      → not (nat_beq x r) ≡ not (pdn_key (m.heap x) == k)
  same_pdn_only k r x m h at live = elim (Bool-cases (pdn_key (m.heap x) == k)) [
    | inl same ↦
        let it = (pdn_keys.same_iff (pdn_key (m.heap x)) k).0 same in
        let is_r : x ≡ r = cc (ap (λ i. lookup i m.by_pdn) (sym it) ∙ h.pdn_found x live, at) in
        rw (same, (nat_beq_iff x r).1 is_r) refl
    | inr other ↦ elim (Bool-cases (nat_beq x r)) [
      | inr apart ↦ rw (other, apart) refl
      | inl same ↦
          let key : pdn_key (m.heap x) ≡ k =
            ap (λ y. pdn_key (m.heap y)) ((nat_beq_iff x r).0 same) ∙ (h.pdn k r at).1 in
          absurd (cc (other, (pdn_keys.same_iff (pdn_key (m.heap x)) k).1 key))
    ]
  ]

  removed-Evicted :
      (k : PdnKey) (t r : ℕ) (m : Manager)
      → IsIndexed m
      → lookup k m.by_pdn ≡ some r
      → Evicted k t m (without r m)
  unfolding remove_locked
  removed-Evicted k t r m h at =
      let live = (h.pdn k r at).0 in
      record {
        indexed = remove_locked-IsIndexed split_host_port join_host_port addr_text r m h live;
        same_heap = refl;
        same_next = refl;
        pdn_free =
            ap (λ i. lookup k i) (pdn_gone split_host_port join_host_port addr_text r m h live)
            ∙ lookup-delete (pdn_key (m.heap r)) k m.by_pdn
            ∙ rw ((pdn_keys.same_iff (pdn_key (m.heap r)) k).1 (h.pdn k r at).1) refl;
        sessions =
            sessions_left split_host_port join_host_port addr_text r m h live
            ∙ keep-same (λ x. not (nat_beq x r)) (λ x. not (pdn_key (m.heap x) == k))
                (list_sessions m)
                (All-imp (IsLive m) _ (λ x there. same_pdn_only k r x m h at there)
                  (list_sessions m) (All-IsLive m h));
        still_free = λ i e. lookup-delete (m.heap r).session_id i m.by_id ∙ free_either _ _ e;
        reserved = remove_locked-Reserved split_host_port join_host_port addr_text r m h live;
        still_used = λ e. e;
      }
    where
      free_either : (b : Bool) (o : Option ℕ) → o ≡ none → (if b then none else o) ≡ none
      free_either true o e = refl
      free_either false o e = e

  freed-Evicted :
      (k : PdnKey) (t u : ℕ) (m m' : Manager)
      → nat_beq u t ≡ false
      → Evicted k t m m'
      → Evicted k t m (free_unused split_host_port join_host_port addr_text u m')
  freed-Evicted k t u m m' apart ev = record {
    indexed = free_unused-IsIndexed u m' ev.indexed;
    same_heap = ev.same_heap;
    same_next = ev.same_next;
    pdn_free = ev.pdn_free;
    sessions = ev.sessions;
    still_free = ev.still_free;
    reserved = λ used. free_unused-Reserved u m' ev.indexed (ev.reserved used);
    still_used = λ e. freed_kept u t m' apart ∙ ev.still_used e;
  }

  pub evict-Evicted :
      (k : PdnKey) (t : ℕ) (m : Manager)
      → IsIndexed m
      → Evicted k t m (evict split_host_port join_host_port addr_text k t m).0
  unfolding evict
  evict-Evicted k t m h = elim (Option-cases (lookup k m.by_pdn)) [
    | inl nobody ↦
        rw (nobody, evict)
          (record {
            indexed = h;
            same_heap = refl;
            same_next = refl;
            pdn_free = nobody;
            sessions = sym (
                keep-All (λ x. not (pdn_key (m.heap x) == k)) (list_sessions m)
                  (All-imp (IsLive m) (λ x. not (pdn_key (m.heap x) == k) ≡ true)
                    (λ x live. elim (Bool-cases (pdn_key (m.heap x) == k)) [
                      | inr other ↦ rw other refl
                      | inl same ↦
                          let it = (pdn_keys.same_iff (pdn_key (m.heap x)) k).0 same in
                          absurd
                            (cc (ap (λ i. lookup i m.by_pdn) (sym it) ∙ h.pdn_found x live, nobody))
                    ])
                    (list_sessions m) (All-IsLive m h)));
            still_free = λ i e. e;
            reserved = λ used. used;
            still_used = λ e. e;
          })
    | inr old ↦
        let u = (m.heap old.0).sgw_s11_fteid.teid in
        let gone = removed-Evicted k t old.0 m h old.1 in
        elim (Bool-cases (nat_beq u t)) [
          | inl shared ↦ rw (old.1, evict, shared) gone
          | inr own ↦ rw (old.1, evict, own) (freed-Evicted k t u m (without old.0 m) own gone)
        ]
  ]
