-- ===== src/Sgwc/Manager/Register.antt =====
-- internal/sgwc/session/manager.go: the indexes with a new session.
use vectorcore_sgw.Common.{
  ℕ, ◌≡◌, ◌<◌, ◌⊎◌, refl, sym, ap, subst, ◌∙◌, String, Bool, true, false, Option, none, some, [],
  ◌∷◌, ◌++◌, map, All, All-imp, map_append, keep, keep-same, keep-append, append_nil, nat_beq,
  nat_beq_iff, lt-nat_beq, number_keys, text_keys, ◌==◌, if◌then◌else◌, is_some, Bool-cases, inl,
  inr, arith,
}
use vectorcore_sgw.Common.Addr.{Addr}
use vectorcore_sgw.Common.Maps.{
  lookup, insert-Distinct, insert-All, lookup-insert, lookup-insert_same, lookup-insert_kept,
  insert_entry, insert_fresh, lookup-All,
}
use vectorcore_sgw.Sgwc.Manager.{
  SgwSession, PdnKey, pdn_keys, pdn_key, Manager, or_empty, find_all_by_s11_teid,
}
use vectorcore_sgw.Sgwc.Manager.Creation.{register}
use vectorcore_sgw.Sgwc.Manager.Finders.{list_sessions}
use vectorcore_sgw.Sgwc.Manager.Indexed.{IsLive, has_s11, IsEntry, IsIndexed, Reserved}
use vectorcore_sgw.Sgwc.Manager.Steps.{All-IsLive}

module _ (split_host_port : String → Option String) (join_host_port : String → String)
    (addr_text : Addr → String) (s : SgwSession) (m : Manager) (h : IsIndexed m)
    (new_id : lookup s.session_id m.by_id ≡ none)
    (new_pdn : lookup (pdn_key s) m.by_pdn ≡ none) where
  abbrev registered : Manager
  registered = register split_host_port join_host_port addr_text s m

  abbrev n : ℕ
  n = m.next

  new_heap : registered.heap n ≡ s
  unfolding register
  new_heap = rw ((nat_beq_iff n n).1 refl) refl

  live_below : (x : ℕ) → IsLive m x → x < n
  live_below x live = (lookup-All (IsEntry m) (m.heap x).session_id m.by_id h.entries live).1

  old_heap : (x : ℕ) → x < n → registered.heap x ≡ m.heap x
  unfolding register
  old_heap x below = rw (lt-nat_beq x n below) refl

  IsLive-cases : (x : ℕ) → IsLive registered x → (x ≡ n) ⊎ IsLive m x
  unfolding register
  IsLive-cases x live =
      elim (insert_entry s.session_id n m.by_id (registered.heap x).session_id x live) [
        | inl here ↦ inl (sym here.1)
        | inr old ↦
            let below =
              (lookup-All (IsEntry m) (registered.heap x).session_id m.by_id h.entries old).1 in
            inr
              (ap (λ (y : SgwSession). lookup y.session_id m.by_id) (sym (old_heap x below)) ∙ old)
      ]

  new-IsLive : IsLive registered n
  unfolding register
  new-IsLive =
      ap (λ (y : SgwSession). lookup y.session_id registered.by_id) new_heap
      ∙ lookup-insert_same s.session_id n m.by_id

  still-IsLive : (x : ℕ) → IsLive m x → IsLive registered x
  unfolding register
  still-IsLive x live =
      ap (λ (y : SgwSession). lookup y.session_id registered.by_id) (old_heap x (live_below x live))
      ∙ lookup-insert_kept s.session_id n m.by_id (m.heap x).session_id x new_id live

  -- The references are the old ones and the new one.
  pub sessions_registered : list_sessions registered ≡ list_sessions m ++ (n ∷ [])
  unfolding register
  sessions_registered =
      ap (map (λ (e : String × ℕ). e.1)) (insert_fresh s.session_id n m.by_id new_id)
      ∙ map_append (λ (e : String × ℕ). e.1) m.by_id ((s.session_id, n) ∷ [])

  old_has_s11 :
      (t : ℕ) → keep (has_s11 registered t) (list_sessions m) ≡ keep (has_s11 m t) (list_sessions m)
  old_has_s11 t = keep-same (has_s11 registered t) (has_s11 m t) (list_sessions m) (
      All-imp (IsLive m) _
        (λ x live.
          ap (λ (y : SgwSession). nat_beq y.sgw_s11_fteid.teid t) (old_heap x (live_below x live)))
        (list_sessions m) (All-IsLive m h))

  keep-registered :
      (t : ℕ)
      → keep (has_s11 m t) (list_sessions m) ++ keep (has_s11 registered t) (n ∷ [])
        ≡ keep (has_s11 registered t) (list_sessions registered)
  keep-registered t =
      ap (λ ys. ys ++ keep (has_s11 registered t) (n ∷ [])) (sym (old_has_s11 t))
      ∙ sym (keep-append (has_s11 registered t) (list_sessions m) (n ∷ []))
      ∙ ap (keep (has_s11 registered t)) (sym sessions_registered)

  new_has_s11 : (t : ℕ) → has_s11 registered t n ≡ nat_beq s.sgw_s11_fteid.teid t
  new_has_s11 t = ap (λ (y : SgwSession). nat_beq y.sgw_s11_fteid.teid t) new_heap

  s11_registered :
      (t : ℕ)
      → find_all_by_s11_teid t registered ≡ keep (has_s11 registered t) (list_sessions registered)
  unfolding register
  s11_registered t =
      let t0 = s.sgw_s11_fteid.teid in
      ap or_empty (lookup-insert m.by_s11 t0 (find_all_by_s11_teid t0 m ++ (n ∷ [])) t)
      ∙ elim (Bool-cases (nat_beq t0 t)) [
        | inl same ↦ rw same (
            ap (λ i. find_all_by_s11_teid i m ++ (n ∷ [])) ((nat_beq_iff t0 t).0 same)
            ∙ ap (λ ys. ys ++ (n ∷ [])) (h.s11 t)
            ∙ ap (λ ys. keep (has_s11 m t) (list_sessions m) ++ ys)
                (kept (has_s11 registered t n) (new_has_s11 t ∙ same))
            ∙ keep-registered t)
        | inr other ↦ rw other (
            h.s11 t
            ∙ sym (append_nil (keep (has_s11 m t) (list_sessions m)))
            ∙ ap (λ ys. keep (has_s11 m t) (list_sessions m) ++ ys)
                (dropped (has_s11 registered t n) (new_has_s11 t ∙ other))
            ∙ keep-registered t)
      ]
    where
      kept : (b : Bool) → b ≡ true → n ∷ [] ≡ (if b then n ∷ [] else [])
      kept true e = refl
      kept false e = cc

      dropped : (b : Bool) → b ≡ false → [] ≡ (if b then n ∷ [] else [])
      dropped true e = cc
      dropped false e = refl

  abbrev key : ℕ → PdnKey
  key x = pdn_key (registered.heap x)

  new_key : key n ≡ pdn_key s
  new_key = ap pdn_key new_heap

  old_key : (x : ℕ) → IsLive m x → key x ≡ pdn_key (m.heap x)
  old_key x live = ap pdn_key (old_heap x (live_below x live))

  pdn_registered :
      (k : PdnKey) (x : ℕ) → lookup k registered.by_pdn ≡ some x → IsLive registered x × (key x ≡ k)
  unfolding register
  pdn_registered k x e = elim (insert_entry (pdn_key s) n m.by_pdn k x e) [
    | inl here ↦
        subst (λ y. IsLive registered y × (key y ≡ k)) here.1 (new-IsLive, new_key ∙ here.0)
    | inr old ↦ let (live, same) = h.pdn k x old in (still-IsLive x live, old_key x live ∙ same)
  ]

  pdn_found_registered : (x : ℕ) → IsLive registered x → lookup (key x) registered.by_pdn ≡ some x
  unfolding register
  pdn_found_registered x live = elim (IsLive-cases x live) [
    | inl it ↦
        ap (λ y. lookup (key y) registered.by_pdn) it
        ∙ ap (λ k. lookup k registered.by_pdn) new_key
        ∙ lookup-insert_same (pdn_key s) n m.by_pdn
        ∙ ap some (sym it)
    | inr old ↦
        ap (λ k. lookup k registered.by_pdn) (old_key x old)
        ∙ lookup-insert_kept (pdn_key s) n m.by_pdn (pdn_key (m.heap x)) x new_pdn
            (h.pdn_found x old)
  ]

  imsi_registered :
      (i : String) (x : ℕ)
      → lookup i registered.by_imsi ≡ some x
      → IsLive registered x × ((registered.heap x).imsi ≡ i)
  unfolding register
  imsi_registered i x e = elim (insert_entry s.imsi n m.by_imsi i x e) [
    | inl here ↦
        subst (λ y. IsLive registered y × ((registered.heap y).imsi ≡ i)) here.1
          (new-IsLive, ap (λ (y : SgwSession). y.imsi) new_heap ∙ here.0)
    | inr old ↦
        let (live, same) = h.imsi i x old in
        (
          still-IsLive x live,
          ap (λ (y : SgwSession). y.imsi) (old_heap x (live_below x live)) ∙ same,
        )
  ]

  imsi_found_registered :
      (x : ℕ)
      → IsLive registered x
      → is_some (lookup (registered.heap x).imsi registered.by_imsi) ≡ true
  unfolding register
  imsi_found_registered x live = elim (IsLive-cases x live) [
    | inl it ↦
        ap (λ y. is_some (lookup (registered.heap y).imsi registered.by_imsi)) it
        ∙ ap (λ (y : SgwSession). is_some (lookup y.imsi registered.by_imsi)) new_heap
        ∙ ap is_some (lookup-insert_same s.imsi n m.by_imsi)
    | inr old ↦
        ap (λ (y : SgwSession). is_some (lookup y.imsi registered.by_imsi))
          (old_heap x (live_below x old))
        ∙ ap is_some (lookup-insert m.by_imsi s.imsi n (m.heap x).imsi)
        ∙ either (s.imsi == (m.heap x).imsi) (lookup (m.heap x).imsi m.by_imsi) (h.imsi_found x old)
  ]
    where
      either :
          (b : Bool) (o : Option ℕ) → is_some o ≡ true → is_some (if b then some n else o) ≡ true
      either true o e = refl
      either false o e = e

  pub register-Reserved :
      lookup s.sgw_s11_fteid.teid m.teid_alloc ≡ some tt → Reserved m → Reserved registered
  unfolding register
  register-Reserved in_use used x live = elim (IsLive-cases x live) [
    | inl it ↦
        ap (λ y. lookup (registered.heap y).sgw_s11_fteid.teid m.teid_alloc) it
        ∙ ap (λ (y : SgwSession). lookup y.sgw_s11_fteid.teid m.teid_alloc) new_heap
        ∙ in_use
    | inr old ↦
        ap (λ (y : SgwSession). lookup y.sgw_s11_fteid.teid m.teid_alloc)
          (old_heap x (live_below x old))
        ∙ used x old
  ]

  entries_registered : All (IsEntry registered) registered.by_id
  unfolding register
  entries_registered =
      insert-All (IsEntry registered) s.session_id n m.by_id
        (ap (λ (y : SgwSession). y.session_id) new_heap, omega arith)
        (All-imp (IsEntry m) (IsEntry registered)
          (λ e entry. (
            ap (λ (y : SgwSession). y.session_id) (old_heap e.1 entry.1) ∙ entry.0,
            omega (arith, entry.1),
          ))
          m.by_id h.entries)

  -- The indexes with the session.
  pub register-IsIndexed : IsIndexed registered
  unfolding register
  register-IsIndexed = record {
    distinct = insert-Distinct s.session_id n m.by_id h.distinct;
    entries = entries_registered;
    s11 = s11_registered;
    pdn = pdn_registered;
    pdn_found = pdn_found_registered;
    imsi = imsi_registered;
    imsi_found = imsi_found_registered;
  }
